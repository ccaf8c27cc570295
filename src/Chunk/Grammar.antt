-- ===== src/Chunk/Grammar.antt =====
-- The chunked coding as RFC 9112 gives it, apart from the decoder: hexadecimal sizes, chunks, the last
-- chunk and the trailer.
use agent_httpd.Base.{ℕ, ◌+◌, ◌*◌, ◌≤◌, ◌<◌, [], ◌∷◌, ◌++◌, length, ◌≡◌, ◌≢◌, ◌⊎◌, All, Bytes}

-- `d` is the digit of value `v`.
pub data HexDigit (d v : ℕ) : Type 0 where
  decimal : v < 10 → d ≡ b'0' + v → HexDigit d v
  lower : 10 ≤ v → v < 16 → d + 10 ≡ b'a' + v → HexDigit d v
  upper : 10 ≤ v → v < 16 → d + 10 ≡ b'A' + v → HexDigit d v

-- The digits, read behind the value `acc`, give `n`.
pub data Spells : ℕ → Bytes → ℕ → Type 0 where
  done : {n : ℕ} → Spells n [] n
  digit :
      {acc d v n : ℕ} {ds : Bytes}
      → HexDigit d v
      → Spells (acc * 16 + v) ds n
      → Spells acc (d ∷ ds) n

abbrev pub LacksLf : Bytes → Type 0
LacksLf = All (λ c. c ≢ b'\n')

-- What may follow the digits: an extension, or the '\r' of the line's end.
abbrev pub IsTail : Bytes → Type 0
IsTail [] = Unit
IsTail (c ∷ cs) = ((c < b'0') ⊎ (b'9' < c)) × ((c < b'A') ⊎ (b'F' < c)) × ((c < b'a') ⊎ (b'f' < c))

-- A line, without its '\n', that gives the size `n`: at most 16 digits and the rest.
pub record SizeLine (line : Bytes) (n : ℕ) : Type 0 where
  pub first : ℕ
  pub others : Bytes
  pub rest : Bytes
  pub splits : line ≡ (first ∷ others) ++ rest
  pub spells : Spells 0 (first ∷ others) n
  pub short : length (first ∷ others) ≤ 16
  pub tail : IsTail rest
  pub one_line : LacksLf line

-- The blank line ends the trailer.
pub data Trailer : Bytes → Type 0 where
  blank : Trailer (b'\n' ∷ [])
  blank_cr : Trailer (b'\r' ∷ b'\n' ∷ [])
  field :
      {line rest : Bytes}
      → LacksLf line
      → line ≢ []
      → line ≢ b'\r' ∷ []
      → Trailer rest
      → Trailer (line ++ (b'\n' ∷ rest))

-- The wire form of a body.
pub data Encodes : Bytes → Bytes → Type 0 where
  last : {line rest : Bytes} → SizeLine line 0 → Trailer rest → Encodes (line ++ (b'\n' ∷ rest)) []
  chunk :
      {line rest body : Bytes} (part : Bytes) (n : ℕ)
      → SizeLine line n
      → n ≡ length part
      → 0 < n
      → Encodes rest body
      → Encodes (line ++ (b'\n' ∷ (part ++ (b'\r' ∷ b'\n' ∷ rest)))) (part ++ body)
