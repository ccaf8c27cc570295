-- ===== src/Chunk/Decode/Size.antt =====
-- The size parser reads back every hexadecimal size.
use agent_httpd.Base.{
  ℕ, ◌+◌, ◌*◌, ◌≤◌, false, none, some, [], ◌∷◌, ◌++◌, length, ◌≡◌, refl, arith, Bytes,
}
use agent_httpd.Chunk.Grammar.{
  HexDigit, decimal, lower, upper, Spells, done, digit, IsTail, SizeLine,
}
use agent_httpd.Chunk.{long_max, hex_digit, scan_size, parse_size, skip_sign, skip_blanks}

hex_digit-HexDigit : (d v : ℕ) → HexDigit d v → hex_digit d ≡ some v
unfolding hex_digit
hex_digit-HexDigit d v (decimal l e) = ground arith
hex_digit-HexDigit d v (lower k l e) = ground arith
hex_digit-HexDigit d v (upper k l e) = ground arith

pub hex_digit-IsTail : (c : ℕ) (cs : Bytes) → IsTail (c ∷ cs) → hex_digit c ≡ none
unfolding hex_digit
hex_digit-IsTail c cs t = ground arith

le-Spells : {acc n : ℕ} {ds : Bytes} → Spells acc ds n → acc ≤ n
le-Spells done = omega arith
le-Spells (digit h s) = omega (arith, le-Spells s)

scan_size-Spells :
    {acc n : ℕ} {ds : Bytes} (rest : Bytes) (digits : ℕ)
    → Spells acc ds n
    → n ≤ long_max
    → digits + length ds ≤ 16
    → IsTail rest
    → scan_size (ds ++ rest) acc digits ≡ some n
unfolding scan_size
scan_size-Spells {acc} [] digits done h k t = refl
scan_size-Spells {acc} (c ∷ rest) digits done h k t = rw (hex_digit-IsTail c rest t, scan_size) refl
scan_size-Spells {acc} {n} rest digits (digit {d = d} {v = v} {ds = ds} x s) h k t =
    rw (hex_digit-HexDigit d v x, scan_size)
      (ground (arith, le-Spells s, scan_size-Spells rest (digits + 1) s h (omega arith) t))

pub skip_blanks-HexDigit : (d v : ℕ) (cs : Bytes) → HexDigit d v → skip_blanks (d ∷ cs) ≡ d ∷ cs
unfolding skip_blanks
skip_blanks-HexDigit d v cs (decimal l e) = ground arith
skip_blanks-HexDigit d v cs (lower k l e) = ground arith
skip_blanks-HexDigit d v cs (upper k l e) = ground arith

skip_sign-HexDigit : (d v : ℕ) (cs : Bytes) → HexDigit d v → skip_sign (d ∷ cs) ≡ (false, d ∷ cs)
unfolding skip_sign
skip_sign-HexDigit d v cs (decimal l e) = ground arith
skip_sign-HexDigit d v cs (lower k l e) = ground arith
skip_sign-HexDigit d v cs (upper k l e) = ground arith

first-Spells :
    {acc d n : ℕ} {ds : Bytes}
    → Spells acc (d ∷ ds) n
    → (v : ℕ) × HexDigit d v × Spells (acc * 16 + v) ds n
first-Spells (digit {v = v} x s) = (v, x, s)

pub parse_size_digits :
    (line : Bytes) (n : ℕ)
    → skip_blanks line ≡ line
    → skip_sign line ≡ (false, line)
    → scan_size line 0 0 ≡ some n
    → parse_size line ≡ some (false, n)
unfolding parse_size
parse_size_digits line n b s e = rw (b, parse_size) (rw (s, parse_size) (rw e (rw b (rw s refl))))

pub parse_size-SizeLine :
    (line : Bytes) (n : ℕ) → n ≤ long_max → SizeLine line n → parse_size line ≡ some (false, n)
parse_size-SizeLine line n h l =
    let (v, x, s) = first-Spells l.spells in
    rw l.splits (
      parse_size_digits ((l.first ∷ l.others) ++ l.rest) n (skip_blanks-HexDigit l.first v _ x)
        (skip_sign-HexDigit l.first v _ x)
        (scan_size-Spells l.rest 0 l.spells h (omega (arith, l.short)) l.tail))
