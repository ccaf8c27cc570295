-- ===== src/RateLimit/Trusted.antt =====
-- Trusted proxies, in src/security/ratelimit.c. An address is its bytes in network order; `inet_pton`
-- and `inet_aton` are parameters, from a text to the bytes.
pub mod Prefix
pub mod Bits
pub mod Masks
mod Tests
use Prim.Native.Nat.{bit_and, bit_xor}
use agent_httpd.Base.{
  ℕ, zero, suc, ◌+◌, ◌-◌, ◌*◌, ◌%◌, ◌^◌, Bool, true, false, not, ◌&&◌, ◌||◌, Option, none, some,
  List, [], ◌∷◌, ◌++◌, length, replicate, ltb, leb, ◌==◌, if◌then◌else◌, and_then, Bytes,
}

abbrev pub rate_trusted_max : ℕ
rate_trusted_max = 32

pub data Family : Type 0 where
  inet inet6 : Family

pub record TrustedNet : Type 0 where
  pub family : Family
  pub addr : Bytes
  pub mask : Bytes

-- The peer's `sockaddr`: NULL, of another family, or with its address.
pub data Peer : Type 0 where
  absent other : Peer
  address : Family → Bytes → Peer

-- The loop of `build_mask`, over `n` bytes.
unfoldable pub mask_bytes : ℕ → ℕ → Bytes
mask_bytes prefix zero = []
mask_bytes prefix (suc n) =
    if leb 8 prefix
    then 0xff ∷ mask_bytes (prefix - 8) n
    else if ltb 0 prefix
    then (0xff * 2 ^ (8 - prefix) % 256) ∷ mask_bytes 0 n
    else replicate (suc n) 0

-- `build_mask`: 16 bytes, zero behind the first `nbytes`.
abbrev pub build_mask : ℕ → ℕ → Bytes
build_mask prefix nbytes = mask_bytes prefix nbytes ++ replicate (16 - nbytes) 0

abbrev pub is_digit : ℕ → Bool
is_digit c = leb b'0' c && leb c b'9'

-- The loop of `parse_prefix`; `none` is -1.
unfoldable pub prefix_loop : ℕ → Bytes → Option ℕ
prefix_loop v [] = some v
prefix_loop v (c ∷ cs) =
    let v' = v * 10 + (c - b'0') in
    let rest = prefix_loop v' cs in if is_digit c then (if ltb 128 v' then none else rest) else none

-- `parse_prefix`.
unfoldable pub parse_prefix : Bytes → Option ℕ
parse_prefix [] = none
parse_prefix (c ∷ cs) = prefix_loop 0 (c ∷ cs)

-- Up to a comma, as far as the buffer goes.
unfoldable pub until_comma : ℕ → Bytes → Bytes
until_comma zero s = []
until_comma (suc room) [] = []
until_comma (suc room) (c ∷ cs) = if c == b',' then [] else c ∷ until_comma room cs

abbrev pub is_blank : ℕ → Bool
is_blank c = c == b' ' || c == b'\t'

unfoldable pub skip_blanks : Bytes → Bytes
skip_blanks [] = []
skip_blanks (c ∷ cs) = if is_blank c then skip_blanks cs else c ∷ cs

unfoldable pub drop_last_blanks : Bytes → Bytes
drop_last_blanks [] = []
drop_last_blanks (c ∷ cs) = elim (drop_last_blanks cs) [
  | [] ↦ if is_blank c then [] else c ∷ []
  | d ∷ ds ↦ c ∷ d ∷ ds
]

-- `strchr(s, c)`: what stands before the byte, and behind it.
unfoldable pub split_at : ℕ → Bytes → Option (Bytes × Bytes)
split_at c [] = none
split_at c (x ∷ xs) =
    let rest = and_then (split_at c xs) (λ r. some (x ∷ r.0, r.1)) in
    if x == c then some ([], xs) else rest

unfoldable pub contains : ℕ → Bytes → Bool
contains c [] = false
contains c (x ∷ xs) = x == c || contains c xs

-- The literal and its prefix, which may be missing.
unfoldable pub bracketed : Bytes → Option (Bytes × Option ℕ)
bracketed s = elim (split_at b']' s) [
  | none ↦ none
  | some (addr, []) ↦ some (addr, none)
  | some (addr, c ∷ cs) ↦
      if c == b'/' then and_then (parse_prefix cs) (λ p. some (addr, some p)) else none
]

unfoldable pub bare : Bytes → Option (Bytes × Option ℕ)
bare s = elim (split_at b'/' s) [
  | none ↦ some (s, none)
  | some (addr, cs) ↦ and_then (parse_prefix cs) (λ p. some (addr, some p))
]

unfoldable pub split_prefix : Bytes → Option (Bytes × Option ℕ)
split_prefix [] = none
split_prefix (c ∷ cs) = if c == b'[' then bracketed cs else bare (c ∷ cs)

abbrev pub prefix_or : ℕ → Option ℕ → ℕ
prefix_or d none = d
prefix_or d (some p) = p

-- `addr[i] &= mask[i]`.
unfoldable pub and_bytes : Bytes → Bytes → Bytes
and_bytes (b ∷ bs) (m ∷ ms) = bit_and b m ∷ and_bytes bs ms
and_bytes _ _ = []

abbrev pub network : Family → ℕ → Bytes → ℕ → TrustedNet
network family nbytes a prefix =
    let mask = build_mask prefix nbytes in
    record { family = family; addr = and_bytes (a ++ replicate (16 - nbytes) 0) mask; mask = mask }

module _ (inet_pton inet_aton : Bytes → Option Bytes) where
  unfoldable pub parse_net : Bytes → ℕ → ℕ → Option TrustedNet
  parse_net addr prefix4 prefix6 =
      if contains b':' addr
      then and_then (inet_pton addr)
          (λ a. if ltb 128 prefix6 then none else some (network inet6 16 a prefix6))
      else and_then (inet_aton addr)
          (λ a. if ltb 32 prefix4 then none else some (network inet 4 a prefix4))

  -- `parse_cidr`.
  unfoldable pub parse_cidr : Bytes → Option TrustedNet
  parse_cidr s =
      and_then (split_prefix (drop_last_blanks (skip_blanks (until_comma 63 s))))
        (λ r. parse_net r.0 (prefix_or 32 r.1) (prefix_or 128 r.1))

  unfoldable pub skip_separators : Bytes → Bytes
  skip_separators [] = []
  skip_separators (c ∷ cs) = if c == b' ' || c == b',' then skip_separators cs else c ∷ cs

  -- An entry and what follows its comma.
  unfoldable pub next_entry : Bytes → Bytes × Bytes
  next_entry [] = ([], [])
  next_entry (c ∷ cs) = let r = next_entry cs in if c == b',' then ([], cs) else (c ∷ r.0, r.1)

  -- Entries of 64 bytes and more are passed over.
  unfoldable pub add_entry : List TrustedNet → Bytes → List TrustedNet
  add_entry nets e =
      if leb 64 (length e)
      then nets
      else elim (parse_cidr e) [ none ↦ nets | some n ↦ nets ++ n ∷ [] ]

  -- The loop of `rate_limit_set_trusted_proxies`, with a round for each byte.
  unfoldable pub trusted_loop : ℕ → List TrustedNet → Bytes → List TrustedNet
  trusted_loop zero nets p = nets
  trusted_loop (suc fuel) nets p =
      if leb rate_trusted_max (length nets) then nets else elim (skip_separators p) [
        | [] ↦ nets
        | c ∷ cs ↦ let r = next_entry (c ∷ cs) in trusted_loop fuel (add_entry nets r.0) r.1
      ]

  -- `rate_limit_set_trusted_proxies`; NULL is `none`.
  unfoldable pub set_trusted_proxies : Option Bytes → List TrustedNet
  set_trusted_proxies none = []
  set_trusted_proxies (some csv) = trusted_loop (suc (length csv)) [] csv

abbrev pub same_family : Family → Family → Bool
same_family inet inet = true
same_family inet6 inet6 = true
same_family _ _ = false

-- The inner loop of `rate_limit_is_trusted`.
unfoldable pub masked_equal : Bytes → Bytes → Bytes → Bool
masked_equal (b ∷ bs) (m ∷ ms) (a ∷ rest) = bit_and b m == a && masked_equal bs ms rest
masked_equal _ _ _ = true

unfoldable pub any_net : List TrustedNet → Family → Bytes → Bool
any_net [] family bytes = false
any_net (n ∷ nets) family bytes =
    same_family n.family family && masked_equal bytes n.mask n.addr || any_net nets family bytes

-- `rate_limit_is_trusted`.
unfoldable pub is_trusted : List TrustedNet → Peer → Bool
is_trusted nets absent = false
is_trusted nets other = false
is_trusted nets (address family bytes) = any_net nets family bytes
