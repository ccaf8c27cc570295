-- ===== src/RateLimit/Trusted/Prefix.antt =====
-- Which prefixes are read: `parse_prefix` of src/security/ratelimit.c.
use agent_httpd.Base.{
  ℕ, ◌+◌, ◌-◌, ◌*◌, ◌≤◌, Bool, true, false, not, ◌&&◌, none, some, [], ◌∷◌, ltb, leb, if◌then◌else◌,
  Bytes, ◌≡◌, inl, inr, refl, arith, Bool-cases,
}
use agent_httpd.RateLimit.Trusted.{is_digit, prefix_loop, parse_prefix}

-- The number that digits spell behind a number.
abbrev pub decimal : ℕ → Bytes → ℕ
decimal v [] = v
decimal v (c ∷ cs) = decimal (v * 10 + (c - b'0')) cs

abbrev pub all_digits : Bytes → Bool
all_digits [] = true
all_digits (c ∷ cs) = is_digit c && all_digits cs

abbrev pub is_empty : Bytes → Bool
is_empty [] = true
is_empty (c ∷ cs) = false

decimal_grows : (v : ℕ) (s : Bytes) → v ≤ decimal v s
decimal_grows v [] = omega arith
decimal_grows v (c ∷ cs) = omega (arith, decimal_grows (v * 10 + (c - b'0')) cs)

prefix_loop-decimal :
    (v : ℕ) (s : Bytes)
    → v ≤ 128
    → prefix_loop v s ≡ (if all_digits s && leb (decimal v s) 128 then some (decimal v s) else none)
unfolding prefix_loop
prefix_loop-decimal v [] h = ground arith
prefix_loop-decimal v (c ∷ cs) h = elim (Bool-cases (is_digit c)) [
  | inr n ↦ ground (arith, n)
  | inl d ↦ elim (Bool-cases (ltb 128 (v * 10 + (c - b'0')))) [
    | inl big ↦ let g = decimal_grows (v * 10 + (c - b'0')) cs in ground (arith, d, big, g)
    | inr small ↦
        let r = prefix_loop-decimal (v * 10 + (c - b'0')) cs (ground arith) in
        ground (arith, d, small, r)
  ]
]

-- Which prefixes are read, for every text: exactly the non-empty decimal numbers up to 128, leading
-- zeros allowed, each as its value; the early exit at 128 loses nothing and lets nothing through.
pub parse_prefix-decimal :
    (s : Bytes)
    → parse_prefix s ≡ (
        if not (is_empty s) && all_digits s && leb (decimal 0 s) 128
        then some (decimal 0 s)
        else none)
unfolding parse_prefix
parse_prefix-decimal [] = refl
parse_prefix-decimal (c ∷ cs) = prefix_loop-decimal 0 (c ∷ cs) (omega arith)
