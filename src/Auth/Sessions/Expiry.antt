-- ===== src/Auth/Sessions/Expiry.antt =====
-- The time of expiry in a session, src/security/auth.c: `%ld` and `atol`.
use agent_httpd.Base.{
  ℕ, zero, suc, ◌+◌, ◌-◌, ◌*◌, ◌/◌, ◌%◌, ◌≤◌, ◌<◌, true, false, some, [], ◌∷◌, ◌++◌, length, ltb,
  if◌then◌else◌, ◌&&◌, Bytes, All, ◌≡◌, inl, inr, refl, sym, ap, ◌∙◌, arith, Bool-cases, and_left,
  and_right, length-append, append-nil,
}
use agent_httpd.Range.{is_decimal, strtoll}
use agent_httpd.Range.Closed.{value, all_decimal, Numeral, strtoll-Numeral}
use agent_httpd.Response.{decimal, decimal_loop}
use agent_httpd.Auth.Sessions.Words.{IsPlain, IsWord}

value_last : (v : ℕ) (s : Bytes) (d : ℕ) → value v (s ++ (d ∷ [])) ≡ value v s * 10 + (d - b'0')
value_last v [] d = refl
value_last v (c ∷ s) d = value_last (v * 10 + (c - b'0')) s d

all_decimal-last :
    (s : Bytes) (d : ℕ)
    → all_decimal s ≡ true
    → is_decimal d ≡ true
    → all_decimal (s ++ (d ∷ [])) ≡ true
all_decimal-last [] d h k = rw (k) refl
all_decimal-last (c ∷ s) d h k =
    let a = and_left (is_decimal c) (all_decimal s) h in
    let b = all_decimal-last s d (and_right (is_decimal c) (all_decimal s) h) k in
    ap (λ t. is_decimal c && t) b ∙ ap (λ t. t && true) a

abbrev power : ℕ → ℕ
power zero = 1
power (suc k) = 10 * power k

-- What the digits of a number are.
record IsSpelled (k v : ℕ) (s : Bytes) : Type 0 where
  digits : all_decimal s ≡ true
  spells : value 0 s ≡ v
  short : length s ≤ k

decimal_loop-IsSpelled : (k v : ℕ) → v < power k → IsSpelled k v (decimal_loop k v)
unfolding decimal_loop
decimal_loop-IsSpelled zero v h = record {
  digits = refl;
  spells = omega (arith, h);
  short = omega arith;
}
decimal_loop-IsSpelled (suc k) v h = elim (Bool-cases (ltb v 10)) [
  | inl e ↦
      let d : is_decimal (b'0' + v) ≡ true = ground (arith, e) in
      let s : 0 * 10 + (b'0' + v - b'0') ≡ v = omega arith in
      rw (decimal_loop, e, if◌then◌else◌)
        (record { digits = ap (λ t. t && true) d; spells = s; short = omega arith })
  | inr e ↦
      let front = decimal_loop-IsSpelled k (v / 10) (omega (arith, h)) in
      let d : is_decimal (b'0' + v % 10) ≡ true = ground (arith) in
      let t = decimal_loop k (v / 10) in
      let s : value 0 (t ++ ((b'0' + v % 10) ∷ [])) ≡ v =
        omega (arith, value_last 0 t (b'0' + v % 10), front.spells) in
      rw (decimal_loop, e, if◌then◌else◌)
        (record {
          digits = all_decimal-last t (b'0' + v % 10) front.digits d;
          spells = s;
          short = omega (arith, front.short, length-append t ((b'0' + v % 10) ∷ []));
        })
]

decimal_loop-filled : (k v : ℕ) → 1 ≤ length (decimal_loop (suc k) v)
unfolding decimal_loop
decimal_loop-filled k v = elim (Bool-cases (ltb v 10)) [
  | inl e ↦ rw (decimal_loop, e, if◌then◌else◌) (omega arith)
  | inr e ↦
      let t = decimal_loop k (v / 10) in
      rw (decimal_loop, e, if◌then◌else◌) (omega (arith, length-append t ((b'0' + v % 10) ∷ [])))
]

digits_plain : (s : Bytes) → all_decimal s ≡ true → All IsPlain s
digits_plain [] h = tt
digits_plain (c ∷ s) h =
    let a : is_decimal c ≡ true = and_left (is_decimal c) (all_decimal s) h in
    (
      (ground (arith, a), (λ z. absurd (ground (arith, a, z)))),
      digits_plain s (and_right (is_decimal c) (all_decimal s) h),
    )

pub decimal-Numeral : (v : ℕ) → v < 10000000000 → Numeral (decimal v) v
decimal-Numeral v h =
    let d = decimal_loop-IsSpelled 10 v h in
    record {
      filled = (λ q. absurd (omega (arith, decimal_loop-filled 9 v, ap length q)));
      digits = d.digits;
      spells = d.spells;
      short = omega (arith, h);
    }

pub strtoll-decimal : (v : ℕ) → v < 10000000000 → strtoll (decimal v) ≡ some (false, v, [])
strtoll-decimal v h =
    ap strtoll (sym (append-nil (decimal v)))
    ∙ strtoll-Numeral (decimal v) [] v (decimal-Numeral v h) refl

pub decimal-IsWord : (v : ℕ) → v < 10000000000 → IsWord 31 (decimal v)
decimal-IsWord v h =
    let d = decimal_loop-IsSpelled 10 v h in
    record {
      filled = ground (arith, decimal_loop-filled 9 v);
      short = omega (arith, d.short);
      plain = digits_plain (decimal v) d.digits;
    }

pub length-decimal : (v : ℕ) → v < 10000000000 → length (decimal v) ≤ 10
length-decimal v h = (decimal_loop-IsSpelled 10 v h).short
