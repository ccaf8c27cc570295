-- ===== src/RateLimit/Trusted/Bits.antt =====
-- One byte under a prefix mask, as `build_mask` of src/security/ratelimit.c fills it: checked on all
-- bytes and all masks.
use native.Mathlib.Nat.{mul-div_cancel}
use Prim.Native.Nat.{bit_and}
use agent_httpd.Base.{
  ℕ, zero, suc, ◌-◌, ◌*◌, ◌/◌, ◌%◌, ◌^◌, ◌<◌, Bool, true, false, ◌&&◌, ltb, ltb→lt, ◌==◌, ◌≡◌, inl,
  inr, refl, sym, ap, ◌∙◌, arith, Bool-cases,
}

all_below : ℕ → (ℕ → Bool) → Bool
all_below zero f = true
all_below (suc n) f = f n && all_below n f

and_left : (a b : Bool) → (a && b) ≡ true → a ≡ true
and_left true b e = refl
and_left false b e = e

and_right : (a b : Bool) → (a && b) ≡ true → b ≡ true
and_right true b e = e
and_right false b e = absurd (cc)

all_below_at : (n : ℕ) (f : ℕ → Bool) (i : ℕ) → all_below n f ≡ true → i < n → f i ≡ true
unfolding all_below
all_below_at zero f i e h = absurd (omega arith)
all_below_at (suc n) f i e h = elim (Bool-cases (i == n)) [
  | inl q ↦ let r : n ≡ i = ground arith in ap f (sym r) ∙ and_left (f n) (all_below n f) e
  | inr q ↦ all_below_at n f i (and_right (f n) (all_below n f) e) (ground arith)
]

abbrev pub mask_of : ℕ → ℕ
mask_of p = 0xff * 2 ^ (8 - p) % 256

abbrev keeps_top : ℕ → ℕ → Bool
keeps_top p b = bit_and b (mask_of p) == b / 2 ^ (8 - p) * 2 ^ (8 - p)

keeps_top_all : all_below 9 (λ p. all_below 256 (keeps_top p)) ≡ true
unfolding all_below
keeps_top_all = refl

-- The mask keeps the top bits of a byte.
==_to : (a b : ℕ) → (a == b) ≡ true → a ≡ b
==_to a b e = ground arith

bit_and-mask_of :
    (p b : ℕ) → p < 9 → b < 256 → bit_and b (mask_of p) ≡ b / 2 ^ (8 - p) * 2 ^ (8 - p)
bit_and-mask_of p b h k =
    let e =
      all_below_at 256 (keeps_top p) b
        (all_below_at 9 (λ p. all_below 256 (keeps_top p)) p keeps_top_all h) k in
    ==_to (bit_and b (mask_of p)) (b / 2 ^ (8 - p) * 2 ^ (8 - p)) e

powers_pos : all_below 9 (λ q. ltb 0 (2 ^ (8 - q))) ≡ true
unfolding all_below
powers_pos = refl

power_pos : (p : ℕ) → p < 9 → 0 < 2 ^ (8 - p)
power_pos p h = ltb→lt 0 (2 ^ (8 - p)) (all_below_at 9 (λ q. ltb 0 (2 ^ (8 - q))) p powers_pos h)

==_cong : (x y u v : ℕ) → (x ≡ y → u ≡ v) → (u ≡ v → x ≡ y) → (u == v) ≡ (x == y)
==_cong x y u v f g = elim (Bool-cases (x == y)) [
  | inl e ↦ let q = f (==_to x y e) in ground arith
  | inr e ↦ elim (Bool-cases (u == v)) [
    | inl d ↦ let q = g (==_to u v d) in ground arith
    | inr d ↦ ground arith
  ]
]

pub byte_match :
    (p b a : ℕ)
    → p < 9
    → b < 256
    → a < 256
    → (bit_and b (mask_of p) == bit_and a (mask_of p)) ≡ (b / 2 ^ (8 - p) == a / 2 ^ (8 - p))
byte_match p b a h k l =
    let x = bit_and-mask_of p b h k in
    let y = bit_and-mask_of p a h l in
    let to : b / 2 ^ (8 - p) ≡ a / 2 ^ (8 - p) → bit_and b (mask_of p) ≡ bit_and a (mask_of p) =
      λ e. x ∙ ap (λ (z : ℕ). z * 2 ^ (8 - p)) e ∙ sym y in
    let from : bit_and b (mask_of p) ≡ bit_and a (mask_of p) → b / 2 ^ (8 - p) ≡ a / 2 ^ (8 - p) =
      λ e.
        sym (mul-div_cancel (b / 2 ^ (8 - p)) (power_pos p h))
        ∙ ap (λ (z : ℕ). z / 2 ^ (8 - p)) (sym x ∙ e ∙ y)
        ∙ mul-div_cancel (a / 2 ^ (8 - p)) (power_pos p h) in
    ==_cong (b / 2 ^ (8 - p)) (a / 2 ^ (8 - p)) (bit_and b (mask_of p)) (bit_and a (mask_of p)) to
      from

pub byte_match_all : (b a : ℕ) → b < 256 → a < 256 → (bit_and b 0xff == bit_and a 0xff) ≡ (b == a)
byte_match_all b a h k =
    let e = byte_match 8 b a (omega arith) h k in
    let x : b / 1 ≡ b = omega arith in
    let y : a / 1 ≡ a = omega arith in e ∙ ap (λ z. z == a / 1) x ∙ ap (λ z. b == z) y
