-- ===== src/Auth/Sessions/Presented.antt =====
-- `presented` of src/security/auth.c, on tokens of 32 bytes.
use agent_httpd.Base.{
  ℕ, zero, suc, ◌≤◌, ◌<◌, ◌%◌, ◌^◌, Bool, true, false, ◌&&◌, ◌||◌, List, [], ◌∷◌, length, take,
  ◌==◌, if◌then◌else◌, Bytes, All, same, same-eq, ◌≡◌, inl, inr, refl, sym, ap, ◌∙◌, arith,
  Bool-cases,
}
use agent_httpd.Auth.{ct_loop, ct_eq}
use agent_httpd.Auth.Sessions.{presented}
use agent_httpd.Auth.Sessions.Cookies.{Cookie, tokens_of}

-- Whether a text is one of a list.
abbrev pub one_of : Bytes → List Bytes → Bool
one_of t [] = false
one_of t (x ∷ xs) = same t x || one_of t xs

ct_loop-false : (a b : Bytes) → ct_loop false a b ≡ false
unfolding ct_loop
ct_loop-false [] b = refl
ct_loop-false (x ∷ a) [] = refl
ct_loop-false (x ∷ a) (y ∷ b) = ct_loop-false a b

ct_loop-same : (a b : Bytes) → length a ≡ length b → ct_loop true a b ≡ same a b
unfolding ct_loop same
ct_loop-same [] [] h = refl
ct_loop-same [] (y ∷ b) h = absurd (omega (arith, h))
ct_loop-same (x ∷ a) [] h = absurd (omega (arith, h))
ct_loop-same (x ∷ a) (y ∷ b) h = elim (Bool-cases (x == y)) [
  | inl e ↦ rw (ct_loop, same, e) (ct_loop-same a b (omega (arith, h)))
  | inr e ↦ rw (ct_loop, same, e) (ct_loop-false a b)
]

not_same : (a b : Bytes) → (length a == length b) ≡ false → same a b ≡ false
not_same a b h = elim (Bool-cases (same a b)) [
  | inr e ↦ e
  | inl e ↦ absurd (ground (arith, h, ap length (same-eq a b e)))
]

-- On texts shorter than 2 ^ 32 bytes `ct_eq` is equality.
ct_eq-same : (a b : Bytes) → length a < 2 ^ 32 → length b < 2 ^ 32 → ct_eq a b ≡ same a b
unfolding ct_eq
ct_eq-same a b h k =
    let m : length a % 2 ^ 32 ≡ length a = omega (arith, h) in
    let n : length b % 2 ^ 32 ≡ length b = omega (arith, k) in
    elim (Bool-cases (length a == length b)) [
      | inl e ↦ rw (m, n, e) (ct_loop-same a b (ground (arith, e)))
      | inr e ↦ rw (m, n, e) (ct_loop-false a b ∙ sym (not_same a b e))
    ]

if_or : (b r : Bool) → (if b then true else r) ≡ (b || r)
if_or true r = refl
if_or false r = refl

abbrev IsToken : Bytes → Type 0
IsToken t = length t ≡ 32

pub presented-one_of :
    (t : Bytes) (ts : List Bytes) → length t ≤ 32 → All IsToken ts → presented t ts ≡ one_of t ts
unfolding presented
presented-one_of t [] h k = refl
presented-one_of t (x ∷ xs) h (k, ks) =
    rw (ct_eq-same t x (omega (arith, h)) (omega (arith, k)), presented-one_of t xs h ks)
      (if_or (same t x) (one_of t xs))

tokens_of-IsToken : (name : Bytes) (cs : List Cookie) → All IsToken (tokens_of name cs)
unfolding tokens_of
tokens_of-IsToken name [] = tt
tokens_of-IsToken name (c ∷ cs) = elim (Bool-cases (same c.0 name && length c.1 == 32)) [
  | inl e ↦ rw (e, if◌then◌else◌) (ground (arith, e), tokens_of-IsToken name cs)
  | inr e ↦ rw (e, if◌then◌else◌) (tokens_of-IsToken name cs)
]

take-IsToken : (n : ℕ) (ts : List Bytes) → All IsToken ts → All IsToken (take n ts)
take-IsToken zero ts h = tt
take-IsToken (suc n) [] h = tt
take-IsToken (suc n) (t ∷ ts) (h, hs) = (h, take-IsToken n ts hs)

-- The tokens that count: the first eight.
abbrev pub carried : Bytes → List Cookie → List Bytes
carried name cs = take 8 (tokens_of name cs)

pub carried-IsToken : (name : Bytes) (cs : List Cookie) → All IsToken (carried name cs)
carried-IsToken name cs = take-IsToken 8 (tokens_of name cs) (tokens_of-IsToken name cs)

-- A token that is one of them has 32 bytes.
pub one_of-length :
    (t : Bytes) (ts : List Bytes) → All IsToken ts → one_of t ts ≡ true → length t ≤ 32
one_of-length t [] h e = absurd (cc)
one_of-length t (x ∷ xs) (h, hs) e = elim (Bool-cases (same t x)) [
  | inl q ↦ omega (arith, h, ap length (same-eq t x q))
  | inr q ↦ one_of-length t xs hs (ground (arith, q, e))
]
