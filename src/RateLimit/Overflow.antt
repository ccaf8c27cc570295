-- ===== src/RateLimit/Overflow.antt =====
-- The refill that does not fit an `int`: `bucket_spend` of src/security/ratelimit.c.
use agent_httpd.Base.{
  ℕ, ◌+◌, ◌-◌, ◌*◌, ◌^◌, ◌≤◌, ◌<◌, ◌%◌, ◌&&◌, ◌⊎◌, ltb, if◌then◌else◌, false, Bool, true, Option,
  none, some, ◌≡◌, ◌↔◌, inl, inr, refl, sym, ap, ◌∙◌, arith, Bool-cases, Option-cases,
}
use agent_httpd.RateLimit.{
  Bucket, Table, elapsed, gain, loss, is_int, refill, bucket_spend, store, allow,
}
use agent_httpd.RateLimit.Slots.{at, serving, serve, serve_used, serve_free, allow-serve}

-- `up - down` is no int.
abbrev pub NotInt : ℕ → ℕ → Type 0
NotInt up down = (2 ^ 31 + down ≤ up) ⊎ (2 ^ 31 + up < down)

-- `up - down`, or its sum with the tokens, is no int.
abbrev pub NoRoom : ℕ → ℕ → Bucket → Type 0
NoRoom up down b = NotInt up down ⊎ NotInt (b.tokens + up) (b.debt + down)

-- The product of the seconds and `rps`, or its sum with the tokens, is no int; as an int the seconds are
-- `seconds`, or `seconds - 2 ^ 32` from 2 ^ 31 on.
abbrev pub Outside : ℕ → ℕ → Bucket → Type 0
Outside rps seconds b =
    ((seconds < 2 ^ 31) × NoRoom (seconds * rps) 0 b)
    ⊎ ((2 ^ 31 ≤ seconds) × NoRoom 0 ((2 ^ 32 - seconds) * rps) b)

-- Seconds have passed, and what the low 32 bits of their number bring does not fit.
pub record Overflows (rps now : ℕ) (b : Bucket) : Type 0 where
  pub passed : b.ts < now
  pub large : Outside rps ((now - b.ts) % 2 ^ 32) b

is_int-false : (up down : ℕ) → is_int up down ≡ false → NotInt up down
is_int-false up down h = ground (arith, h)

NotInt-is_int : (up down : ℕ) → NotInt up down → is_int up down ≡ false
NotInt-is_int up down (inl h) = ground (arith, h)
NotInt-is_int up down (inr h) = ground (arith, h)

one_false : (a b : Bool) → (a && b) ≡ false → (a ≡ false) ⊎ (b ≡ false)
one_false true b h = inr h
one_false false b h = inl refl

false_left : (a b : Bool) → a ≡ false → (a && b) ≡ false
false_left a b h = rw (h) refl

false_right : (a b : Bool) → b ≡ false → (a && b) ≡ false
false_right true b h = h
false_right false b h = refl

-- The test of `refill`.
abbrev fits : ℕ → ℕ → Bucket → Bool
fits rps e b =
    is_int (gain rps e) (loss rps e) && is_int (b.tokens + gain rps e) (b.debt + loss rps e)

abbrev both_int : ℕ → ℕ → ℕ → ℕ → Bool
both_int g l t d = is_int g l && is_int (t + g) (d + l)

both_int-false : (g l t d : ℕ) → both_int g l t d ≡ false → NotInt g l ⊎ NotInt (t + g) (d + l)
both_int-false g l t d h = elim (one_false (is_int g l) (is_int (t + g) (d + l)) h) [
  | inl a ↦ inl (is_int-false g l a)
  | inr a ↦ inr (is_int-false (t + g) (d + l) a)
]

NotInt-both_int : (g l t d : ℕ) → NotInt g l ⊎ NotInt (t + g) (d + l) → both_int g l t d ≡ false
NotInt-both_int g l t d (inl a) =
    false_left (is_int g l) (is_int (t + g) (d + l)) (NotInt-is_int g l a)
NotInt-both_int g l t d (inr a) =
    false_right (is_int g l) (is_int (t + g) (d + l)) (NotInt-is_int (t + g) (d + l) a)

fits_small :
    (rps e : ℕ) (b : Bucket)
    → ltb e (2 ^ 31) ≡ true
    → fits rps e b ≡ both_int (e * rps) 0 b.tokens b.debt
fits_small rps e b k = rw (k, if◌then◌else◌) refl

fits_large :
    (rps e : ℕ) (b : Bucket)
    → ltb e (2 ^ 31) ≡ false
    → fits rps e b ≡ both_int 0 ((2 ^ 32 - e) * rps) b.tokens b.debt
fits_large rps e b k = rw (k, if◌then◌else◌) refl

fits-Outside : (rps e : ℕ) (b : Bucket) → fits rps e b ≡ false → Outside rps e b
fits-Outside rps e b h = elim (Bool-cases (ltb e (2 ^ 31))) [
  | inl k ↦ inl (
    ground (arith, k),
    both_int-false (e * rps) 0 b.tokens b.debt (sym (fits_small rps e b k) ∙ h),
  )
  | inr k ↦ inr (
    ground (arith, k),
    both_int-false 0 ((2 ^ 32 - e) * rps) b.tokens b.debt (sym (fits_large rps e b k) ∙ h),
  )
]

Outside-fits : (rps e : ℕ) (b : Bucket) → Outside rps e b → fits rps e b ≡ false
Outside-fits rps e b (inl (k, h)) =
    fits_small rps e b (ground (arith, k)) ∙ NotInt-both_int (e * rps) 0 b.tokens b.debt h
Outside-fits rps e b (inr (k, h)) =
    fits_large rps e b (ground (arith, k))
    ∙ NotInt-both_int 0 ((2 ^ 32 - e) * rps) b.tokens b.debt h

abbrev refused : Bool → Bool → Bucket → Bucket → Option Bucket
refused a f c b = if a then (if f then some c else none) else some b

no_bucket : (a f : Bool) (c b : Bucket) → refused a f c b ≡ none → (a ≡ true) × (f ≡ false)
no_bucket true true c b h = absurd (cc)
no_bucket true false c b h = (refl, refl)
no_bucket false f c b h = absurd (cc)

refill-none : (rps now : ℕ) (b : Bucket) → refill rps now b ≡ none → Overflows rps now b
unfolding refill
refill-none rps now b e =
    let (late, out) = no_bucket (ltb b.ts now) (fits rps (elapsed now b.ts) b) _ b e in
    record { passed = ground (arith, late); large = fits-Outside rps (elapsed now b.ts) b out }

refill_overflow : (rps now : ℕ) (b : Bucket) → Overflows rps now b → refill rps now b ≡ none
unfolding refill
refill_overflow rps now b o =
    let late : ltb b.ts now ≡ true = ground (arith, o.passed) in
    rw (late, Outside-fits rps (elapsed now b.ts) b o.large, if◌then◌else◌) refl

spend-none : (rps now : ℕ) (b : Bucket) → bucket_spend rps now b ≡ none → refill rps now b ≡ none
unfolding bucket_spend
spend-none rps now b e = elim (Option-cases (refill rps now b)) [
  | inl n ↦ n
  | inr (m, f) ↦ absurd (ground (arith, e, f))
]

spend-overflow :
    (rps now : ℕ) (b : Bucket) → refill rps now b ≡ none → bucket_spend rps now b ≡ none
unfolding bucket_spend
spend-overflow rps now b e = ground (arith, e)

store-none : (t : Table) (k : ℕ) (o : Option (Bool × Bucket)) → store t k o ≡ none → o ≡ none
store-none t k none e = refl
store-none t k (some r) e = absurd (cc)

-- When a request is undefined. For every table, address and time: `rate_limit_allow` evaluates a signed
-- expression that does not fit an `int` exactly if the slot that serves the address is in use, was
-- refilled in an earlier second, and the seconds since then, cut to a signed number of 32 bits, give, by
-- `rps`, a product that is no int, or one whose sum with the tokens is none.
pub allow-none_iff :
    (rps now ip : ℕ) (t : Table)
    → (allow rps now ip t ≡ none)
      ↔ (((at t (serving ip t)).used ≡ true) × Overflows rps now (at t (serving ip t)))
allow-none_iff rps now ip t =
    let k = serving ip t in
    let to : allow rps now ip t ≡ none → ((at t k).used ≡ true) × Overflows rps now (at t k) = λ e.
      let n = store-none t k (serve rps now ip (at t k)) (sym (allow-serve rps now ip t) ∙ e) in
      elim (Bool-cases (at t k).used) [
        | inr free ↦ absurd (cc (n, serve_free rps now ip (at t k) free))
        | inl used ↦ (
          used,
          refill-none rps now (at t k)
              (spend-none rps now (at t k) (sym (serve_used rps now ip (at t k) used) ∙ n)),
        )
      ] in
    let from : ((at t k).used ≡ true) × Overflows rps now (at t k) → allow rps now ip t ≡ none =
      λ h.
        allow-serve rps now ip t
        ∙ ap (λ o. store t k o)
            (serve_used rps now ip (at t k) h.0
              ∙ spend-overflow rps now (at t k) (refill_overflow rps now (at t k) h.1)) in
    (to, from)
