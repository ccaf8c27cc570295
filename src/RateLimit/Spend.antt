-- ===== src/RateLimit/Spend.antt =====
-- One bucket: `bucket_spend` of src/security/ratelimit.c.
use native.Mathlib.Nat.{add-mul, mul-le-mul_right}
use agent_httpd.Base.{
  ℕ, ◌+◌, ◌-◌, ◌*◌, ◌^◌, ◌≤◌, min, Bool, true, false, ◌&&◌, none, then_branch, some, ltb, leb,
  if◌then◌else◌, ◌≡◌, inl, inr, refl, ap, subst, ◌∙◌, arith, Bool-cases, Option-cases, eq_of_some,
}
use agent_httpd.RateLimit.{Bucket, elapsed, gain, loss, is_int, refill, take_token, bucket_spend}

abbrev pub cost : Bool → ℕ
cost true = 1
cost false = 0

-- A bucket behind one or several requests, with what they were granted: the tokens given out and left
-- are at most those that were there and those the elapsed seconds brought.
pub record Paid (rps last : ℕ) (b b' : Bucket) (granted : ℕ) : Type 0 where
  pub owner : b'.ip ≡ b.ip
  pub stays : b'.used ≡ b.used
  pub later : b.ts ≤ b'.ts
  pub early : b'.ts ≤ last
  pub full : b'.tokens ≤ rps
  pub balance : granted + b'.tokens ≤ b.tokens + (b'.ts - b.ts) * rps

record Refilled (rps last : ℕ) (b b' : Bucket) : Type 0 where
  owner : b'.ip ≡ b.ip
  stays : b'.used ≡ b.used
  later : b.ts ≤ b'.ts
  early : b'.ts ≤ last
  full : b'.tokens ≤ rps
  balance : b'.tokens ≤ b.tokens + (b'.ts - b.ts) * rps

if_some : (x : Bool) (c b : Bucket) → (if x then some c else none) ≡ some b → (c ≡ b) × (x ≡ true)
if_some true c b e = (eq_of_some e, refl)
if_some false c b e = absurd (cc)

-- No more is added than the seconds bring.
gain_le : (rps now ts : ℕ) → gain rps (elapsed now ts) ≤ (now - ts) * rps
gain_le rps now ts = elim (Bool-cases (ltb (elapsed now ts) (2 ^ 31))) [
  | inl e ↦
      let l : elapsed now ts ≤ now - ts = omega arith in
      rw (e, if◌then◌else◌) (mul-le-mul_right rps l)
  | inr e ↦ rw (e, if◌then◌else◌) (omega arith)
]

refill-Refilled :
    (rps last now : ℕ) (b b' : Bucket)
    → now ≤ last
    → b.ts ≤ last
    → b.tokens ≤ rps
    → refill rps now b ≡ some b'
    → Refilled rps last b b'
unfolding refill
refill-Refilled rps last now b b' p q h e = elim (Bool-cases (ltb b.ts now)) [
  | inr now' ↦
      let w : b ≡ b' = eq_of_some (ground (arith, now', e)) in
      subst (λ x. Refilled rps last b x) w
        (record {
          owner = refl;
          stays = refl;
          later = omega arith;
          early = q;
          full = h;
          balance = omega arith;
        })
  | inl late ↦
      let s = elapsed now b.ts in
      let up = b.tokens + gain rps s in
      let down = b.debt + loss rps s in
      let c : Bucket = record b { tokens = min (up - down) rps; debt = down - up; ts = now } in
      let fits = is_int (gain rps s) (loss rps s) && is_int up down in
      let (w, _) = if_some fits c b' (then_branch _ late e) in
      subst (λ x. Refilled rps last b x) w
        (record {
          owner = refl;
          stays = refl;
          later = ground arith;
          early = p;
          full = omega arith;
          balance = omega (arith, gain_le rps now b.ts);
        })
]

take_token-Paid :
    (rps last : ℕ) (b b' : Bucket)
    → Refilled rps last b b'
    → Paid rps last b (take_token b').1 (cost (take_token b').0)
unfolding take_token
take_token-Paid rps last b b' r = elim (Bool-cases (leb 1 b'.tokens)) [
  | inl some_left ↦
      let one : 1 ≤ b'.tokens = ground arith in
      rw (some_left, if◌then◌else◌)
        (record {
          owner = r.owner;
          stays = r.stays;
          later = r.later;
          early = r.early;
          full = omega (arith, r.full);
          balance = omega (arith, r.balance, one);
        })
  | inr empty ↦
      rw (empty, if◌then◌else◌)
        (record {
          owner = r.owner;
          stays = r.stays;
          later = r.later;
          early = r.early;
          full = r.full;
          balance = omega (arith, r.balance);
        })
]

-- A spend, whatever it answers, balances.
pub bucket_spend-Paid :
    (rps last now : ℕ) (b b' : Bucket) (ok : Bool)
    → now ≤ last
    → b.ts ≤ last
    → b.tokens ≤ rps
    → bucket_spend rps now b ≡ some (ok, b')
    → Paid rps last b b' (cost ok)
unfolding bucket_spend
bucket_spend-Paid rps last now b b' ok p q h e = elim (Option-cases (refill rps now b)) [
  | inl n ↦ absurd (ground (arith, e, n))
  | inr (m, f) ↦
      let w : take_token m ≡ (ok, b') = eq_of_some (ground (arith, e, f)) in
      subst (λ r. Paid rps last b r.1 (cost r.0)) w
        (take_token-Paid rps last b m (refill-Refilled rps last now b m p q h f))
]

pub Paid-nothing : (rps last : ℕ) (b : Bucket) → b.ts ≤ last → b.tokens ≤ rps → Paid rps last b b 0
Paid-nothing rps last b q h = record {
  owner = refl;
  stays = refl;
  later = omega arith;
  early = q;
  full = h;
  balance = omega arith;
}

pub Paid-join :
    (rps last : ℕ) (a b c : Bucket) (m n : ℕ)
    → Paid rps last a b m
    → Paid rps last b c n
    → Paid rps last a c (m + n)
Paid-join rps last a b c m n p q =
    let t : (c.ts - a.ts) * rps ≡ (b.ts - a.ts) * rps + (c.ts - b.ts) * rps =
      ap (λ (x : ℕ). x * rps) (omega (arith, p.later, q.later))
      ∙ add-mul (b.ts - a.ts) (c.ts - b.ts) rps in
    record {
      owner = q.owner ∙ p.owner;
      stays = q.stays ∙ p.stays;
      later = omega (arith, p.later, q.later);
      early = q.early;
      full = q.full;
      balance = omega (arith, p.balance, q.balance, t);
    }

pub Paid-le :
    (rps last : ℕ) (b b' : Bucket) (m n : ℕ) → n ≤ m → Paid rps last b b' m → Paid rps last b b' n
Paid-le rps last b b' m n h p = record {
  owner = p.owner;
  stays = p.stays;
  later = p.later;
  early = p.early;
  full = p.full;
  balance = omega (arith, p.balance, h);
}
