-- ===== src/RateLimit/Budget.antt =====
-- What one address is granted over a run of requests: `rate_limit_allow` of src/security/ratelimit.c.
use native.Mathlib.Nat.{mul-le-mul_right}
use agent_httpd.Base.{
  ℕ, ◌+◌, ◌-◌, ◌*◌, ◌≤◌, ◌<◌, Bool, true, false, Option, some, List, [], ◌∷◌, All, ◌==◌,
  if◌then◌else◌, and_then, and_then_inv, ◌≡◌, ◌≢◌, inl, inr, sym, ap, subst, arith, eq_of_some,
}
use agent_httpd.RateLimit.{Table, allow}
use agent_httpd.RateLimit.Spend.{cost, Paid, Paid-nothing, Paid-join, Paid-le}
use agent_httpd.RateLimit.Slots.{at, serving, serving_stable}
use agent_httpd.RateLimit.Step.{
  IsTable, Step, allow-Step, slot-cases, Step-Keeps, still_used, Step-IsTable,
}

pub record Request : Type 0 where
  pub ip : ℕ
  pub now : ℕ

abbrev share : ℕ → ℕ → Bool → ℕ
share x ip ok = if ip == x then cost ok else 0

share_le : (x ip : ℕ) (ok : Bool) → share x ip ok ≤ cost ok
share_le x ip true = ground arith
share_le x ip false = ground arith

share_ne : (x ip : ℕ) (ok : Bool) → ip ≢ x → share x ip ok ≡ 0
share_ne x ip ok n = ground arith

-- What one address is granted in a run of requests, and the table behind the run.
unfoldable pub granted : ℕ → ℕ → List Request → Table → Option (ℕ × Table)
granted rps x [] t = some (0, t)
granted rps x (r ∷ rs) t =
    and_then (allow rps r.now r.ip t)
      (λ s. and_then (granted rps x rs s.1) (λ g. some (share x r.ip s.0 + g.0, g.1)))

-- One request, for the slot that serves `x`: paid for, if it is `x`'s own; else at most spent from.
Step-Paid :
    (rps last ip x : ℕ) (t t' : Table) (ok : Bool)
    → IsTable rps last t
    → Step rps last ip t t' ok
    → (at t (serving x t)).used ≡ true
    → Paid rps last (at t (serving x t)) (at t' (serving x t)) (share x ip ok)
Step-Paid rps last ip x t t' ok v s u = elim (slot-cases v s (serving x t)) [
  | inl (q, new) ↦
      let paid : Paid rps last (at t (serving x t)) s.bucket (cost ok) =
        subst (λ k. (at t k).used ≡ true → Paid rps last (at t k) s.bucket (cost ok)) q s.spent u in
      subst (λ b. Paid rps last (at t (serving x t)) b (share x ip ok)) (sym new)
        (Paid-le rps last (at t (serving x t)) s.bucket (cost ok) (share x ip ok) (share_le x ip ok)
          paid)
  | inr (n, same) ↦
      let k = serving x t in
      let none_paid = Paid-nothing rps last (at t k) (v.early k) (v.full k) in
      subst (λ b. Paid rps last (at t k) b (share x ip ok)) (sym same)
        (subst (λ m. Paid rps last (at t k) (at t k) m)
          (sym (share_ne x ip ok (λ e. n (ap (λ i. serving i t) e)))) none_paid)
]

-- The run, for an address that has a slot.
run-Paid :
    (rps last x : ℕ) (rs : List Request) (t t' : Table) (n : ℕ)
    → IsTable rps last t
    → All (λ r. r.now ≤ last) rs
    → 0 < rps
    → (at t (serving x t)).used ≡ true
    → granted rps x rs t ≡ some (n, t')
    → Paid rps last (at t (serving x t)) (at t' (serving x t)) n
unfolding granted
run-Paid rps last x [] t t' n v a pos u e =
    let q : (0, t) ≡ (n, t') = eq_of_some e in
    let k = serving x t in
    subst (λ r. Paid rps last (at t k) (at r.1 k) r.0) q
      (Paid-nothing rps last (at t k) (v.early k) (v.full k))
run-Paid rps last x (r ∷ rs) t t' n v (p, a) pos u e =
    let ((ok, m), f, e') =
      and_then_inv (allow rps r.now r.ip t)
        (λ s. and_then (granted rps x rs s.1) (λ g. some (share x r.ip s.0 + g.0, g.1))) (n, t')
        e in
    let ((n', t''), g, e'') =
      and_then_inv (granted rps x rs m) (λ g. some (share x r.ip ok + g.0, g.1)) (n, t') e' in
    let s = allow-Step rps last r.now r.ip t m ok v p pos f in
    let w = serving_stable x t m (Step-Keeps v s) u in
    let others = run-Paid rps last x rs m t'' n' (Step-IsTable v s) a pos (still_used v s x u) g in
    let others' = subst (λ j. Paid rps last (at m j) (at t'' j) n') w others in
    let k = serving x t in
    subst (λ z. Paid rps last (at t k) (at z.1 k) z.0) (eq_of_some e'')
      (Paid-join rps last (at t k) (at m k) (at t'' k) (share x r.ip ok) n'
        (Step-Paid rps last r.ip x t m ok v s u) others')

-- The rate. For an address that has a slot, and any run of requests, its own and others', none later
-- than the second `last`: the requests of the address that were allowed are at most `rps` and `rps`
-- more for each second from the last refill of its bucket to `last`.
pub granted_rate :
    (rps last x : ℕ) (rs : List Request) (t t' : Table) (n : ℕ)
    → IsTable rps last t
    → All (λ r. r.now ≤ last) rs
    → 0 < rps
    → (at t (serving x t)).used ≡ true
    → granted rps x rs t ≡ some (n, t')
    → n ≤ rps + (last - (at t (serving x t)).ts) * rps
granted_rate rps last x rs t t' n v a pos u e =
    let k = serving x t in
    let p = run-Paid rps last x rs t t' n v a pos u e in
    let since : (at t' k).ts - (at t k).ts ≤ last - (at t k).ts = omega (arith, p.early) in
    omega (arith, p.balance, v.full k, mul-le-mul_right rps since)
