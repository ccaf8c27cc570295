-- ===== src/RateLimit/Slots.antt =====
-- Which slot serves an address: the probe loop of `rate_limit_allow` in src/security/ratelimit.c,
-- split into the search and the one slot that changes.
use agent_httpd.Base.{
  ℕ, zero, suc, ◌%◌, ◌<◌, Bool, true, false, Option, some, get_or, ◌==◌, if◌then◌else◌, ◌≡◌, ◌≢◌,
  ◌⊎◌, inl, inr, refl, sym, ap, ◌∙◌, arith, Bool-cases,
}
use agent_httpd.RateLimit.{
  Bucket, Table, unclaimed, slot, bucket_spend, claimed, store, probe, allow, mix_ip,
  rate_table_size, rate_max_probes,
}

abbrev pub at : Table → ℕ → Bucket
at table k = get_or table k unclaimed

-- The first slot of the chain that is free or the address's own, or else the base slot.
unfoldable pub search : ℕ → ℕ → Table → ℕ → ℕ → ℕ
search ip base table zero i = base
search ip base table (suc left) i =
    let next = search ip base table left (suc i) in
    if (at table (slot base i)).used
    then (if (at table (slot base i)).ip == ip then slot base i else next)
    else slot base i

abbrev pub serving : ℕ → Table → ℕ
serving ip table = search ip (mix_ip ip % rate_table_size) table rate_max_probes 0

-- One request at one slot.
abbrev pub serve : ℕ → ℕ → ℕ → Bucket → Option (Bool × Bucket)
serve rps now ip b = if b.used then bucket_spend rps now b else some (true, claimed rps now ip)

-- A base slot that is free ends the search at once, so that it is spent only when it is in use.
probe-serve :
    (rps now ip base : ℕ) (table : Table) (left i : ℕ)
    → ((at table base).used ≡ true) ⊎ ((left ≢ 0) × (slot base i ≡ base))
    → probe rps now ip base table left i
      ≡ (let k = search ip base table left i in store table k (serve rps now ip (at table k)))
unfolding probe search
probe-serve rps now ip base table zero i h = elim h [
  | inl u ↦ rw (u, if◌then◌else◌) refl
  | inr (n, _) ↦ absurd (n refl)
]
probe-serve rps now ip base table (suc left) i h = elim (Bool-cases (at table (slot base i)).used) [
  | inr free ↦ rw (free, if◌then◌else◌) (rw (free, if◌then◌else◌) refl)
  | inl taken ↦
      let u : (at table base).used ≡ true = elim h [
        | inl u ↦ u
        | inr (_, q) ↦ ap (λ k. (at table k).used) (sym q) ∙ taken
      ] in
      elim (Bool-cases ((at table (slot base i)).ip == ip)) [
        | inl own ↦ rw (taken, own, if◌then◌else◌) (rw (taken, if◌then◌else◌) refl)
        | inr other ↦
            rw (taken, other, if◌then◌else◌)
              (probe-serve rps now ip base table left (suc i) (inl u))
      ]
]

pub allow-serve :
    (rps now ip : ℕ) (table : Table)
    → allow rps now ip table
      ≡ store table (serving ip table) (serve rps now ip (at table (serving ip table)))
unfolding allow
allow-serve rps now ip table =
    probe-serve rps now ip (mix_ip ip % rate_table_size) table rate_max_probes 0
      (inr (omega arith, omega arith))

pub search_bound :
    (ip base : ℕ) (table : Table) (left i : ℕ)
    → base < rate_table_size
    → search ip base table left i < rate_table_size
unfolding search
search_bound ip base table zero i h = h
search_bound ip base table (suc left) i h = elim (Bool-cases (at table (slot base i)).used) [
  | inr free ↦ rw (free, if◌then◌else◌) (omega arith)
  | inl taken ↦ elim (Bool-cases ((at table (slot base i)).ip == ip)) [
    | inl own ↦ rw (taken, own, if◌then◌else◌) (omega arith)
    | inr other ↦ rw (taken, other, if◌then◌else◌) (search_bound ip base table left (suc i) h)
  ]
]

module _ (ip base : ℕ) (t : Table) (left i : ℕ) where
  search_free : (at t (slot base i)).used ≡ false → search ip base t (suc left) i ≡ slot base i
  unfolding search
  search_free free = rw (free, if◌then◌else◌) refl

  search_other :
      (at t (slot base i)).used ≡ true
      → ((at t (slot base i)).ip == ip) ≡ false
      → search ip base t (suc left) i ≡ search ip base t left (suc i)
  unfolding search
  search_other taken other = rw (taken, other, if◌then◌else◌) refl

-- Every slot in use stays in use, by the same address.
unfoldable pub Keeps : Table → Table → Type 0
Keeps t t' = (k : ℕ) → (at t k).used ≡ true → ((at t' k).used ≡ true) × ((at t' k).ip ≡ (at t k).ip)

search_stable :
    (ip base : ℕ) (t t' : Table) (left i : ℕ)
    → Keeps t t'
    → (at t (search ip base t left i)).used ≡ true
    → search ip base t' left i ≡ search ip base t left i
unfolding search Keeps
search_stable ip base t t' zero i h u = refl
search_stable ip base t t' (suc left) i h u = elim (Bool-cases (at t (slot base i)).used) [
  | inr free ↦ absurd (cc (free, u, ap (λ k. (at t k).used) (search_free ip base t left i free)))
  | inl taken ↦
      let (v, o) = h (slot base i) taken in
      elim (Bool-cases ((at t (slot base i)).ip == ip)) [
        | inl own ↦
            let own' : ((at t' (slot base i)).ip == ip) ≡ true = ap (λ x. x == ip) o ∙ own in
            rw (v, own', taken, own, if◌then◌else◌) refl
        | inr other ↦
            let other' : ((at t' (slot base i)).ip == ip) ≡ false = ap (λ x. x == ip) o ∙ other in
            let p = search_other ip base t left i taken other in
            search_other ip base t' left i v other'
            ∙ search_stable ip base t t' left (suc i) h (ap (λ k. (at t k).used) (sym p) ∙ u)
            ∙ sym p
      ]
]

pub serving_stable :
    (ip : ℕ) (t t' : Table)
    → Keeps t t'
    → (at t (serving ip t)).used ≡ true
    → serving ip t' ≡ serving ip t
serving_stable ip t t' h u =
    search_stable ip (mix_ip ip % rate_table_size) t t' rate_max_probes 0 h u

pub serve_used :
    (rps now ip : ℕ) (b : Bucket) → b.used ≡ true → serve rps now ip b ≡ bucket_spend rps now b
serve_used rps now ip b u = rw (u, if◌then◌else◌) refl

pub serve_free :
    (rps now ip : ℕ) (b : Bucket)
    → b.used ≡ false
    → serve rps now ip b ≡ some (true, claimed rps now ip)
serve_free rps now ip b u = rw (u, if◌then◌else◌) refl
