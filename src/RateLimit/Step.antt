-- ===== src/RateLimit/Step.antt =====
-- One request: what `rate_limit_allow` of src/security/ratelimit.c does to the table, and that the
-- table stays sound.
use agent_httpd.Base.{
  ℕ, ◌%◌, ◌≤◌, ◌<◌, Bool, true, false, Option, none, some, set, length, length-set, get_or-set_self,
  get_or-set_ne, replicate, length-replicate, get_or-replicate, ◌==◌, ◌≡◌, ◌≢◌, ◌⊎◌, inl, inr, sym,
  ap, ◌∙◌, arith, Bool-cases, eq_of_some,
}
use agent_httpd.RateLimit.{
  Bucket, Table, unclaimed, bucket_spend, claimed, store, allow, mix_ip, rate_table_size,
  rate_max_probes,
}
use agent_httpd.RateLimit.Spend.{cost, Paid, bucket_spend-Paid}
use agent_httpd.RateLimit.Slots.{
  at, search_bound, serving, serve, serve_used, serve_free, allow-serve, Keeps, serving_stable,
}

-- A table at a time: no bucket is overfull or refilled later.
pub record IsTable (rps last : ℕ) (t : Table) : Type 0 where
  pub size : length t ≡ rate_table_size
  pub full : (k : ℕ) → (at t k).tokens ≤ rps
  pub early : (k : ℕ) → (at t k).ts ≤ last

-- One request, from what it does to the slot that serves it.
pub record Step (rps last ip : ℕ) (t t' : Table) (ok : Bool) : Type 0 where
  pub bucket : Bucket
  pub stored : t' ≡ set t (serving ip t) bucket
  pub fresh : (at t (serving ip t)).used ≡ false → (bucket.ip ≡ ip) × (ok ≡ true)
  pub taken : bucket.used ≡ true
  pub spent :
      (at t (serving ip t)).used ≡ true → Paid rps last (at t (serving ip t)) bucket (cost ok)
  pub capped : bucket.tokens ≤ rps
  pub timely : bucket.ts ≤ last

store-some :
    (t t' : Table) (k : ℕ) (o : Option (Bool × Bucket)) (ok : Bool)
    → store t k o ≡ some (ok, t')
    → (b : Bucket) × (o ≡ some (ok, b)) × (t' ≡ set t k b)
store-some t t' k none ok e = absurd (cc)
store-some t t' k (some (ok', b)) ok e =
    let q = eq_of_some e in (b, ap (λ r. some (r, b)) (ap (λ r. r.0) q), sym (ap (λ r. r.1) q))

serving_bound : (ip : ℕ) (t : Table) → serving ip t < rate_table_size
serving_bound ip t = search_bound ip (mix_ip ip % rate_table_size) t rate_max_probes 0 (omega arith)

pub allow-Step :
    (rps last now ip : ℕ) (t t' : Table) (ok : Bool)
    → IsTable rps last t
    → now ≤ last
    → 0 < rps
    → allow rps now ip t ≡ some (ok, t')
    → Step rps last ip t t' ok
allow-Step rps last now ip t t' ok v p pos e =
    let k = serving ip t in
    let (b, f, s) =
      store-some t t' k (serve rps now ip (at t k)) ok (sym (allow-serve rps now ip t) ∙ e) in
    elim (Bool-cases (at t k).used) [
      | inl used ↦
          let g : bucket_spend rps now (at t k) ≡ some (ok, b) =
            sym (serve_used rps now ip (at t k) used) ∙ f in
          let paid = bucket_spend-Paid rps last now (at t k) b ok p (v.early k) (v.full k) g in
          record {
            bucket = b;
            stored = s;
            fresh = λ free. absurd (cc (used, free));
            taken = paid.stays ∙ used;
            spent = λ _. paid;
            capped = paid.full;
            timely = paid.early;
          }
      | inr free ↦
          let g = eq_of_some (sym (serve_free rps now ip (at t k) free) ∙ f) in
          let c : claimed rps now ip ≡ b = ap (λ r. r.1) g in
          record {
            bucket = b;
            stored = s;
            fresh = λ _. (sym (ap (λ x. x.ip) c), sym (ap (λ r. r.0) g));
            taken = sym (ap (λ x. x.used) c);
            spent = λ used. absurd (cc (used, free));
            capped = omega (arith, ap (λ x. x.tokens) c);
            timely = omega (arith, ap (λ x. x.ts) c, p);
          }
    ]

pub set_self : (t : Table) (k : ℕ) (b : Bucket) → k < length t → at (set t k b) k ≡ b
set_self t k b h = get_or-set_self t k b unclaimed h

-- A request looks at one slot, and what it leaves there.
module _ {rps last ip : ℕ} {t t' : Table} {ok : Bool} (v : IsTable rps last t)
    (s : Step rps last ip t t' ok) where
  pub here : at t' (serving ip t) ≡ s.bucket
  here =
      ap (λ x. at x (serving ip t)) s.stored
      ∙ set_self t (serving ip t) s.bucket (omega (arith, serving_bound ip t, v.size))

  pub elsewhere : (k : ℕ) → serving ip t ≢ k → at t' k ≡ at t k
  elsewhere k n = ap (λ x. at x k) s.stored ∙ get_or-set_ne t (serving ip t) k s.bucket unclaimed n

  pub slot-cases :
      (k : ℕ)
      → ((serving ip t ≡ k) × (at t' k ≡ s.bucket)) ⊎ ((serving ip t ≢ k) × (at t' k ≡ at t k))
  slot-cases k = elim (Bool-cases (serving ip t == k)) [
    | inl e ↦ let q : serving ip t ≡ k = ground arith in inl (q, ap (λ j. at t' j) (sym q) ∙ here)
    | inr e ↦ let n : serving ip t ≢ k = ground arith in inr (n, elsewhere k n)
  ]

  pub Step-Keeps : Keeps t t'
  unfolding Keeps
  Step-Keeps k u = elim (slot-cases k) [
    | inr (_, same) ↦ (ap (λ x. x.used) same ∙ u, ap (λ x. x.ip) same)
    | inl (q, new) ↦
        let paid = s.spent (ap (λ j. (at t j).used) q ∙ u) in
        (ap (λ x. x.used) new ∙ s.taken, ap (λ x. x.ip) new ∙ paid.owner ∙ ap (λ j. (at t j).ip) q)
  ]

  pub still_used : (x : ℕ) → (at t (serving x t)).used ≡ true → (at t' (serving x t')).used ≡ true
  unfolding Keeps
  still_used x u =
      let w = serving_stable x t t' Step-Keeps u in
      ap (λ j. (at t' j).used) w ∙ (Step-Keeps (serving x t) u).0

  pub Step-IsTable : IsTable rps last t'
  Step-IsTable = record {
    size = ap length s.stored ∙ length-set t (serving ip t) s.bucket ∙ v.size;
    full = λ k. elim (slot-cases k) [
      | inr (_, same) ↦ omega (arith, ap (λ x. x.tokens) same, v.full k)
      | inl (_, new) ↦ omega (arith, ap (λ x. x.tokens) new, s.capped)
    ];
    early = λ k. elim (slot-cases k) [
      | inr (_, same) ↦ omega (arith, ap (λ x. x.ts) same, v.early k)
      | inl (_, new) ↦ omega (arith, ap (λ x. x.ts) new, s.timely)
    ];
  }

-- The table stays sound, and every slot in use keeps its owner, over any request, whoever sends it:
-- no bucket ever holds more than `rps` tokens or is refilled in the future, no counter is taken over
-- by another address, and a third address that has a slot is served by the same slot afterwards.
pub allow-Keeps :
    (rps last now ip other : ℕ) (t t' : Table) (ok : Bool)
    → IsTable rps last t
    → now ≤ last
    → 0 < rps
    → allow rps now ip t ≡ some (ok, t')
    → (at t (serving other t)).used ≡ true
    → IsTable rps last t' × Keeps t t' × (serving other t' ≡ serving other t)
allow-Keeps rps last now ip other t t' ok v p pos e u =
    let s = allow-Step rps last now ip t t' ok v p pos e in
    (Step-IsTable v s, Step-Keeps v s, serving_stable other t t' (Step-Keeps v s) u)

pub allow-IsTable :
    (rps last now ip : ℕ) (t t' : Table) (ok : Bool)
    → IsTable rps last t
    → now ≤ last
    → 0 < rps
    → allow rps now ip t ≡ some (ok, t')
    → IsTable rps last t'
allow-IsTable rps last now ip t t' ok v p pos e =
    Step-IsTable v (allow-Step rps last now ip t t' ok v p pos e)

pub initial-IsTable : (rps last : ℕ) → IsTable rps last (replicate rate_table_size unclaimed)
initial-IsTable rps last = record {
  size = length-replicate rate_table_size unclaimed;
  full = λ k. omega (arith, ap (λ x. x.tokens) (get_or-replicate rate_table_size k unclaimed));
  early = λ k. omega (arith, ap (λ x. x.ts) (get_or-replicate rate_table_size k unclaimed));
}
