-- ===== src/LoginLimit/Invariant.antt =====
-- The invariant of the shared table, under every operation.
use agent_httpd.Base.{
  ℕ, zero, suc, ◌+◌, ◌%◌, Option, none, some, length, get_or, set, length-set, length-replicate,
  get_or-set_ne, get_or-replicate, ◌==◌, ◌≡◌, ◌≢◌, inl, inr, eq_of_some, subst, refl, sym, ◌∙◌, ap,
  arith, Bool-cases, ==_iff, Bytes,
}
use agent_httpd.LoginLimit.Lookup.{ne_of_test, slot-set_self, record_failure-key}
use agent_httpd.LoginLimit.{
  Bucket, empty, Table, table_size, max_probes, slot, record_failure, put, fail_probe, fail,
  success_probe, success, login_key, initial,
}

-- The table has its 1024 slots, and a free slot carries no lockout.
pub record IsTable (t : Table) : Type 0 where
  pub size : length t ≡ table_size
  pub clean : (p : ℕ) → (slot t p).key ≡ 0 → (slot t p).lock_until ≡ 0

pub set-IsTable :
    (t : Table) (i : ℕ) (b : Bucket)
    → IsTable t
    → (b.key ≡ 0 → b.lock_until ≡ 0)
    → IsTable (set t (i % table_size) b)
set-IsTable t i b v h = record {
  size = length-set t (i % table_size) b ∙ v.size;
  clean = λ p. elim (Bool-cases (i % table_size == p % table_size)) [
    | inl same ↦
        subst
          (λ j.
            (get_or (set t (i % table_size) b) j empty).key ≡ 0
            → (get_or (set t (i % table_size) b) j empty).lock_until ≡ 0)
          ((==_iff _ _).0 same) (rw (slot-set_self t i b v.size) h)
    | inr differ ↦
        rw (get_or-set_ne t (i % table_size) (p % table_size) b empty (ne_of_test _ _ differ))
          (v.clean p)
  ];
}

put-IsTable :
    (t t' : Table) (i : ℕ) (b : Option Bucket)
    → IsTable t
    → ((b' : Bucket) → b ≡ some b' → b'.key ≢ 0)
    → put t i b ≡ some t'
    → IsTable t'
unfolding put
put-IsTable t t' i none v h e = absurd (cc)
put-IsTable t t' i (some b) v h e =
    subst IsTable (eq_of_some e) (set-IsTable t i b v (λ z. absurd (h b refl z)))

pub fail_probe-IsTable :
    (n i key now : ℕ) (t t' : Table)
    → key ≢ 0
    → fail_probe n i key now t ≡ some t'
    → IsTable t
    → IsTable t'
unfolding fail_probe
fail_probe-IsTable zero i key now t t' k e v = subst IsTable (eq_of_some e) v
fail_probe-IsTable (suc n) i key now t t' k e v = elim (Bool-cases ((slot t i).key == 0)) [
  | inl free ↦
      put-IsTable t t' i _ v (λ b' q z. k (ap (λ b. b.key) (eq_of_some q) ∙ z))
        (rw (free, fail_probe) at e)
  | inr taken ↦ elim (Bool-cases ((slot t i).key == key)) [
    | inl hit ↦
        put-IsTable t t' i (record_failure (slot t i) now) v
          (λ b' q z. ne_of_test _ _ taken (sym (record_failure-key _ b' now q) ∙ z))
          (rw (hit, fail_probe) at (rw (taken, fail_probe) at e))
    | inr miss ↦
        fail_probe-IsTable n (i + 1) key now t t' k
          (rw (miss, fail_probe) at (rw (taken, fail_probe) at e)) v
  ]
]

pub success_probe-IsTable :
    (n i key : ℕ) (t : Table) → IsTable t → IsTable (success_probe n i key t)
unfolding success_probe
success_probe-IsTable zero i key t v = v
success_probe-IsTable (suc n) i key t v = elim (Bool-cases ((slot t i).key == key)) [
  | inl hit ↦ rw (hit, success_probe) (set-IsTable t i _ v (λ z. refl))
  | inr miss ↦ elim (Bool-cases ((slot t i).key == 0)) [
    | inl free ↦ rw (miss, success_probe) (rw (free, success_probe) v)
    | inr taken ↦
        rw (miss, success_probe)
          (rw (taken, success_probe) (success_probe-IsTable n (i + 1) key t v))
  ]
]

pub login_key-ne-zero : (user ip : Bytes) → login_key user ip ≢ 0
unfolding login_key
login_key-ne-zero user ip = ground arith

-- What is mapped keeps the invariant, and nothing is mapped later.
abbrev pub IsLimiter : Option Table → Type 0
IsLimiter none = Unit
IsLimiter (some t) = IsTable t

pub initial-IsTable : IsTable initial
unfolding initial
initial-IsTable = record {
  size = length-replicate table_size empty;
  clean = λ p z. ap (λ b. b.lock_until) (get_or-replicate table_size (p % table_size) empty);
}

-- The table's invariant holds at the start and is kept by a failed and by a successful login of any
-- pair, whatever the time: 1024 slots, and no lockout in a free slot.
pub login-IsLimiter :
    (table after : Option Table) (user ip : Bytes) (now : ℕ)
    → IsLimiter table
    → IsTable initial
      × IsLimiter (success table user ip)
      × (fail table user ip now ≡ some after → IsLimiter after)
unfolding success fail
login-IsLimiter none after user ip now v =
    (initial-IsTable, tt, λ e. subst IsLimiter (eq_of_some e) tt)
login-IsLimiter (some t) after user ip now v =
    (initial-IsTable, success_probe-IsTable max_probes _ _ t v, failed _ refl)
  where
    failed :
        (r : Option Table)
        → fail_probe max_probes (login_key user ip % table_size) (login_key user ip) now t ≡ r
        → elim r [ none ↦ none | some t' ↦ some (some t') ] ≡ some after
        → IsLimiter after
    failed none q e = absurd (cc)
    failed (some t') q e =
        subst IsLimiter (eq_of_some e)
          (fail_probe-IsTable max_probes _ _ now t t' (login_key-ne-zero user ip) q v)
