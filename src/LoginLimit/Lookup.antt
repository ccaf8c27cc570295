-- ===== src/LoginLimit/Lookup.antt =====
-- The abstract view of the table: a map from keys to buckets, read along the probe chain.
use agent_httpd.Base.{
  ℕ, zero, suc, ◌+◌, ◌-◌, ◌%◌, false, Option, none, some, length, get_or, set, get_or-set_self,
  get_or-set_ne, ltb, ◌==◌, if◌then◌else◌, ◌≡◌, ◌≢◌, inl, inr, refl, sym, subst, ◌∙◌, ap, arith,
  eq_of_some, Bool-cases, ==_iff, Bytes,
}
use agent_httpd.LoginLimit.{
  Bucket, empty, Table, table_size, slot, max_probes, login_key, blocked_for, blocked_probe,
  extend_streak, lock_out, record_failure, put, fail_probe,
}

-- The bucket of `key` along `n` slots from index `i` on; a free slot ends the chain.
unfoldable pub entry : ℕ → ℕ → ℕ → Table → Option Bucket
entry zero i key t = none
entry (suc n) i key t =
    if (slot t i).key == key
    then some (slot t i)
    else if (slot t i).key == 0
    then none
    else entry n (i + 1) key t

module _ (n i key : ℕ) (t : Table) where
  pub entry_hit : (slot t i).key ≡ key → entry (suc n) i key t ≡ some (slot t i)
  unfolding entry
  entry_hit h = ground arith

  pub entry_free : key ≢ 0 → (slot t i).key ≡ 0 → entry (suc n) i key t ≡ none
  unfolding entry
  entry_free k h = ground arith

  pub entry_pass :
      (slot t i).key ≢ 0 → (slot t i).key ≢ key → entry (suc n) i key t ≡ entry n (i + 1) key t
  unfolding entry
  entry_pass k h = ground arith

abbrev pub remaining : ℕ → Option Bucket → ℕ
remaining now none = 0
remaining now (some b) = if ltb now b.lock_until then b.lock_until - now else 0

-- The seconds that are left of a lockout are those of the pair's bucket.
pub blocked_probe-entry :
    (n i key now : ℕ) (t : Table) → blocked_probe n i key now t ≡ remaining now (entry n i key t)
unfolding blocked_probe entry
blocked_probe-entry zero i key now t = refl
blocked_probe-entry (suc n) i key now t = ground (arith, blocked_probe-entry n (i + 1) key now t)

-- The bucket of a pair.
abbrev pub bucket_of : Table → Bytes → Bytes → Option Bucket
bucket_of t user ip = entry max_probes (login_key user ip % table_size) (login_key user ip) t

pub blocked_for-bucket :
    (t : Table) (user ip : Bytes) (now : ℕ)
    → blocked_for (some t) user ip now ≡ remaining now (bucket_of t user ip)
unfolding blocked_for
blocked_for-bucket t user ip now = blocked_probe-entry max_probes _ _ now t

pub record_failure-key : (b b' : Bucket) (now : ℕ) → record_failure b now ≡ some b' → b'.key ≡ b.key
unfolding record_failure lock_out extend_streak
record_failure-key b b' now h = ground arith

pub ne_of_test : (a b : ℕ) → (a == b) ≡ false → a ≢ b
ne_of_test a b h = ground arith

-- Two slots with different keys stand at different places.
pub slot-set_ne :
    (t : Table) (i p : ℕ) (b : Bucket)
    → (slot t i).key ≢ (slot t p).key
    → slot (set t (i % table_size) b) p ≡ slot t p
slot-set_ne t i p b h =
    get_or-set_ne t (i % table_size) (p % table_size) b empty
      (λ e. h (ap (λ j. (get_or t j empty).key) e))

pub slot-set_self :
    (t : Table) (i : ℕ) (b : Bucket) → length t ≡ table_size → slot (set t (i % table_size) b) i ≡ b
slot-set_self t i b h = get_or-set_self t (i % table_size) b empty (omega arith)

put-slot :
    (t t' : Table) (i p : ℕ) (b : Option Bucket)
    → put t i b ≡ some t'
    → (slot t i).key ≢ (slot t p).key
    → slot t' p ≡ slot t p
unfolding put
put-slot t t' i p none e h = absurd (cc)
put-slot t t' i p (some b) e h = cc (slot-set_ne t i p b h)

-- The slots of other pairs are left alone by `login_limiter_fail`.
pub fail_probe-slot :
    (n i key now : ℕ) (t t' : Table) (p : ℕ)
    → fail_probe n i key now t ≡ some t'
    → (slot t p).key ≢ 0
    → (slot t p).key ≢ key
    → slot t' p ≡ slot t p
unfolding fail_probe
fail_probe-slot zero i key now t t' p e z k = cc
fail_probe-slot (suc n) i key now t t' p e z k = elim (Bool-cases ((slot t i).key == 0)) [
  | inl free ↦
      put-slot t t' i p _ (rw (free, fail_probe) at e) (λ q. z (sym q ∙ (==_iff _ _).0 free))
  | inr taken ↦ elim (Bool-cases ((slot t i).key == key)) [
    | inl hit ↦
        put-slot t t' i p _ (rw (hit, fail_probe) at (rw (taken, fail_probe) at e))
          (λ q. k (sym q ∙ (==_iff _ _).0 hit))
    | inr miss ↦
        fail_probe-slot n (i + 1) key now t t' p
          (rw (miss, fail_probe) at (rw (taken, fail_probe) at e)) z k
  ]
]

set-key :
    (t : Table) (i p : ℕ) (b : Bucket)
    → length t ≡ table_size
    → b.key ≡ (slot t i).key
    → (slot (set t (i % table_size) b) p).key ≡ (slot t p).key
set-key t i p b h k = elim (Bool-cases (i % table_size == p % table_size)) [
  | inl same ↦
      let e : i % table_size ≡ p % table_size = (==_iff _ _).0 same in
      subst (λ j. (get_or (set t (i % table_size) b) j empty).key ≡ (get_or t j empty).key) e
        (ap (λ x. x.key) (slot-set_self t i b h) ∙ k)
  | inr differ ↦
      ap (λ x. x.key)
        (get_or-set_ne t (i % table_size) (p % table_size) b empty (ne_of_test _ _ differ))
]

put-key :
    (t t' : Table) (i p : ℕ) (b : Option Bucket)
    → length t ≡ table_size
    → ((b' : Bucket) → b ≡ some b' → b'.key ≡ (slot t i).key)
    → put t i b ≡ some t'
    → (slot t' p).key ≡ (slot t p).key
unfolding put
put-key t t' i p none h k e = absurd (cc)
put-key t t' i p (some b) h k e =
    subst (λ x. (slot x p).key ≡ (slot t p).key) (eq_of_some e) (set-key t i p b h (k b refl))

-- An occupied slot keeps its key.
pub fail_probe-key :
    (n i key now : ℕ) (t t' : Table) (p : ℕ)
    → length t ≡ table_size
    → fail_probe n i key now t ≡ some t'
    → (slot t p).key ≢ 0
    → (slot t' p).key ≡ (slot t p).key
unfolding fail_probe
fail_probe-key zero i key now t t' p h e z = cc
fail_probe-key (suc n) i key now t t' p h e z = elim (Bool-cases ((slot t i).key == 0)) [
  | inl free ↦
      ap (λ x. x.key)
        (put-slot t t' i p _ (rw (free, fail_probe) at e) (λ q. z (sym q ∙ (==_iff _ _).0 free)))
  | inr taken ↦ elim (Bool-cases ((slot t i).key == key)) [
    | inl hit ↦
        put-key t t' i p (record_failure (slot t i) now) h (λ b' q. record_failure-key _ b' now q)
          (rw (hit, fail_probe) at (rw (taken, fail_probe) at e))
    | inr miss ↦
        fail_probe-key n (i + 1) key now t t' p h
          (rw (miss, fail_probe) at (rw (taken, fail_probe) at e)) z
  ]
]
