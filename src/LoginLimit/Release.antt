-- ===== src/LoginLimit/Release.antt =====
-- `login_limiter_success`: the pair's own lockout is gone, and what happens to the others.
use agent_httpd.Base.{
  ℕ, zero, suc, ◌+◌, ◌%◌, Option, none, some, length, set, ◌==◌, ◌≡◌, ◌≢◌, inl, inr, refl, sym, ◌∙◌,
  ap, arith, Bool-cases, ==_iff, Bytes,
}
use agent_httpd.LoginLimit.Lookup.{
  bucket_of, blocked_for-bucket, entry, entry_free, entry_pass, remaining, ne_of_test,
  slot-set_self, slot-set_ne,
}
use agent_httpd.LoginLimit.Failure.{entry-fail_other}
use agent_httpd.LoginLimit.Invariant.{IsTable, login_key-ne-zero}
use agent_httpd.LoginLimit.{
  Bucket, Table, table_size, max_probes, slot, fail_probe, fail, login_key, success_probe, success,
  blocked_for,
}

success_probe-slot :
    (n i key : ℕ) (t : Table) (p : ℕ)
    → (slot t p).key ≢ key
    → slot (success_probe n i key t) p ≡ slot t p
unfolding success_probe
success_probe-slot zero i key t p k = refl
success_probe-slot (suc n) i key t p k = elim (Bool-cases ((slot t i).key == key)) [
  | inl hit ↦ rw (hit, success_probe) (slot-set_ne t i p _ (λ q. k (sym q ∙ (==_iff _ _).0 hit)))
  | inr miss ↦ elim (Bool-cases ((slot t i).key == 0)) [
    | inl free ↦ rw (miss, success_probe) (rw (free, success_probe) refl)
    | inr taken ↦
        rw (miss, success_probe)
          (rw (taken, success_probe) (success_probe-slot n (i + 1) key t p k))
  ]
]

module _ (n i key : ℕ) (t : Table) where
  success_probe_hit :
      (slot t i).key ≡ key
      → success_probe (suc n) i key t
        ≡ set t (i % table_size) (record (slot t i) { key = 0; fail_count = 0; lock_until = 0 })
  unfolding success_probe
  success_probe_hit h = ground arith

  success_probe_free : (slot t i).key ≢ key → (slot t i).key ≡ 0 → success_probe (suc n) i key t ≡ t
  unfolding success_probe
  success_probe_free k h = ground arith

  success_probe_pass :
      (slot t i).key ≢ key
      → (slot t i).key ≢ 0
      → success_probe (suc n) i key t ≡ success_probe n (i + 1) key t
  unfolding success_probe
  success_probe_pass k h = ground arith

entry-success_self :
    (n i key : ℕ) (t : Table)
    → length t ≡ table_size
    → key ≢ 0
    → entry n i key (success_probe n i key t) ≡ none
unfolding entry
entry-success_self zero i key t h k = refl
entry-success_self (suc n) i key t h k = elim (Bool-cases ((slot t i).key == key)) [
  | inl hit ↦
      rw (success_probe_hit n i key t ((==_iff _ _).0 hit))
        (entry_free n i key _ k (ap (λ b. b.key) (slot-set_self t i _ h)))
  | inr miss ↦ elim (Bool-cases ((slot t i).key == 0)) [
    | inl free ↦
        rw (success_probe_free n i key t (ne_of_test _ _ miss) ((==_iff _ _).0 free))
          (entry_free n i key t k ((==_iff _ _).0 free))
    | inr taken ↦
        let s = success_probe-slot n (i + 1) key t i (ne_of_test _ _ miss) in
        rw (success_probe_pass n i key t (ne_of_test _ _ miss) (ne_of_test _ _ taken)) (
          entry_pass n i key _ (rw s (ne_of_test _ _ taken)) (rw s (ne_of_test _ _ miss))
          ∙ entry-success_self n (i + 1) key t h k)
  ]
]

-- A correct password ends the streak: in a valid table, whatever the pair's record, a success leaves
-- it with no record, so it is not blocked at any time.
pub blocked_for-success :
    (t : Table) (user ip : Bytes) (now : ℕ)
    → IsTable t
    → blocked_for (success (some t) user ip) user ip now ≡ 0
unfolding success
blocked_for-success t user ip now v =
    blocked_for-bucket _ user ip now
    ∙ ap (remaining now) (entry-success_self max_probes _ _ t v.size (login_key-ne-zero user ip))

fail_inv :
    (t t' : Table) (user ip : Bytes) (now : ℕ)
    → fail (some t) user ip now ≡ some (some t')
    → fail_probe max_probes (login_key user ip % table_size) (login_key user ip) now t ≡ some t'
unfolding fail
fail_inv t t' user ip now = go _
  where
    go :
        (r : Option Table)
        → elim r [ none ↦ none | some u ↦ some (some u) ] ≡ some (some t')
        → r ≡ some t'
    go none e = absurd (cc)
    go (some u) e = cc

-- Failures of one pair do not touch another: a pair that has a record, under another key, keeps it
-- and is blocked exactly as long as before.
pub blocked_for-fail_other :
    (t t' : Table) (user ip other_user other_ip : Bytes) (now : ℕ) (b : Bucket)
    → IsTable t
    → login_key other_user other_ip ≢ login_key user ip
    → bucket_of t other_user other_ip ≡ some b
    → fail (some t) user ip now ≡ some (some t')
    → (bucket_of t' other_user other_ip ≡ some b)
      × ((at : ℕ)
          → blocked_for (some t') other_user other_ip at
            ≡ blocked_for (some t) other_user other_ip at)
blocked_for-fail_other t t' user ip other_user other_ip now b v k e f =
    let kept : bucket_of t' other_user other_ip ≡ some b =
      entry-fail_other max_probes _ _ max_probes _ _ now t t' v.size
        (login_key-ne-zero other_user other_ip) k (fail_inv t t' user ip now f) e in
    (
      kept,
      λ at.
          blocked_for-bucket t' other_user other_ip at
          ∙ ap (remaining at) (kept ∙ sym e)
          ∙ sym (blocked_for-bucket t other_user other_ip at),
    )

-- A success can end another pair's lockout. Let two pairs with different keys start at the same slot,
-- and let the first stand in that slot. When the first logs in, its slot becomes free, which ends the
-- second pair's chain: that pair is not blocked any more, however long its lockout was to last.
pub blocked_for-success_other :
    (t : Table) (user ip other_user other_ip : Bytes) (now : ℕ)
    → IsTable t
    → login_key other_user other_ip ≢ login_key user ip
    → login_key other_user other_ip % table_size ≡ login_key user ip % table_size
    → (slot t (login_key user ip % table_size)).key ≡ login_key user ip
    → blocked_for (success (some t) user ip) other_user other_ip now ≡ 0
unfolding success
blocked_for-success_other t user ip other_user other_ip now v k same here =
    let gone : bucket_of (success_probe max_probes _ _ t) other_user other_ip ≡ none = rw same (
      rw (success_probe_hit 7 _ _ t here) (
        entry_free 7 _ _ _ (login_key-ne-zero other_user other_ip)
          (ap (λ b. b.key) (slot-set_self t _ _ v.size)))) in
    blocked_for-bucket _ other_user other_ip now ∙ ap (remaining now) gone
