-- ===== src/LoginLimit/Failure.antt =====
-- `login_limiter_fail` on the map view: the pair's own bucket, and those of the others.
use agent_httpd.Base.{
  ℕ, zero, suc, ◌+◌, Option, none, some, length, ◌==◌, ◌≡◌, ◌≢◌, ◌⊎◌, inl, inr, eq_of_some, refl,
  sym, ◌∙◌, ap, Bool-cases, ==_iff,
}
use agent_httpd.LoginLimit.Lookup.{
  entry, entry_hit, entry_free, entry_pass, fail_probe-slot, slot-set_self, record_failure-key,
  fail_probe-key, ne_of_test,
}
use agent_httpd.LoginLimit.{Bucket, Table, table_size, slot, record_failure, put, fail_probe}

-- A free slot carries no lockout.
abbrev pub IsClean : Table → Type 0
IsClean t = (p : ℕ) → (slot t p).key ≡ 0 → (slot t p).lock_until ≡ 0

put-slot_self :
    (t t' : Table) (i : ℕ) (b : Option Bucket)
    → length t ≡ table_size
    → put t i b ≡ some t'
    → some (slot t' i) ≡ b
unfolding put
put-slot_self t t' i none h e = absurd (cc)
put-slot_self t t' i (some b) h e = cc (slot-set_self t i b h)

-- One probe of the loop, by what stands in the slot.
data Probe (n i key now : ℕ) (t t' : Table) : Type 0 where
  claimed :
      (slot t i).key ≡ 0
      → slot t' i ≡ record (slot t i) { key = key; first_fail = now; fail_count = 1 }
      → Probe n i key now t t'
  updated :
      (slot t i).key ≢ 0
      → (slot t i).key ≡ key
      → some (slot t' i) ≡ record_failure (slot t i) now
      → Probe n i key now t t'
  passed :
      (slot t i).key ≢ 0
      → (slot t i).key ≢ key
      → slot t' i ≡ slot t i
      → fail_probe n (i + 1) key now t ≡ some t'
      → Probe n i key now t t'

fail_probe-Probe :
    (n i key now : ℕ) (t t' : Table)
    → length t ≡ table_size
    → fail_probe (suc n) i key now t ≡ some t'
    → Probe n i key now t t'
unfolding fail_probe
fail_probe-Probe n i key now t t' h e = elim (Bool-cases ((slot t i).key == 0)) [
  | inl free ↦
      claimed ((==_iff _ _).0 free)
        (eq_of_some (put-slot_self t t' i _ h (rw (free, fail_probe) at e)))
  | inr taken ↦ elim (Bool-cases ((slot t i).key == key)) [
    | inl hit ↦
        updated (ne_of_test _ _ taken) ((==_iff _ _).0 hit)
          (put-slot_self t t' i _ h (rw (hit, fail_probe) at (rw (taken, fail_probe) at e)))
    | inr miss ↦
        passed (ne_of_test _ _ taken) (ne_of_test _ _ miss)
          (fail_probe-slot (suc n) i key now t t' i e (ne_of_test _ _ taken) (ne_of_test _ _ miss))
          (rw (miss, fail_probe) at (rw (taken, fail_probe) at e))
  ]
]

abbrev fresh_bucket : ℕ → ℕ → ℕ → Bucket
fresh_bucket key now lock_until = record {
  key = key;
  fail_count = 1;
  first_fail = now;
  lock_until = lock_until;
}

-- What a failure makes of the pair's entry: it is extended, or begun if there is a free slot.
abbrev pub Failed : ℕ → ℕ → Option Bucket → Option Bucket → Type 0
Failed key now (some b) after = after ≡ record_failure b now
Failed key now none after =
    (after ≡ none)
    ⊎ (after ≡ some (record { key = key; fail_count = 1; first_fail = now; lock_until = 0 }))

pub entry-fail_self :
    (n i key now : ℕ) (t t' : Table)
    → length t ≡ table_size
    → IsClean t
    → key ≢ 0
    → fail_probe n i key now t ≡ some t'
    → Failed key now (entry n i key t) (entry n i key t')
unfolding entry
entry-fail_self zero i key now t t' h c k e = inl refl
entry-fail_self (suc n) i key now t t' h c k e =
    go (fail_probe-Probe n i key now t t' h e) (entry-fail_self n (i + 1) key now t t' h c k)
  where
    go :
        Probe n i key now t t'
        → (fail_probe n (i + 1) key now t ≡ some t'
            → Failed key now (entry n (i + 1) key t) (entry n (i + 1) key t'))
        → Failed key now (entry (suc n) i key t) (entry (suc n) i key t')
    go (claimed z s) again = rw (entry_free n i key t k z) (
        inr (
          entry_hit n i key t' (ap (λ b. b.key) s)
          ∙ ap some (s ∙ ap (λ l. fresh_bucket key now l) (c i z))))
    go (updated z x s) again =
        rw (entry_hit n i key t x)
          (entry_hit n i key t' (record_failure-key (slot t i) (slot t' i) now (sym s) ∙ x) ∙ s)
    go (passed z x s r) again =
        rw (entry_pass n i key t z x) (rw (entry_pass n i key t' (rw s z) (rw s x)) (again r))

-- A pair that has an entry keeps it, untouched, when another pair fails.
pub entry-fail_other :
    (m j other n i key now : ℕ) (t t' : Table) {b : Bucket}
    → length t ≡ table_size
    → other ≢ 0
    → other ≢ key
    → fail_probe n i key now t ≡ some t'
    → entry m j other t ≡ some b
    → entry m j other t' ≡ some b
unfolding entry
entry-fail_other zero j other n i key now t t' h z k e q = q
entry-fail_other (suc m) j other n i key now t t' {b} h z k e q =
    elim (Bool-cases ((slot t j).key == other)) [
      | inl hit ↦
          let x : (slot t j).key ≡ other = (==_iff _ _).0 hit in
          let s : slot t' j ≡ slot t j =
            fail_probe-slot n i key now t t' j e (λ y. z (sym x ∙ y)) (λ y. k (sym x ∙ y)) in
          entry_hit m j other t' (ap (λ y. y.key) s ∙ x)
          ∙ ap some s
          ∙ sym (entry_hit m j other t x)
          ∙ q
      | inr miss ↦ elim (Bool-cases ((slot t j).key == 0)) [
        | inl free ↦
            let no : none ≡ some b = sym (entry_free m j other t z ((==_iff _ _).0 free)) ∙ q in
            absurd (cc)
        | inr taken ↦
            let u = ne_of_test _ _ taken in
            let v = ne_of_test _ _ miss in
            let s = fail_probe-key n i key now t t' j h e u in
            entry_pass m j other t' (rw s u) (rw s v)
            ∙ entry-fail_other m (j + 1) other n i key now t t' h z k e
                (sym (entry_pass m j other t u v) ∙ q)
      ]
    ]
