-- ===== src/LoginLimit/Streak.antt =====
-- The lockout that a streak of failures brings.
use native.Mathlib.Nat.{pow-le-pow_right}
use agent_httpd.Base.{
  ℕ, zero, suc, ◌+◌, ◌-◌, ◌*◌, ◌%◌, ◌^◌, ◌≤◌, ◌<◌, min, Option, none, some, List, [], ◌∷◌, length,
  set, All, ltb, ◌==◌, if◌then◌else◌, ◌≡◌, ◌≢◌, inl, inr, eq_of_some, refl, sym, ◌∙◌, ap, arith,
  Bool-cases, ==_iff, Bytes,
}
use agent_httpd.LoginLimit.Lookup.{
  bucket_of, blocked_for-bucket, entry, entry_hit, entry_pass, ne_of_test,
}
use agent_httpd.LoginLimit.Failure.{Failed, entry-fail_self}
use agent_httpd.LoginLimit.Invariant.{IsTable, fail_probe-IsTable, login_key-ne-zero}
use agent_httpd.LoginLimit.{
  Bucket, Table, table_size, max_probes, slot, blocked_for, backoff, extend_streak, lock_out,
  record_failure, put, fail_probe, fail, login_key,
}

-- The policy: no lockout below five failures, then 30 seconds, doubled by each further failure up to
-- 15 minutes.
abbrev pub lockout : ℕ → ℕ
lockout n = min 900 (30 * 2 ^ (n - 5))

abbrev pub locked_until : ℕ → ℕ → ℕ
locked_until n last = if ltb n 5 then 0 else last + lockout n

backoff-lockout : (n : ℕ) → n ≤ 63 → backoff n ≡ some (lockout n)
unfolding backoff
backoff-lockout n h =
    let small : 2 ^ (n - 5) ≤ 2 ^ 58 =
      pow-le-pow_right {n = 2} (omega arith) {i = n - 5} {j = 58} (omega arith) in
    ground arith

record_failure_streak :
    (b : Bucket) (now : ℕ)
    → now ≤ b.first_fail + 900
    → b.fail_count < 63
    → record_failure b now
      ≡ some (record b {
        fail_count = b.fail_count + 1;
        lock_until =
            if ltb (b.fail_count + 1) 5 then b.lock_until else now + lockout (b.fail_count + 1);
      })
unfolding record_failure extend_streak lock_out
record_failure_streak b now h k = ground (arith, backoff-lockout (b.fail_count + 1))

-- A bucket in a streak: `n` failures since `first`, the last one at `last`.
pub record IsStreak (first n last : ℕ) (b : Bucket) : Type 0 where
  pub count : b.fail_count ≡ n
  pub since : b.first_fail ≡ first
  pub locked : b.lock_until ≡ locked_until n last

IsStreak-suc :
    (first n last now : ℕ) (b : Bucket)
    → IsStreak first n last b
    → now ≤ first + 900
    → n < 63
    → (b' : Bucket) × (record_failure b now ≡ some b') × IsStreak first (n + 1) now b'
IsStreak-suc first n last now b s h k = (
  record b {
    fail_count = b.fail_count + 1;
    lock_until =
        if ltb (b.fail_count + 1) 5 then b.lock_until else now + lockout (b.fail_count + 1);
  },
  record_failure_streak b now (omega (arith, s.since)) (omega (arith, s.count)),
  record {
    count = omega (arith, s.count);
    since = s.since;
    locked = rw s.count (ground (arith, s.locked));
  },
)

put_total :
    (t : Table) (i : ℕ) (b : Option Bucket) (b' : Bucket)
    → b ≡ some b'
    → (t' : Table) × (put t i b ≡ some t')
unfolding put
put_total t i none b' e = absurd (cc)
put_total t i (some b) b' e = (set t (i % table_size) b, refl)

-- A failure of a pair that has an entry is recorded.
fail_probe_total :
    (n i key now : ℕ) (t : Table) (b b' : Bucket)
    → entry n i key t ≡ some b
    → key ≢ 0
    → record_failure b now ≡ some b'
    → (t' : Table) × (fail_probe n i key now t ≡ some t')
unfolding fail_probe entry
fail_probe_total zero i key now t b b' e k r = absurd (cc)
fail_probe_total (suc n) i key now t b b' e k r = elim (Bool-cases ((slot t i).key == 0)) [
  | inl free ↦ rw (free, fail_probe) (put_total t i _ _ refl)
  | inr taken ↦
      rw (taken, fail_probe)
        (elim (Bool-cases ((slot t i).key == key)) [
          | inl hit ↦
              let x : slot t i ≡ b =
                eq_of_some (sym (entry_hit n i key t ((==_iff _ _).0 hit)) ∙ e) in
              rw (hit, fail_probe)
                (put_total t i (record_failure (slot t i) now) b'
                  (ap (λ y. record_failure y now) x ∙ r))
          | inr miss ↦
              rw (miss, fail_probe)
                (fail_probe_total n (i + 1) key now t b b'
                  (sym (entry_pass n i key t (ne_of_test _ _ taken) (ne_of_test _ _ miss)) ∙ e) k r)
        ])
]

-- The calls of `login_limiter_fail` for one pair at the given times.
pub fails : Option Table → Bytes → Bytes → List ℕ → Option (Option Table)
fails table user ip [] = some table
fails table user ip (now ∷ times) = elim (fail table user ip now) [
  | none ↦ none
  | some after ↦ fails after user ip times
]

abbrev pub last_of : ℕ → List ℕ → ℕ
last_of now [] = now
last_of now (x ∷ xs) = last_of x xs

fail-some :
    (t t' : Table) (user ip : Bytes) (now : ℕ)
    → fail_probe max_probes (login_key user ip % table_size) (login_key user ip) now t ≡ some t'
    → fail (some t) user ip now ≡ some (some t')
unfolding fail
fail-some t t' user ip now q =
    ap {B = Option (Option Table)} (λ r. elim r [ none ↦ none | some u ↦ some (some u) ]) q

fail-IsStreak :
    (t : Table) (user ip : Bytes) (first n last now : ℕ) (b : Bucket)
    → IsTable t
    → bucket_of t user ip ≡ some b
    → IsStreak first n last b
    → now ≤ first + 900
    → n < 63
    → (t' : Table) × (b' : Bucket) × (fail (some t) user ip now ≡ some (some t'))
      × IsTable t'
      × (bucket_of t' user ip ≡ some b')
      × IsStreak first (n + 1) now b'
unfolding fail
fail-IsStreak t user ip first n last now b v e s h k =
    let z = login_key-ne-zero user ip in
    let (b', r, s') = IsStreak-suc first n last now b s h k in
    let (t', q) = fail_probe_total max_probes _ _ now t b b' e z r in
    let f : Failed (login_key user ip) now (bucket_of t user ip) (bucket_of t' user ip) =
      entry-fail_self max_probes _ _ now t t' v.size v.clean z q in
    (
      t',
      b',
      fail-some t t' user ip now q,
      fail_probe-IsTable max_probes _ _ now t t' z q v,
      (rw e at f) ∙ r,
      s',
    )

-- Lockout policy. Take a valid table in which the pair has a streak of `n` failures, and let the pair
-- fail again at the given times, each within 900 seconds of the streak's first failure and no more
-- than 63 failures in all. Then every failure is recorded, and from then on the pair is blocked until
-- `locked_until`: not at all below five failures, else for 30 seconds after the last failure, doubled
-- for each failure past the fifth and at most 900.
pub fails_lockout :
    (t : Table) (user ip : Bytes) (first n last : ℕ) (b : Bucket) (times : List ℕ)
    → IsTable t
    → bucket_of t user ip ≡ some b
    → IsStreak first n last b
    → All (λ x. x ≤ first + 900) times
    → n + length times ≤ 63
    → (t' : Table) × (fails (some t) user ip times ≡ some (some t'))
      × ((now : ℕ)
          → blocked_for (some t') user ip now
            ≡ locked_until (n + length times) (last_of last times) - now)
unfolding fails
fails_lockout t user ip first n last b [] v e s h k =
    (t, refl, λ now. blocked_for-bucket t user ip now ∙ rw e (ground (arith, s.locked)))
fails_lockout t user ip first n last b (now ∷ times) v e s h k =
    let (t1, b1, q, v1, e1, s1) =
      fail-IsStreak t user ip first n last now b v e s h.0 (omega arith) in
    let (t', r, blocked) =
      fails_lockout t1 user ip first (n + 1) now b1 times v1 e1 s1 h.1 (omega arith) in
    (
      t',
      rw (q, fails) r,
      λ x. blocked x ∙ ap (λ m. locked_until m (last_of now times) - x) (omega arith),
    )
