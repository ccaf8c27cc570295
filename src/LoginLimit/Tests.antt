-- ===== src/LoginLimit/Tests.antt =====
-- The limiter's theorems at concrete inputs. The users "eve" and "u520" at 10.0.0.1 share slot 670.
use agent_httpd.Base.{
  ℕ, ◌+◌, ◌-◌, ◌≡◌, ◌≢◌, refl, some, none, [], ◌∷◌, codes, arith, set, replicate, Bytes,
}
use agent_httpd.LoginLimit.{
  record_failure, lock_out, extend_streak, Bucket, Table, empty, initial, table_size, login_key,
  fail, fail_probe, success, blocked_for, blocked_probe, put,
}
use agent_httpd.LoginLimit.Lookup.{bucket_of, entry}
use agent_httpd.LoginLimit.Invariant.{
  IsTable, IsLimiter, set-IsTable, initial-IsTable, fail_probe-IsTable, login-IsLimiter,
}
use agent_httpd.LoginLimit.Streak.{fails, fails_lockout, locked_until}
use agent_httpd.LoginLimit.Release.{blocked_for-success_other}

abbrev address : Bytes
address = codes "10.0.0.1"

eve_key : login_key (codes "eve") address ≡ 773154462
unfolding login_key
eve_key = refl

u520_key : login_key (codes "u520") address ≡ 3398259358
unfolding login_key
u520_key = refl

abbrev eve : Bucket
eve = record { key = 773154462; fail_count = 1; first_fail = 100; lock_until = 0 }

abbrev one_failure : Table
one_failure = set (replicate table_size empty) 670 eve

one_failure-IsTable : IsTable one_failure
unfolding initial fail_probe put
one_failure-IsTable =
    fail_probe-IsTable 1 670 773154462 100 initial one_failure (λ e. cc) refl initial-IsTable

eve_entry : bucket_of one_failure (codes "eve") address ≡ some eve
unfolding login_key entry
eve_entry = refl

fails_lockout_example :
    (t' : Table) × (fails
        (some one_failure)
        (codes "eve")
        address
        (101 ∷ 102 ∷ 103 ∷ 104 ∷ 140 ∷ [])
      ≡ some (some t'))
    × ((now : ℕ) → blocked_for (some t') (codes "eve") address now ≡ locked_until (1 + 5) 140 - now)
fails_lockout_example =
    fails_lockout one_failure (codes "eve") address 100 1 100 eve (101 ∷ 102 ∷ 103 ∷ 104 ∷ 140 ∷ [])
      one_failure-IsTable eve_entry (record { count = refl; since = refl; locked = refl })
      (omega arith) (omega arith)

login-IsLimiter_example :
    IsTable initial
    × IsLimiter (success (some one_failure) (codes "eve") address)
    × (fail (some one_failure) (codes "eve") address 105 ≡ some none → IsLimiter none)
login-IsLimiter_example =
    login-IsLimiter (some one_failure) none (codes "eve") address 105 one_failure-IsTable

-- "u520" is locked until 1000 and stands behind "eve".
abbrev locked : Table
locked =
    set one_failure 671
      (record { key = 3398259358; fail_count = 9; first_fail = 90; lock_until = 1000 })

locked_before : blocked_for (some locked) (codes "u520") address 200 ≡ 800
unfolding blocked_for blocked_probe login_key
locked_before = refl

u520_entry :
    bucket_of locked (codes "u520") address
    ≡ some (record { key = 3398259358; fail_count = 9; first_fail = 90; lock_until = 1000 })
unfolding login_key entry
u520_entry = refl

locked-IsTable : IsTable locked
locked-IsTable = set-IsTable one_failure 671 _ one_failure-IsTable (λ e. cc)

keys_differ : login_key (codes "u520") address ≢ login_key (codes "eve") address
keys_differ = rw (u520_key, eve_key) (λ e. absurd (omega arith))

blocked_for-success_other_example :
    blocked_for (success (some locked) (codes "eve") address) (codes "u520") address 200 ≡ 0
blocked_for-success_other_example =
    blocked_for-success_other locked (codes "eve") address (codes "u520") address 200 locked-IsTable
      keys_differ (rw (u520_key, eve_key) refl) (rw eve_key refl)

abbrev eve_again : Table
eve_again =
    set locked 670 (record { key = 773154462; fail_count = 2; first_fail = 100; lock_until = 0 })

eve_fails : fail (some locked) (codes "eve") address 200 ≡ some (some eve_again)
unfolding fail fail_probe login_key put record_failure lock_out extend_streak
eve_fails = refl
