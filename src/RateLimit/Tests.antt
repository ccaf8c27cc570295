-- ===== src/RateLimit/Tests.antt =====
-- The request limiter's theorems at concrete inputs: 127.0.0.1, whose slot is 2364.
use agent_httpd.Base.{
  ℕ, ◌+◌, ◌-◌, ◌*◌, ◌^◌, ◌≤◌, ◌↔◌, ◌≡◌, refl, some, none, [], ◌∷◌, List, true, arith, set,
  replicate,
}
use agent_httpd.RateLimit.{
  Table, unclaimed, mix_ip, claimed, allow, probe, bucket_spend, refill, take_token,
  rate_table_size, rate_limit_allow, rate_limit_init,
}
use agent_httpd.RateLimit.Slots.{at, serving, search, Keeps}
use agent_httpd.RateLimit.Step.{IsTable, allow-Keeps, allow-IsTable, initial-IsTable}
use agent_httpd.RateLimit.Budget.{Request, granted, granted_rate}
use agent_httpd.RateLimit.Overflow.{Overflows, allow-none_iff}

abbrev local : ℕ
local = 16777343

abbrev blank : Table
blank = replicate rate_table_size unclaimed

-- Two requests a second; the first came in second 100.
abbrev one_request : Table
one_request = set blank 2364 (claimed 2 100 local)

first_request : allow 2 100 local blank ≡ some (true, one_request)
unfolding allow probe mix_ip
first_request = refl

rate_limit_allow-off : rate_limit_allow 2 100 local (rate_limit_init 0 true) ≡ some (true, none)
unfolding rate_limit_allow rate_limit_init
rate_limit_allow-off = refl

rate_limit_allow-on :
    rate_limit_allow 2 100 local (rate_limit_init 2 true) ≡ some (true, some one_request)
unfolding rate_limit_allow rate_limit_init allow probe mix_ip
rate_limit_allow-on = refl

one_request-IsTable : IsTable 2 101 one_request
one_request-IsTable =
    allow-IsTable 2 101 100 local blank one_request true (initial-IsTable 2 101) (omega arith)
      (omega arith) first_request

local_used : (at one_request (serving local one_request)).used ≡ true
unfolding search mix_ip
local_used = refl

abbrev requests : List Request
requests =
    record { ip = local; now = 100 }
    ∷ record { ip = local; now = 100 }
    ∷ record { ip = local; now = 101 }
    ∷ []

abbrev after_run : Table
after_run = set blank 2364 (record { ip = local; ts = 101; tokens = 1; debt = 0; used = true })

requests_run : granted 2 local requests one_request ≡ some (2, after_run)
unfolding granted allow probe mix_ip bucket_spend refill take_token
requests_run = refl

granted_rate_example : 2 ≤ 2 + (101 - (at one_request (serving local one_request)).ts) * 2
granted_rate_example =
    granted_rate 2 101 local requests one_request after_run 2 one_request-IsTable
      (omega arith, (omega arith, (omega arith, tt))) (omega arith) local_used requests_run

-- 127.0.0.6 comes in while 127.0.0.1 has its bucket.
abbrev newcomer : ℕ
newcomer = 100663423

abbrev both : Table
both = set one_request 2569 (claimed 2 101 newcomer)

second_client : allow 2 101 newcomer one_request ≡ some (true, both)
unfolding allow probe mix_ip
second_client = refl

allow-Keeps_example :
    IsTable 2 101 both × Keeps one_request both × (serving local both ≡ serving local one_request)
allow-Keeps_example =
    allow-Keeps 2 101 101 newcomer local one_request both true one_request-IsTable (omega arith)
      (omega arith) second_client local_used

allow-none_iff_example : (allow 2 2000000000 local one_request ≡ none) ↔ (
    ((at one_request (serving local one_request)).used ≡ true)
    × Overflows 2 2000000000 (at one_request (serving local one_request)))
allow-none_iff_example = allow-none_iff 2 2000000000 local one_request

-- A client back after a month, under a limit of 1000 requests a second.
month_later : allow 1000 (100 + 30 * 86400) local (set blank 2364 (claimed 1000 100 local)) ≡ none
unfolding allow probe mix_ip bucket_spend refill take_token
month_later = refl

-- A pause of 2 ^ 32 seconds adds nothing, and one of a second less takes `rps` away.
pause_lost :
    refill 2 (100 + 2 ^ 32) (claimed 2 100 local)
    ≡ some (record (claimed 2 100 local) { ts = 100 + 2 ^ 32 })
unfolding refill
pause_lost = refl

pause_negative :
    refill 2 (99 + 2 ^ 32) (claimed 2 100 local)
    ≡ some (record { ip = local; ts = 99 + 2 ^ 32; tokens = 0; debt = 1; used = true })
unfolding refill
pause_negative = refl
