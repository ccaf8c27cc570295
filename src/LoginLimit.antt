-- ===== src/LoginLimit.antt =====
-- The login failure limiter: src/security/loginlimit.c. The shared table is a list of 1024 slots, or
-- nothing where the mapping failed at startup; every critical section is one step. Times are seconds
-- since the epoch. A left shift that does not fit a `long long` has no meaning in C: a failure that
-- would do it gives `none`.
pub mod Lookup
pub mod Streak
pub mod Invariant
pub mod Failure
pub mod Release
mod Tests
use Prim.Native.Nat.{bit_xor}
use agent_httpd.Base.{
  ℕ, zero, suc, ◌+◌, ◌-◌, ◌*◌, ◌%◌, ◌^◌, Bool, Option, none, some, List, [], ◌∷◌, get_or, set,
  replicate, ltb, leb, ◌==◌, if◌then◌else◌, Bytes,
}

abbrev pub table_size : ℕ
table_size = 1024

abbrev pub max_probes : ℕ
max_probes = 8

abbrev pub max_failures : ℕ
max_failures = 5

abbrev pub backoff_base : ℕ
backoff_base = 30

abbrev pub max_lockout : ℕ
max_lockout = 900

abbrev pub reset_seconds : ℕ
reset_seconds = 900

-- `key` 0 is a free slot.
pub record Bucket : Type 0 where
  pub key : ℕ
  pub fail_count : ℕ
  pub first_fail : ℕ
  pub lock_until : ℕ

abbrev pub empty : Bucket
empty = record { key = 0; fail_count = 0; first_fail = 0; lock_until = 0 }

abbrev pub Table : Type 0
Table = List Bucket

-- One round of FNV-1a: `h ^= c; h *= 0x01000193u` on an `unsigned int`.
unfoldable pub fnv_byte : ℕ → ℕ → ℕ
fnv_byte h c = (bit_xor h c * 0x01000193) % 2 ^ 32

unfoldable pub fnv_bytes : ℕ → Bytes → ℕ
unfolding fnv_byte
fnv_bytes h [] = h
fnv_bytes h (c ∷ cs) = fnv_bytes (fnv_byte h c) cs

unfoldable pub login_key : Bytes → Bytes → ℕ
unfolding fnv_bytes
login_key user ip =
    let h = fnv_bytes (fnv_byte (fnv_bytes 0x811c9dc5 user) 0xff) ip in if h == 0 then 1 else h

-- `login_limiter_init`, where the mapping succeeds.
unfoldable pub initial : Table
initial = replicate table_size empty

abbrev pub slot : Table → ℕ → Bucket
slot t i = get_or t (i % table_size) empty

-- The loop of `login_limiter_blocked_for`: rounds left, and the index before it is reduced.
unfoldable pub blocked_probe : ℕ → ℕ → ℕ → ℕ → Table → ℕ
blocked_probe zero i key now t = 0
blocked_probe (suc n) i key now t =
    if (slot t i).key == key
    then (if ltb now (slot t i).lock_until then (slot t i).lock_until - now else 0)
    else if (slot t i).key == 0
    then 0
    else blocked_probe n (i + 1) key now t

unfoldable pub blocked_for : Option Table → Bytes → Bytes → ℕ → ℕ
blocked_for none user ip now = 0
blocked_for (some t) user ip now =
    let key = login_key user ip in blocked_probe max_probes (key % table_size) key now t

-- `LOGIN_BACKOFF_BASE << (fail_count - LOGIN_MAX_FAILURES)`, capped.
unfoldable pub backoff : ℕ → Option ℕ
backoff fail_count =
    let seconds = backoff_base * 2 ^ (fail_count - max_failures) in
    if leb (2 ^ 63) seconds
    then none
    else if ltb max_lockout seconds
    then some max_lockout
    else some seconds

-- A hit: the streak is extended or begins anew, and from five failures on the pair is locked.
unfoldable pub extend_streak : Bucket → ℕ → Bucket
extend_streak b now =
    if ltb reset_seconds (now - b.first_fail)
    then record b { first_fail = now; fail_count = 1 }
    else record b { fail_count = b.fail_count + 1 }

unfoldable pub lock_out : Bucket → ℕ → Option Bucket
lock_out b now =
    if leb max_failures b.fail_count
    then elim (backoff b.fail_count) [
      | none ↦ none
      | some seconds ↦ some (record b { lock_until = now + seconds })
    ]
    else some b

unfoldable pub record_failure : Bucket → ℕ → Option Bucket
record_failure b now = lock_out (extend_streak b now) now

unfoldable pub put : Table → ℕ → Option Bucket → Option Table
put t i none = none
put t i (some b) = some (set t (i % table_size) b)

-- The loop of `login_limiter_fail`.
unfoldable pub fail_probe : ℕ → ℕ → ℕ → ℕ → Table → Option Table
fail_probe zero i key now t = some t
fail_probe (suc n) i key now t =
    if (slot t i).key == 0
    then put t i (some (record (slot t i) { key = key; first_fail = now; fail_count = 1 }))
    else if (slot t i).key == key
    then put t i (record_failure (slot t i) now)
    else fail_probe n (i + 1) key now t

abbrev pub lift : (Table → Option Table) → Option Table → Option (Option Table)
lift f none = some none
lift f (some t) = elim (f t) [ none ↦ none | some t' ↦ some (some t') ]

unfoldable pub fail : Option Table → Bytes → Bytes → ℕ → Option (Option Table)
fail table user ip now =
    let key = login_key user ip in lift (fail_probe max_probes (key % table_size) key now) table

-- The loop of `login_limiter_success`.
unfoldable pub success_probe : ℕ → ℕ → ℕ → Table → Table
success_probe zero i key t = t
success_probe (suc n) i key t =
    if (slot t i).key == key
    then set t (i % table_size) (record (slot t i) { key = 0; fail_count = 0; lock_until = 0 })
    else if (slot t i).key == 0
    then t
    else success_probe n (i + 1) key t

unfoldable pub success : Option Table → Bytes → Bytes → Option Table
success none user ip = none
success (some t) user ip =
    let key = login_key user ip in some (success_probe max_probes (key % table_size) key t)
