-- ===== src/RateLimit.antt =====
-- The request limiter: the token buckets of src/security/ratelimit.c. The shared table is a list of
-- 4096 slots, or nothing where the limiter is off or the mapping failed at startup; a critical section
-- is one step, and the time is an argument, in seconds since the epoch. The refill is computed in `int`:
-- the elapsed seconds are cut to 32 bits, and where a product or a sum does not fit an int, C gives it no
-- meaning, and the model gives `none`. The int `tokens` is kept as `tokens - debt`, one of which is 0: cut
-- to 32 bits a long pause can be negative.
pub mod Spend
pub mod Slots
pub mod Step
pub mod Budget
pub mod Overflow
pub mod Trusted
pub mod Hop
mod Tests
use Prim.Native.Nat.{bit_xor}
use agent_httpd.Base.{
  ℕ, zero, suc, ◌+◌, ◌-◌, ◌*◌, ◌/◌, ◌%◌, ◌^◌, min, Bool, true, false, ◌&&◌, Option, none, some,
  List, get_or, set, replicate, ltb, leb, ◌==◌, if◌then◌else◌, and_then,
}

abbrev pub rate_table_size : ℕ
rate_table_size = 4096

abbrev pub rate_max_probes : ℕ
rate_max_probes = 8

pub record Bucket : Type 0 where
  pub ip : ℕ
  pub ts : ℕ
  pub tokens : ℕ
  pub debt : ℕ
  pub used : Bool

abbrev pub unclaimed : Bucket
unclaimed = record { ip = 0; ts = 0; tokens = 0; debt = 0; used = false }

abbrev pub Table : Type 0
Table = List Bucket

-- `mix_ip`, on an `unsigned int`.
unfoldable pub mix_ip : ℕ → ℕ
mix_ip x =
    let a = bit_xor x (x / 2 ^ 16) * 0x7feb352d % 2 ^ 32 in
    let b = bit_xor a (a / 2 ^ 15) * 0x846ca68b % 2 ^ 32 in bit_xor b (b / 2 ^ 16)

abbrev pub slot : ℕ → ℕ → ℕ
slot base i = (base + i) % rate_table_size

-- `(int)(now - b->ts)` by its 32 bits.
abbrev pub elapsed : ℕ → ℕ → ℕ
elapsed now ts = (now - ts) % 2 ^ 32

-- That int times `cap`, above 0 and below it.
abbrev pub gain : ℕ → ℕ → ℕ
gain rps e = if ltb e (2 ^ 31) then e * rps else 0

abbrev pub loss : ℕ → ℕ → ℕ
loss rps e = if ltb e (2 ^ 31) then 0 else (2 ^ 32 - e) * rps

-- Whether `up - down` is an int.
abbrev pub is_int : ℕ → ℕ → Bool
is_int up down = ltb up (2 ^ 31 + down) && leb down (2 ^ 31 + up)

-- The first `if` of `bucket_spend`.
unfoldable pub refill : ℕ → ℕ → Bucket → Option Bucket
refill rps now b =
    let e = elapsed now b.ts in
    let up = b.tokens + gain rps e in
    let down = b.debt + loss rps e in
    if ltb b.ts now
    then (if is_int (gain rps e) (loss rps e) && is_int up down
        then some (record b { tokens = min (up - down) rps; debt = down - up; ts = now })
        else none)
    else some b

-- The second.
unfoldable pub take_token : Bucket → Bool × Bucket
take_token b = if leb 1 b.tokens then (true, record b { tokens = b.tokens - 1 }) else (false, b)

-- `bucket_spend`.
unfoldable pub bucket_spend : ℕ → ℕ → Bucket → Option (Bool × Bucket)
bucket_spend rps now b = and_then (refill rps now b) (λ b'. some (take_token b'))

abbrev pub claimed : ℕ → ℕ → ℕ → Bucket
claimed rps now ip = record { ip = ip; ts = now; tokens = rps - 1; debt = 0; used = true }

-- A spent bucket back in its slot.
abbrev pub store : Table → ℕ → Option (Bool × Bucket) → Option (Bool × Table)
store table k o = and_then o (λ r. some (r.0, set table k r.1))

-- The probe loop of `rate_limit_allow` with what follows it; `left` probes are to come.
unfoldable pub probe : ℕ → ℕ → ℕ → ℕ → Table → ℕ → ℕ → Option (Bool × Table)
probe rps now ip base table zero i =
    store table base (bucket_spend rps now (get_or table base unclaimed))
probe rps now ip base table (suc left) i =
    let k = slot base i in
    let b = get_or table k unclaimed in
    let next = probe rps now ip base table left (suc i) in
    if b.used
    then (if b.ip == ip then store table k (bucket_spend rps now b) else next)
    else some (true, set table k (claimed rps now ip))

-- `rate_limit_allow` with the limiter on.
unfoldable pub allow : ℕ → ℕ → ℕ → Table → Option (Bool × Table)
allow rps now ip table = probe rps now ip (mix_ip ip % rate_table_size) table rate_max_probes 0

-- `rate_limit_allow`.
unfoldable pub rate_limit_allow : ℕ → ℕ → ℕ → Option Table → Option (Bool × Option Table)
rate_limit_allow rps now ip none = some (true, none)
rate_limit_allow rps now ip (some table) =
    if rps == 0
    then some (true, some table)
    else and_then (allow rps now ip table) (λ r. some (r.0, some r.1))

-- `rate_limit_init`; did `mmap` succeed?
unfoldable pub rate_limit_init : ℕ → Bool → Option Table
rate_limit_init rps mapped =
    if rps == 0 then none else if mapped then some (replicate rate_table_size unclaimed) else none
