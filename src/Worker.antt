-- ===== src/Worker.antt =====
-- The prefork pool: the token pipe and the workers of src/core/worker.c, and `drain_slow_queue` of
-- src/core/event.c, which hands them connections. A pool is numbers: tokens in the pipe, connections sent
-- and not yet received, workers that serve, that have given their token back but do not wait yet, that
-- wait, and that have exited, and the tokens lost with connections whose receipt failed. A pipe takes
-- every token.
pub mod Runs
mod Tests
use agent_httpd.Base.{
  ℕ, zero, suc, ◌+◌, ◌-◌, ◌%◌, ◌^◌, ◌<◌, Bool, true, false, List, [], ◌∷◌, ◌++◌, length, ltb, ◌==◌,
  if◌then◌else◌, Option, none, some, ◌≡◌,
}

pub record Pool : Type 0 where
  pub tokens : ℕ
  pub sent : ℕ
  pub serving : ℕ
  pub returning : ℕ
  pub idle : ℕ
  pub exited : ℕ
  pub lost : ℕ
  pub workers_busy : ℕ
  pub shutdown : Bool

abbrev pub fdpass_max_n : ℕ
fdpass_max_n = 64

-- The number of workers asked for.
abbrev pub clamped : ℕ → ℕ
clamped n = if ltb n 1 then 1 else if ltb fdpass_max_n n then fdpass_max_n else n

-- `start_worker_pool`, where `started` of the forks succeed; `none` is -1.
unfoldable pub start_worker_pool : ℕ → ℕ → Option Pool
start_worker_pool n started =
    if started == 0
    then none
    else some (record {
      tokens = clamped n;
      sent = 0;
      serving = 0;
      returning = 0;
      idle = started;
      exited = 0;
      lost = 0;
      workers_busy = 0;
      shutdown = false;
    })

-- `pool_claim_slot_nb`; `none` is 0.
unfoldable pub pool_claim_slot_nb : Pool → Option Pool
pool_claim_slot_nb p = if p.tokens == 0 then none else some (record p { tokens = p.tokens - 1 })

-- `pool_claim_slot`, where a token is there.
unfoldable pub pool_claim_slot : Pool → Option Pool
pool_claim_slot p =
    if p.tokens == 0
    then none
    else some (record p { tokens = p.tokens - 1; workers_busy = (p.workers_busy + 1) % 2 ^ 64 })

-- `pool_return_token`.
unfoldable pub pool_return_token : Pool → Pool
pool_return_token p = record p {
  tokens = p.tokens + 1;
  workers_busy = (p.workers_busy + (2 ^ 64 - 1)) % 2 ^ 64;
}

-- `pool_dispatch_fd`, and what is done where it fails.
abbrev pub dispatch : Bool → Pool → Pool
dispatch true p = record p { sent = p.sent + 1 }
dispatch false p = pool_return_token p

-- What `drain_slow_queue` leaves: the connections taken off the queue, the queue and the pool.
pub record Drained : Type 0 where
  pub taken : List ℕ
  pub queue : List ℕ
  pub pool : Pool

-- `drain_slow_queue`, with whether a descriptor can be sent.
unfoldable pub drain_slow_queue : (ℕ → Bool) → List ℕ → Pool → Drained
drain_slow_queue sends [] p = record { taken = []; queue = []; pool = p }
drain_slow_queue sends (fd ∷ queue) p = elim (pool_claim_slot_nb p) [
  | none ↦ record { taken = []; queue = fd ∷ queue; pool = p }
  | some q ↦
      let r = drain_slow_queue sends queue (dispatch (sends fd) q) in
      record r { taken = fd ∷ r.taken }
]

abbrev pub event_max_conn : ℕ
event_max_conn = 1024

-- `go_slow`, on the ring of EVENT_MAX_CONN places as a list: whether the connection is kept.
unfoldable pub go_slow : (ℕ → Bool) → ℕ → List ℕ → Pool → Bool × Drained
go_slow sends fd queue p =
    if length queue + 1 == event_max_conn
    then (false, record { taken = []; queue = queue; pool = p })
    else (true, drain_slow_queue sends (queue ++ (fd ∷ [])) p)

-- What the workers do in `worker_loop`: one receives a connection; one is done with its connection and
-- writes its token; behind that it waits again, or exits where the flag is set; a receipt that fails ends
-- the worker, whether a signal interrupts the wait (SIGHUP too, the flag set or not) or a connection came
-- without a descriptor that can be used. The signal to stop sets the flag.
pub data Step : Pool → Pool → Type 0 where
  drain :
      (p : Pool) (sends : ℕ → Bool) (queue : List ℕ) → Step p (drain_slow_queue sends queue p).pool
  receive :
      (p : Pool)
      → 0 < p.sent
      → 0 < p.idle
      → Step p (record p { sent = p.sent - 1; idle = p.idle - 1; serving = p.serving + 1 })
  release :
      (p : Pool)
      → 0 < p.serving
      → Step p
          (record p { serving = p.serving - 1; returning = p.returning + 1; tokens = p.tokens + 1 })
  resume :
      (p : Pool)
      → 0 < p.returning
      → p.shutdown ≡ false
      → Step p (record p { returning = p.returning - 1; idle = p.idle + 1 })
  leave :
      (p : Pool)
      → 0 < p.returning
      → p.shutdown ≡ true
      → Step p (record p { returning = p.returning - 1; exited = p.exited + 1 })
  terminate : (p : Pool) → Step p (record p { shutdown = true })
  interrupt :
      (p : Pool) → 0 < p.idle → Step p (record p { idle = p.idle - 1; exited = p.exited + 1 })
  spoil :
      (p : Pool)
      → 0 < p.sent
      → 0 < p.idle
      → Step p (record p {
        sent = p.sent - 1;
        idle = p.idle - 1;
        exited = p.exited + 1;
        lost = p.lost + 1;
      })

pub data Reach (s : Pool) : Pool → Type 0 where
  here : Reach s s
  next : {p q : Pool} → Reach s p → Step p q → Reach s q
