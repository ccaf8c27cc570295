-- ===== src/Worker/Tests.antt =====
-- The pool: runs, and the theorem at a concrete run.
use agent_httpd.Base.{true, false, [], ◌∷◌, ◌≡◌, refl, arith}
use agent_httpd.Worker.{
  Pool, pool_claim_slot_nb, pool_return_token, drain_slow_queue, Reach, interrupt, drain, here,
  next,
}

-- Two workers of two.
abbrev two : Pool
two = record {
  tokens = 2;
  sent = 0;
  serving = 0;
  returning = 0;
  idle = 2;
  exited = 0;
  lost = 0;
  workers_busy = 0;
  shutdown = false;
}

-- Two of three connections are sent, in order.
drain_slow_queue-two :
    drain_slow_queue (λ fd. true) (7 ∷ 8 ∷ 9 ∷ []) two
    ≡ record { taken = 7 ∷ 8 ∷ []; queue = 9 ∷ []; pool = record two { tokens = 0; sent = 2 } }
unfolding drain_slow_queue pool_claim_slot_nb
drain_slow_queue-two = refl

-- A send that fails takes one from a counter of busy workers that was never raised.
workers_busy-wrapped :
    (drain_slow_queue (λ fd. false) (7 ∷ []) two).pool.workers_busy ≡ 18446744073709551615
unfolding drain_slow_queue pool_claim_slot_nb pool_return_token
workers_busy-wrapped = refl

-- With one worker of two, the second connection is sent although nobody waits for it.
drain_slow_queue-unmanned :
    (drain_slow_queue (λ fd. true) (7 ∷ 8 ∷ []) (record two { idle = 1 })).pool
    ≡ record two { tokens = 0; sent = 2; idle = 1 }
unfolding drain_slow_queue pool_claim_slot_nb
drain_slow_queue-unmanned = refl

abbrev handed : Pool
handed = (drain_slow_queue (λ fd. true) (7 ∷ []) two).pool

-- A signal that does not ask for a shutdown ends both workers; a connection is sent all the same.
deserted :
    Reach two (drain_slow_queue (λ fd. true) (7 ∷ []) (record two { idle = 0; exited = 2 })).pool
deserted =
    let one = record two { idle = 1; exited = 1 } in
    next (next (next here (interrupt two (omega arith))) (interrupt one (omega arith)))
      (drain (record two { idle = 0; exited = 2 }) (λ fd. true) (7 ∷ []))

deserted_sent :
    (drain_slow_queue (λ fd. true) (7 ∷ []) (record two { idle = 0; exited = 2 })).pool.sent ≡ 1
unfolding drain_slow_queue pool_claim_slot_nb
deserted_sent = refl
