-- ===== src/Worker/Runs.antt =====
-- Any run of the pool of src/core/worker.c.
use agent_httpd.Base.{ℕ, ◌+◌, ◌≤◌, ◌≡◌}
use agent_httpd.Worker.{Pool}

-- The tokens out, in and lost are `n`, the workers are `m`, and a token is lost with a worker only.
pub record IsPool (n m : ℕ) (p : Pool) : Type 0 where
  pub counted : p.tokens + p.sent + p.serving + p.lost ≡ n
  pub manned : p.idle + p.returning + p.serving + p.exited ≡ m
  pub spoiled : p.lost ≤ p.exited
