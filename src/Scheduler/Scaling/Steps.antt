-- ===== src/Scheduler/Scaling/Steps.antt =====
-- The autoscaler's next number of replicas.
use mikrom.Prelude.{ℕ, ◌+◌, ◌≤◌, ◌<◌, arith}
use mikrom.Scheduler.Worker.{Floats, AppConfig}
use mikrom.Scheduler.Scaling.{autoscale_next_replicas}

-- Whatever the floating-point arithmetic says of the load, the autoscaler moves by one replica at
-- most, and from a number within the app's bounds to a number within them.
pub autoscale_next_replicas-bounds :
    (fl : Floats) (app : AppConfig) (current cpu mem : ℕ)
    → app.min_replicas ≤ current
    → current ≤ app.max_replicas
    → app.max_replicas < 4294967296
    → let next = autoscale_next_replicas fl app current cpu mem in
      (app.min_replicas ≤ next)
      × (next ≤ app.max_replicas)
      × (next ≤ current + 1)
      × (current ≤ next + 1)
unfolding autoscale_next_replicas
autoscale_next_replicas-bounds fl app current cpu mem above below small = ground arith
