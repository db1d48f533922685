-- ===== src/Scheduler/Reconcile/Asleep.antt =====
-- What the autoscaler loop does with an app that sleeps.
use mikrom.Prelude.{
  ℕ, ◌≤◌, ◌<◌, ◌≡◌, refl, true, false, Option, none, List, [], ◌∷◌, arith, same, tally, String,
}
use mikrom.Scheduler.Job.{Job}
use mikrom.Scheduler.Worker.{Floats, AppConfig, Worker}
use mikrom.Scheduler.World.{Env, World, ok}
use mikrom.Scheduler.Scaling.{scale_app}
use mikrom.Scheduler.Reconcile.{sum_usage, reconcile_each}

sum_usage_none :
    (fl : Floats) (workers : List Worker) (app_id : String) (js : List Job) (sums : Option (ℕ × ℕ))
    → tally (λ j. same j.app_id app_id) js ≡ 0
    → sum_usage fl workers app_id js sums ≡ sums
unfolding sum_usage
sum_usage_none fl workers app_id [] sums e = refl
sum_usage_none fl workers app_id (j ∷ js) sums e =
    ground (arith, sum_usage_none fl workers app_id js sums)

module _ (env : Env) (app : AppConfig) (active : List Job) (workers : List Worker) (now : ℕ)
    (w : World) (sleeps : tally (λ j. same j.app_id app.id) active ≡ 0)
    (may_sleep : app.min_replicas ≡ 0) (slept : 0 < app.last_scaled_to_zero_at) where
  -- An app of which no replica is active, which may sleep and has slept before, is left alone by the
  -- autoscaler, without a call to the database or an agent, if it is scaled automatically and saw no
  -- traffic since it was put to sleep.
  pub autoscaled_sleeps :
      app.autoscaling_enabled ≡ true
      → app.last_router_traffic_at ≤ app.last_scaled_to_zero_at
      → reconcile_each env (app ∷ []) active workers now w ≡ (ok tt, w)
  unfolding reconcile_each
  autoscaled_sleeps auto quiet = ground (arith, sum_usage_none env.fl workers app.id active none)

  -- An app of which no replica is active, which may sleep and has slept before, is also left alone
  -- when it wants replicas and there was traffic since it was put to sleep, as long as the time to
  -- try another restore has not come.
  pub backing_off_sleeps :
      0 < app.desired_replicas
      → app.last_scaled_to_zero_at < app.last_router_traffic_at
      → now < app.restore_retry_after_at
      → reconcile_each env (app ∷ []) active workers now w ≡ (ok tt, w)
  unfolding reconcile_each
  backing_off_sleeps wanted traffic early = ground arith

  -- If an app of which no replica is active, which may sleep and has slept before, is scaled by
  -- hand and wants replicas, the loop scales it back to its desired number at once, with no traffic
  -- since it was put to sleep, and before the time to try another restore has come.
  pub manual_wakes :
      app.autoscaling_enabled ≡ false
      → 0 < app.desired_replicas
      → app.last_router_traffic_at ≤ app.last_scaled_to_zero_at
      → now < app.restore_retry_after_at
      → reconcile_each env (app ∷ []) active workers now w
        ≡ (ok tt, (scale_app env app.id app.desired_replicas app.tenant_id w).1)
  unfolding reconcile_each
  manual_wakes manual wanted quiet early = ground arith
