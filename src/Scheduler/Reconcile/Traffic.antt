-- ===== src/Scheduler/Reconcile/Traffic.antt =====
-- Router traffic for an app.
use mikrom.Prelude.{
  ℕ, ◌+◌, ◌≤◌, ◌<◌, ◌≡◌, ◌⊎◌, true, ◌&&◌, none, some, arith, same, find, keep, tally, String,
}
use mikrom.Scheduler.Job.{is_active}
use mikrom.Scheduler.Worker.{AppConfig}
use mikrom.Scheduler.World.{Env, World}
use mikrom.Scheduler.Store.Apps.{upsert_app}
use mikrom.Scheduler.Scaling.{scale_app}
use mikrom.Scheduler.Reconcile.{process_router_traffic}

module _ (env : Env) (hostname : String) (at : ℕ) (w : World) (a : AppConfig)
    (known : find (λ x. same x.hostname hostname) w.apps ≡ some a) (timed : 0 < at) where
  -- While another restore of the app must not be tried yet, its traffic changes no job and calls no
  -- agent, whatever fails; what it may change is that the time of the traffic is saved.
  pub traffic_backs_off :
      at < a.restore_retry_after_at
      → let w' = (process_router_traffic env hostname at w).1 in
        (w'.jobs ≡ w.jobs)
        × (w'.agent_calls ≡ w.agent_calls)
        × ((w'.apps ≡ w.apps)
            ⊎ (w'.apps ≡ upsert_app (record a { last_router_traffic_at = at }) w.apps))
  unfolding process_router_traffic
  traffic_backs_off early = ground arith

  -- Traffic for an app that wants replicas and has no active one asks `scale_app` for the desired
  -- number, after the time of the traffic is saved, if no restore is held back and the first three
  -- calls of the database succeed; and the jobs and the calls of agents are then those of `scale_app`.
  pub traffic_wakes :
      env.fault w.tick ≡ none
      → env.fault (w.tick + 1) ≡ none
      → env.fault (w.tick + 2) ≡ none
      → tally
          (λ j. is_active j.status)
          (keep (λ j. same j.tenant_id a.tenant_id && (same j.app_id a.id && true)) w.jobs)
        ≡ 0
      → 0 < a.desired_replicas
      → a.restore_retry_after_at ≤ at
      → let saved = record w {
        apps = upsert_app (record a { last_router_traffic_at = at }) w.apps;
        tick = w.tick + 3;
      } in
        let w' = (process_router_traffic env hostname at w).1 in
        let scaled = (scale_app env a.id a.desired_replicas a.tenant_id saved).1 in
        (w'.jobs ≡ scaled.jobs) × (w'.agent_calls ≡ scaled.agent_calls)
  unfolding process_router_traffic
  traffic_wakes f0 f1 f2 none_active wanted free = ground arith
