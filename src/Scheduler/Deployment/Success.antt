-- ===== src/Scheduler/Deployment/Success.antt =====
-- Deployment succeeds when nothing fails and some worker is fit.
use mikrom.Prelude.{ℕ, suc, String, ◌≡◌, true, none, arith, Member, tally_zero, and_left}
use mikrom.Scheduler.Job.{
  Job, VmConfig, no_workers, no_fit, ip_pool_exhausted, job_not_found, infrastructure, unauthorized,
  invalid_request,
}
use mikrom.Scheduler.Worker.{Worker}
use mikrom.Scheduler.World.{Env, World, Result, ok, err, is_ok}
use mikrom.Scheduler.Store.Jobs.{find_job}
use mikrom.Scheduler.Store.Workers.{is_available}
use mikrom.Scheduler.Deployment.{
  DeployAppParams, launch, deploy_on, deploy_app, is_viable, apply_ipv6_assignment,
  select_best_worker, scheduled_job,
}
use mikrom.Scheduler.Deployment.Launch.{Unchanged, select_best_worker-Unchanged}
use mikrom.Scheduler.Deployment.Selection.Placement.{
  candidate, Selected, select_best_worker-Selected,
}

module _ (env : Env) (works : (n : ℕ) → env.fault n ≡ none) where
  launch-is_ok :
      (j : Job) (host_id vm_id : String) (w : World)
      → find_job j.job_id w.jobs ≡ none
      → is_ok (launch env j host_id vm_id w).0 ≡ true
  unfolding launch
  launch-is_ok j host_id vm_id w fresh =
      ground (arith, works w.tick, works (suc w.tick), works (suc (suc w.tick)))

  module _ (params : DeployAppParams) (w : World) (v : Worker)
      (fresh : find_job (env.job_uuid w.tick) w.jobs ≡ none) (listed : Member v w.workers) where
    abbrev placed_config : VmConfig
    placed_config =
        apply_ipv6_assignment env params.config (env.job_uuid w.tick) params.vpc_ipv6_prefix

    candidate-placed :
        candidate env params.config w v ≡ true → candidate env placed_config w v ≡ true
    unfolding apply_ipv6_assignment is_viable
    candidate-placed fit = ground (arith, fit)

    after_choice :
        (vm_id : String) (r : Result Worker × World)
        → candidate env placed_config w v ≡ true
        → Selected env placed_config w r
        → Unchanged env w r.1
        → is_ok
            (elim r.0 as (λ _. Result Job × World) [
              | ok wk ↦ deploy_on env params (env.job_uuid w.tick) vm_id wk r.1
              | err e ↦ (err e, r.1)
            ]).0
          ≡ true
    unfolding deploy_on
    after_choice vm_id (ok wk, w') fit s same =
        launch-is_ok
          (scheduled_job env params (env.job_uuid w.tick) vm_id wk (env.now w'.tick)
            (env.now w'.tick))
          wk.host_id vm_id w' (rw (same.jobs_same) fresh)
    after_choice vm_id (err no_workers, w') fit s same = ground (
      arith,
      tally_zero (is_available (env.now w.tick) 30) v w.workers s listed,
      and_left (is_available (env.now w.tick) 30 v) (is_viable placed_config v) fit,
    )
    after_choice vm_id (err no_fit, w') fit s same =
        ground (arith, tally_zero (candidate env placed_config w) v w.workers s listed)
    after_choice vm_id (err ip_pool_exhausted, w') fit s same = absurd s
    after_choice vm_id (err (job_not_found _), w') fit s same = absurd s
    after_choice vm_id (err (infrastructure _), w') fit s same = absurd s
    after_choice vm_id (err (unauthorized _), w') fit s same = absurd s
    after_choice vm_id (err (invalid_request _), w') fit s same = absurd s

    -- When no outside call fails, the new identifier is not yet in the table, and some worker of the
    -- table is online, was heard of in the last 30 seconds, has metrics, supports the hypervisor and
    -- has room, `deploy_app` succeeds.
    pub deploy_app_succeeds :
        candidate env params.config w v ≡ true → is_ok (deploy_app env params w).0 ≡ true
    unfolding deploy_app
    deploy_app_succeeds fit =
        after_choice (env.vm_uuid w.tick)
          (select_best_worker env placed_config params.app_id params.strategy w)
          (candidate-placed fit)
          (select_best_worker-Selected env placed_config params.app_id params.strategy w
            (works w.tick) (works (suc w.tick)))
          (select_best_worker-Unchanged env placed_config params.app_id params.strategy w)
