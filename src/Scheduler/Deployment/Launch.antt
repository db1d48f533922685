-- ===== src/Scheduler/Deployment/Launch.antt =====
-- `deploy_app` adds one running job, or takes back what it did.
use mikrom.Prelude.{
  ◌≤◌, ◌<◌, inl, List, refl, keep, stable_sort, ℕ, suc, ◌+◌, ◌-◌, String, ◌≡◌, ◌⊎◌, true, none,
  some, is_some, [], ◌∷◌, ◌++◌, arith, same_refl,
}
use mikrom.Scheduler.Job.{Job, VmConfig, running}
use mikrom.Scheduler.Worker.{Worker, SchedulingStrategy}
use mikrom.Scheduler.Store.Workers.{is_available, by_id}
use mikrom.Scheduler.World.{Env, World, Result, ok, err, AgentCall, step_tick}
use mikrom.Scheduler.Store.Jobs.{find_job, inserted_row}
use mikrom.Scheduler.Store.Jobs.Rows.{without-append_new, update_where-append_new}
use mikrom.Scheduler.Deployment.{
  DeployAppParams, launch, choose, select_from, select_best_worker, is_viable, scheduled_job,
  deploy_on, deploy_app, apply_ipv6_assignment,
}

-- The row that stands for a job once it runs: the time of scheduling was not stored.
abbrev pub running_row : Job → ℕ → Job
running_row j at = record (inserted_row j) { status = running; started_at = some at }

module _ (env : Env) where
  -- The last call failed, and so did the call before it or the fourth last.
  abbrev pub FailedTwice : World → Type 0
  FailedTwice w' =
      (is_some (env.fault (w'.tick - 1)) ≡ true)
      × ((is_some (env.fault (w'.tick - 2)) ≡ true) ⊎ (is_some (env.fault (w'.tick - 4)) ≡ true))

  module _ (j : Job) (host_id vm_id : String) (w : World) where
    -- Nothing is left of a failed launch, unless a call of its clean-up failed too.
    abbrev pub Launched : Result Job × World → Type 0
    Launched (ok d, w') =
        (w'.jobs ≡ w.jobs ++ running_row j (env.now (w.tick + 2)) ∷ [])
        × (w'.agent_calls ≡ AgentCall.start_vm host_id vm_id ∷ w.agent_calls)
        × (d.job_id ≡ j.job_id)
        × (d.status ≡ running)
        × (d.scheduled_at ≡ j.scheduled_at)
        × (w.tick < w'.tick)
    Launched (err _, w') = ((w'.jobs ≡ w.jobs) ⊎ FailedTwice w') × (w.tick ≤ w'.tick)

    launch-Launched : find_job j.job_id w.jobs ≡ none → Launched (launch env j host_id vm_id w)
    unfolding launch
    launch-Launched fresh = ground (
      arith,
      same_refl j.job_id,
      without-append_new j.job_id (inserted_row j) w.jobs fresh,
      update_where-append_new j.job_id (inserted_row j)
          (λ x. record x { status = running; started_at = some (env.now (suc (suc w.tick))) })
          w.jobs fresh,
      without-append_new j.job_id (running_row j (env.now (suc (suc w.tick)))) w.jobs fresh,
    )

  -- Choosing a worker reads the tables and changes none.
  pub record Unchanged (w w' : World) : Type 0 where
    pub jobs_same : w'.jobs ≡ w.jobs
    pub calls_same : w'.agent_calls ≡ w.agent_calls
    pub later : w.tick ≤ w'.tick

  choose-Unchanged :
      (app_id : String) (strategy : SchedulingStrategy) (wks : List Worker) (w : World)
      → Unchanged w (choose env app_id strategy wks w).1
  unfolding choose
  choose-Unchanged app_id strategy [] w = ground arith
  choose-Unchanged app_id strategy (wk ∷ wks) w = ground arith

  select_from-Unchanged :
      (config : VmConfig) (app_id : String) (strategy : SchedulingStrategy) (wks : List Worker)
      (w : World)
      → Unchanged w (select_from env config app_id strategy wks w).1
  unfolding select_from
  select_from-Unchanged config app_id strategy [] w = ground arith
  select_from-Unchanged config app_id strategy (wk ∷ wks) w =
      choose-Unchanged app_id strategy (keep (is_viable config) (wk ∷ wks)) w

  pub select_best_worker-Unchanged :
      (config : VmConfig) (app_id : String) (strategy : SchedulingStrategy) (w : World)
      → Unchanged w (select_best_worker env config app_id strategy w).1
  unfolding select_best_worker
  select_best_worker-Unchanged config app_id strategy w = ground (
    arith,
    select_from-Unchanged config app_id strategy
        (stable_sort (by_id env) (keep (is_available (env.now w.tick) 30) w.workers)) (step_tick w),
  )

  module _ (params : DeployAppParams) (w : World) where
    -- The row that a deployment adds.
    pub record Replica (row : Job) : Type 0 where
      pub identified : row.job_id ≡ env.job_uuid w.tick
      pub of_app : row.app_id ≡ params.app_id
      pub of_tenant : row.tenant_id ≡ params.tenant_id
      pub runs : row.status ≡ running
      pub unscheduled : row.scheduled_at ≡ none

    abbrev pub Deployed : Result Job × World → Type 0
    Deployed (ok d, w') =
        (row : Job) × (w'.jobs ≡ w.jobs ++ row ∷ [])
        × Replica row
        × (d.job_id ≡ row.job_id)
        × (is_some d.scheduled_at ≡ true)
        × (w.tick < w'.tick)
    Deployed (err _, w') = ((w'.jobs ≡ w.jobs) ⊎ FailedTwice w') × (w.tick ≤ w'.tick)

    from_launch :
        (vm_id : String) (wk : Worker) (created at : ℕ) (w₁ : World)
        → let j = scheduled_job env params (env.job_uuid w.tick) vm_id wk created at in
          (r : Result Job × World) → Unchanged w w₁ → Launched j wk.host_id vm_id w₁ r → Deployed r
    from_launch vm_id wk created at w₁ (ok d, w') same l =
        let j = scheduled_job env params (env.job_uuid w.tick) vm_id wk created at in
        (
          running_row j (env.now (w₁.tick + 2)),
          rw (← same.jobs_same) (l.0),
          record {
            identified = refl;
            of_app = refl;
            of_tenant = refl;
            runs = refl;
            unscheduled = refl;
          },
          l.2,
          rw (l.4) refl,
          omega (arith, l.5, same.later),
        )
    from_launch vm_id wk created at w₁ (err e, w') same l = ground arith

    from_choice :
        (vm_id : String) (wk : Worker) (w₁ : World)
        → find_job (env.job_uuid w.tick) w.jobs ≡ none
        → Unchanged w w₁
        → Deployed (deploy_on env params (env.job_uuid w.tick) vm_id wk w₁)
    unfolding deploy_on
    from_choice vm_id wk w₁ fresh same =
        let now = env.now w₁.tick in
        from_launch vm_id wk now now w₁ _ same (
          launch-Launched (scheduled_job env params (env.job_uuid w.tick) vm_id wk now now)
            wk.host_id vm_id w₁ (rw (same.jobs_same) fresh))

    after_choice :
        (vm_id : String) (r : Result Worker × World)
        → find_job (env.job_uuid w.tick) w.jobs ≡ none
        → Unchanged w r.1
        → Deployed (elim r.0 as (λ _. Result Job × World) [
          | ok wk ↦ deploy_on env params (env.job_uuid w.tick) vm_id wk r.1
          | err e ↦ (err e, r.1)
        ])
    after_choice vm_id (ok wk, w₁) fresh same = from_choice vm_id wk w₁ fresh same
    after_choice vm_id (err e, w₁) fresh same = (inl same.jobs_same, same.later)

    -- When the new identifier is not yet in the table, `deploy_app` either succeeds and has added
    -- exactly one row, of a running job with that identifier for the app and tenant asked for; or it
    -- returns an error and the jobs table is as it was, unless two calls failed: the very last one,
    -- and the one before it or the fourth last. The job that it returns carries the time of its
    -- scheduling, the stored row does not.
    pub deploy_app-Deployed :
        find_job (env.job_uuid w.tick) w.jobs ≡ none → Deployed (deploy_app env params w)
    unfolding deploy_app
    deploy_app-Deployed fresh =
        let config =
          apply_ipv6_assignment env params.config (env.job_uuid w.tick) params.vpc_ipv6_prefix in
        after_choice (env.vm_uuid w.tick)
          (select_best_worker env config params.app_id params.strategy w) fresh
          (select_best_worker-Unchanged config params.app_id params.strategy w)
