-- ===== src/Scheduler/Scaling.antt =====
-- `ScalingService`: mikrom-scheduler/src/application/scaling.rs, and `autoscale_next_replicas` of
-- application/mod.rs.
pub mod Replicas
pub mod Reached
pub mod Steps
pub mod Success
use mikrom.Prelude.{
  ℕ, zero, suc, ◌+◌, ◌-◌, ◌%◌, ◌^◌, String, Bool, true, false, not, ◌&&◌, ◌||◌, Option, none, some,
  List, [], ◌∷◌, if◌then◌else◌, same, ltb, leb, ◌==◌, min, is_some, unwrap_or, length, take, keep,
  first, stable_sort,
}
use mikrom.Scheduler.Job.{
  Job, JobStatus, pending, scheduled, running, paused, is_active, status_code, DomainError,
  infrastructure,
}
use mikrom.Scheduler.Worker.{Floats, AppConfig, SchedulingStrategy, least_loaded}
use mikrom.Scheduler.World.{Env, M, Result, ok, err, pure, throw, attempt, clock, ◌>>=◌, ◌>>◌}
use mikrom.Scheduler.Store.Jobs.{list_jobs}
use mikrom.Scheduler.Store.Apps.{get_app_config, update_app_config}
use mikrom.Scheduler.Lifecycle.{pause_app, resume_app, delete_app}
use mikrom.Scheduler.Deployment.{DeployAppParams, deploy_app}

-- `as u32`, and `saturating_add` on `u32`.
abbrev pub u32 : ℕ → ℕ
u32 n = n % 2 ^ 32

abbrev pub saturating_suc : ℕ → ℕ
saturating_suc n = min (n + 1) 4294967295

-- One more replica above a threshold, one less below half of both; the ratio is 0.5.
unfoldable pub autoscale_next_replicas : Floats → AppConfig → ℕ → ℕ → ℕ → ℕ
autoscale_next_replicas fl app current_count avg_cpu avg_mem =
    let cpu = fl.widen avg_cpu in
    let mem = fl.widen avg_mem in
    let half = fl.lit64 5 1 in
    if fl.lt64 app.cpu_threshold cpu || fl.lt64 app.mem_threshold mem
    then min (saturating_suc current_count) app.max_replicas
    else if fl.lt64 cpu (fl.mul64 app.cpu_threshold half)
        && (fl.lt64 mem (fl.mul64 app.mem_threshold half) && ltb app.min_replicas current_count)
    then current_count - 1
    else current_count

-- The replicas of an app, among a tenant's jobs.
abbrev pub is_replica : String → Job → Bool
is_replica app_id j = same j.app_id app_id && is_active j.status

abbrev pub is_paused : Job → Bool
is_paused j = status_code j.status == status_code paused

-- `sort_by_key(Reverse(created_at))`
abbrev pub newest_first : Job → Job → Bool
newest_first a b = leb b.created_at a.created_at

-- The key by which jobs are removed: those that run last.
abbrev pub removal_rank : JobStatus → ℕ
removal_rank pending = 0
removal_rank scheduled = 1
removal_rank running = 2
removal_rank _ = 3

abbrev pub removed_before : Job → Job → Bool
removed_before a b = leb (removal_rank a.status) (removal_rank b.status)

abbrev pub has_machine : Job → Bool
has_machine j = is_some j.host_id && is_some j.vm_id

abbrev pub is_empty {ℓ} : {A : Type ℓ} → List A → Bool
is_empty [] = true
is_empty (_ ∷ _) = false

module _ (env : Env) where
  -- The candidates are resumed in turn; an error is only logged.
  resume_paused : String → List Job → ℕ → M ℕ
  resume_paused tenant_id [] resumed = pure resumed
  resume_paused tenant_id (j ∷ js) resumed =
      if has_machine j
      then (do
        r ← attempt (resume_app env j.job_id tenant_id)
        resume_paused tenant_id js
            (elim r [ ok b ↦ if b then resumed + 1 else resumed | err _ ↦ resumed ]))
      else resume_paused tenant_id js resumed

  -- The deployments, each from the template; the errors are collected. `join_all` starts them
  -- together: this is the schedule in which each runs before the next.
  pub deploy_replicas : DeployAppParams → ℕ → M (List DomainError)
  deploy_replicas params zero = pure []
  deploy_replicas params (suc n) = do
    r ← attempt (deploy_app env params)
    errors ← deploy_replicas params n
    pure (elim r [ ok _ ↦ errors | err e ↦ e ∷ errors ])

  abbrev pub template_params : Job → String → DeployAppParams
  template_params t vpc_prefix = record {
    app_id = t.app_id;
    app_name = t.app_name;
    image = t.image;
    tenant_id = t.tenant_id;
    deployment_id = unwrap_or t.deployment_id "";
    vpc_ipv6_prefix = vpc_prefix;
    config = t.config;
    strategy = least_loaded;
  }

  -- An active job, else a paused one, else the newest of the app's jobs.
  find_template : String → String → List Job → List Job → M (Option Job)
  unfolding list_jobs
  find_template app_id tenant_id (j ∷ _) paused_jobs = pure (some j)
  find_template app_id tenant_id [] (j ∷ _) = pure (some j)
  find_template app_id tenant_id [] [] = do
    all_jobs ← list_jobs env (some tenant_id) (some app_id) none
    pure (first (stable_sort newest_first all_jobs))

  deploy_from : Job → String → ℕ → M (Unit {0})
  unfolding deploy_replicas
  deploy_from template vpc_prefix to_add = do
    errors ← deploy_replicas (template_params template vpc_prefix) to_add
    elim errors [
      | [] ↦ pure tt
      | e ∷ es ↦ throw (infrastructure (env.deploy_failure (length (e ∷ es)) to_add e))
    ]

  pub add_replicas : String → String → List Job → List Job → ℕ → M (Unit {0})
  unfolding get_app_config find_template deploy_from
  add_replicas app_id tenant_id active_jobs paused_jobs to_add =
      if to_add == 0 then pure tt else (do
        app_config ← get_app_config env app_id
        template ← find_template app_id tenant_id active_jobs paused_jobs
        elim template [
          | none ↦ pure tt
          | some t ↦
              deploy_from t (elim app_config [ none ↦ "" | some c ↦ c.vpc_ipv6_prefix ]) to_add
        ])

  -- From zero, paused jobs are resumed first, the newest first.
  pub scale_up : String → String → List Job → List Job → ℕ → ℕ → M (Unit {0})
  unfolding resume_paused add_replicas
  scale_up app_id tenant_id active_jobs paused_jobs current_count desired_replicas =
      let to_add = desired_replicas - current_count in
      if current_count == 0 && not (is_empty paused_jobs)
      then (do
        resumed ← resume_paused tenant_id (take to_add (stable_sort newest_first paused_jobs)) 0
        add_replicas app_id tenant_id active_jobs paused_jobs (to_add - resumed))
      else add_replicas app_id tenant_id active_jobs paused_jobs to_add

  -- To zero, machines are put to sleep; otherwise jobs are deleted. The first error ends the loop.
  pub remove_replicas : ℕ → String → List Job → M (Unit {0})
  remove_replicas desired_replicas tenant_id [] = pure tt
  remove_replicas desired_replicas tenant_id (j ∷ js) = do
    if desired_replicas == 0 && has_machine j
        then pause_app env j.job_id tenant_id
        else delete_app env j.job_id tenant_id
    remove_replicas desired_replicas tenant_id js

  -- `scale_app` from the two listings on.
  unfoldable pub scale_listed : String → ℕ → String → List Job → List Job → M (Unit {0})
  unfolding scale_up remove_replicas
  scale_listed app_id desired_replicas tenant_id active_jobs paused_jobs =
      let current_count = u32 (length active_jobs) in
      if current_count == desired_replicas
      then pure tt
      else if ltb current_count desired_replicas
      then scale_up app_id tenant_id active_jobs paused_jobs current_count desired_replicas
      else remove_replicas desired_replicas tenant_id
          (take (current_count - desired_replicas) (stable_sort removed_before active_jobs))

  unfoldable pub scale_app : String → ℕ → String → M (Unit {0})
  unfolding list_jobs scale_listed
  scale_app app_id desired_replicas tenant_id = do
    jobs ← list_jobs env (some tenant_id) none none
    listed ← list_jobs env (some tenant_id) (some app_id) none
    scale_listed app_id desired_replicas tenant_id (keep (is_replica app_id) jobs)
        (keep is_paused listed)
