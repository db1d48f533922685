-- ===== src/Scheduler/Reconcile.antt =====
-- The autoscaler loop: `reconcile_apps` of mikrom-scheduler/src/application/scaling.rs, and
-- `process_router_traffic` of mikrom-scheduler/src/application/router_restore.rs.
pub mod Total
pub mod Asleep
pub mod Traffic
use mikrom.Prelude.{
  ℕ, zero, suc, ◌+◌, String, Bool, true, false, not, ◌&&◌, Option, none, some, List, [], ◌∷◌,
  if◌then◌else◌, same, ltb, leb, ◌==◌, find, keep, tally,
}
use mikrom.Scheduler.Job.{Job, JobStatus, is_active}
use mikrom.Scheduler.Worker.{Floats, AppConfig, HostMetrics, VmMetrics, Worker}
use mikrom.Scheduler.World.{Env, M, Result, ok, err, pure, attempt, clock, ◌>>=◌, ◌>>◌}
use mikrom.Scheduler.Store.Jobs.{list_jobs}
use mikrom.Scheduler.Store.Apps.{update_app_config, list_all_apps, get_app_config_by_hostname}
use mikrom.Scheduler.Store.Workers.{is_worker, list_workers}
use mikrom.Scheduler.Scaling.{u32, autoscale_next_replicas, scale_app}

-- `worker_map.get(h)?.metrics?.vms.get(v)` of a job's host and machine
vm_metrics_of : List Worker → Job → Option VmMetrics
vm_metrics_of workers j = elim j.host_id [
  | none ↦ none
  | some h ↦ elim j.vm_id [
    | none ↦ none
    | some v ↦ elim (find (is_worker h) workers) [
      | none ↦ none
      | some wk ↦ elim wk.metrics [
        | none ↦ none
        | some m ↦ elim (find (λ (entry : String × VmMetrics). same entry.0 v) m.vms) [
          | none ↦ none
          | some entry ↦ some entry.1
        ]
      ]
    ]
  ]
]

-- The sums of an app's CPU and memory use, in the order of the jobs.
abbrev add_usage : Floats → Job → VmMetrics → Option (ℕ × ℕ) → Option (ℕ × ℕ)
add_usage fl j m sums =
    let zero_usage = fl.lit 0 0 in
    let sum : ℕ × ℕ = elim sums [ none ↦ (zero_usage, zero_usage) | some s ↦ s ] in
    let kib = fl.lit 1024 0 in
    let used = fl.div (fl.of_nat m.ram_used_bytes) (fl.of_nat j.config.memory_mib) in
    some (
      fl.add sum.0 m.cpu_usage,
      fl.add sum.1 (fl.mul (fl.div (fl.div used kib) kib) (fl.lit 100 0)),
    )

pub sum_usage : Floats → List Worker → String → List Job → Option (ℕ × ℕ) → Option (ℕ × ℕ)
unfolding vm_metrics_of
sum_usage fl workers app_id [] sums = sums
sum_usage fl workers app_id (j ∷ js) sums = sum_usage fl workers app_id js (
    if same j.app_id app_id
    then elim (vm_metrics_of workers j) [ none ↦ sums | some m ↦ add_usage fl j m sums ]
    else sums)

module _ (env : Env) where
  -- `update_app_config_best_effort`: an error is only logged.
  abbrev pub save_best_effort : AppConfig → M (Unit {0})
  save_best_effort app = do attempt (update_app_config env app); pure tt

  init_traffic : AppConfig → ℕ → ℕ → M AppConfig
  unfolding update_app_config
  init_traffic app current_count now =
      if ltb 0 current_count
        && (app.min_replicas == 0
            && (ltb 0 app.desired_replicas && app.last_router_traffic_at == 0))
      then (do
        let seen = record app { last_router_traffic_at = now }
        save_best_effort seen
        pure seen)
      else pure app

  clear_backoff : AppConfig → ℕ → M AppConfig
  unfolding update_app_config
  clear_backoff app current_count =
      if ltb 0 current_count && ltb 0 app.restore_retry_after_at
      then (do
        let cleared = record app { restore_retry_after_at = 0 }
        save_best_effort cleared
        pure cleared)
      else pure app

  reconcile_app_state_initialization : AppConfig → ℕ → ℕ → M AppConfig
  unfolding init_traffic clear_backoff
  reconcile_app_state_initialization app current_count now = do
    seen ← init_traffic app current_count now
    clear_backoff seen current_count

  -- Whether the app is dealt with, and the app as it is now.
  reconcile_idle_timeout : AppConfig → ℕ → ℕ → M (Bool × AppConfig)
  unfolding update_app_config
  reconcile_idle_timeout app current_count now =
      let router_idle =
        app.min_replicas == 0
        && (ltb 0 app.last_router_traffic_at
            && leb (app.last_router_traffic_at + env.runtime.router_idle_timeout_secs) now) in
      if ltb 0 current_count && router_idle
      then (do
        let slept = record app { last_scaled_to_zero_at = now }
        save_best_effort slept
        attempt (scale_app env app.id 0 app.tenant_id)
        pure (true, slept))
      else pure (false, app)

  -- `scale_app`, and the new settings saved if it succeeded.
  abbrev scale_and_save : AppConfig → ℕ → AppConfig → M (Bool × AppConfig)
  scale_and_save app desired saved = do
    r ← attempt (scale_app env app.id desired app.tenant_id)
    elim r [ err _ ↦ pure (true, app) | ok _ ↦ do save_best_effort saved; pure (true, saved) ]

  reconcile_restore_from_zero : AppConfig → ℕ → ℕ → M (Bool × AppConfig)
  unfolding update_app_config
  reconcile_restore_from_zero app current_count now =
      if ltb 0 current_count
      then pure (false, app)
      else if app.last_scaled_to_zero_at == 0 && app.last_router_traffic_at == 0
      then (do
        let seen = record app { last_scaled_to_zero_at = now }
        save_best_effort seen
        pure (true, seen))
      else if app.min_replicas == 0
          && (ltb 0 app.desired_replicas
              && ltb app.last_scaled_to_zero_at app.last_router_traffic_at)
      then (if ltb 0 app.restore_retry_after_at && ltb now app.restore_retry_after_at
          then pure (true, app)
          else scale_and_save app app.desired_replicas
              (record app { last_scaled_to_zero_at = now; restore_retry_after_at = 0 }))
      else if ltb 0 app.min_replicas
      then scale_and_save app app.min_replicas (record app { desired_replicas = app.min_replicas })
      else pure (false, app)

  reconcile_autoscaling : AppConfig → ℕ → Option (ℕ × ℕ) → M (Unit {0})
  unfolding update_app_config
  reconcile_autoscaling app current_count none = pure tt
  reconcile_autoscaling app current_count (some (total_cpu, total_mem)) =
      let count = env.fl.of_nat current_count in
      let desired =
        autoscale_next_replicas env.fl app current_count (env.fl.div total_cpu count)
          (env.fl.div total_mem count) in
      if desired == current_count
      then pure tt
      else (do scale_and_save app desired (record app { desired_replicas = desired }); pure tt)

  reconcile_manual_scaling : AppConfig → ℕ → M (Unit {0})
  reconcile_manual_scaling app current_count =
      if current_count == app.desired_replicas
      then pure tt
      else (do attempt (scale_app env app.id app.desired_replicas app.tenant_id); pure tt)

  -- The body of the loop over the apps.
  pub reconcile_app : AppConfig → ℕ → Option (ℕ × ℕ) → ℕ → M (Unit {0})
  unfolding reconcile_app_state_initialization reconcile_idle_timeout reconcile_restore_from_zero
      reconcile_autoscaling reconcile_manual_scaling
  reconcile_app app current_count metrics now = do
    started ← reconcile_app_state_initialization app current_count now
    idle ← reconcile_idle_timeout started current_count now
    if idle.0 then pure tt else (do
      restored ← reconcile_restore_from_zero idle.1 current_count now
      if restored.0
          then pure tt
          else if restored.1.autoscaling_enabled
          then reconcile_autoscaling restored.1 current_count metrics
          else reconcile_manual_scaling restored.1 current_count)

  pub reconcile_each : List AppConfig → List Job → List Worker → ℕ → M (Unit {0})
  unfolding reconcile_app sum_usage
  reconcile_each [] jobs workers now = pure tt
  reconcile_each (app ∷ apps) jobs workers now = do
    reconcile_app app (tally (λ j. same j.app_id app.id) jobs)
        (sum_usage env.fl workers app.id jobs none) now
    reconcile_each apps jobs workers now

  reconcile_listed : List AppConfig → M (Unit {0})
  unfolding reconcile_each list_jobs list_workers
  reconcile_listed [] = pure tt
  reconcile_listed (app ∷ apps) = do
    jobs ← list_jobs env none none none
    workers ← list_workers env
    now ← clock env
    reconcile_each (app ∷ apps) (keep (λ j. is_active j.status) jobs) workers now

  pub reconcile_apps : M (Unit {0})
  unfolding reconcile_listed list_all_apps
  reconcile_apps = do apps ← list_all_apps env; reconcile_listed apps

  -- Traffic for an app that sleeps wakes it, unless a failed restore is to be retried later.
  restore : AppConfig → ℕ → ℕ → M (Unit {0})
  unfolding update_app_config
  restore app timestamp current_count =
      if current_count == 0 && ltb 0 app.desired_replicas
      then (if ltb 0 app.restore_retry_after_at && ltb timestamp app.restore_retry_after_at
          then pure tt
          else (do
            scale_and_save app app.desired_replicas
                (record app { last_scaled_to_zero_at = timestamp; restore_retry_after_at = 0 })
            pure tt))
      else pure tt

  -- `process_router_traffic` on an event's hostname and timestamp.
  pub process_router_traffic : String → ℕ → M (Unit {0})
  unfolding restore get_app_config_by_hostname update_app_config list_jobs
  process_router_traffic hostname at = do
    row ← get_app_config_by_hostname env hostname
    elim row [
      | none ↦ pure tt
      | some a ↦ do
        now ← clock env
        let timestamp = if ltb 0 at then at else now
        let app = record a { last_router_traffic_at = timestamp }
        update_app_config env app
        jobs ← list_jobs env (some app.tenant_id) (some app.id) none
        restore app timestamp (u32 (tally (λ j. is_active j.status) jobs))
    ]
