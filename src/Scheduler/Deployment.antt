-- ===== src/Scheduler/Deployment.antt =====
-- `DeploymentService`: mikrom-scheduler/src/application/deployment.rs.
pub mod Launch
pub mod Selection
pub mod Success
use mikrom.Prelude.{
  ℕ, ◌+◌, String, Bool, true, false, not, ◌&&◌, Option, none, some, List, [], ◌∷◌, if◌then◌else◌,
  same, keep, stable_sort, unwrap_or, first,
}
use mikrom.Scheduler.Job.{
  Job, JobStatus, failed, cancelled, running, VmConfig, HypervisorType, unspecified, firecracker,
  hypervisor_eq, DomainError, no_workers, no_fit, new_job, schedule,
}
use mikrom.Scheduler.Worker.{
  Floats, Worker, HostMetrics, SchedulingStrategy, least_loaded, bin_packing, can_fit_vm,
  calculate_score,
}
use mikrom.Scheduler.World.{
  Env, M, ok, err, AgentCall, pure, throw, gets, attempt, agent, clock, publish, ◌>>=◌, ◌>>◌,
}
use mikrom.Scheduler.SixPn.{allocate_vm_ipv6}
use mikrom.Scheduler.Store.Jobs.{add_job, get_job, start_job, remove_job, list_jobs}
use mikrom.Scheduler.Store.Workers.{get_available_workers}

pub record DeployAppParams : Type 0 where
  pub app_id : String
  pub app_name : String
  pub image : String
  pub tenant_id : String
  pub deployment_id : String
  pub vpc_ipv6_prefix : String
  pub config : VmConfig
  pub strategy : SchedulingStrategy

-- The map from hosts to counts, as an association list.
abbrev pub count_of : String → List (String × ℕ) → ℕ
count_of h [] = 0
count_of h ((k, n) ∷ m) = if same k h then n else count_of h m

-- `*entry(h).or_insert(0) += 1`
abbrev pub bump : String → List (String × ℕ) → List (String × ℕ)
bump h [] = (h, 1) ∷ []
bump h ((k, n) ∷ m) = if same k h then (k, n + 1) ∷ m else (k, n) ∷ bump h m

abbrev pub is_failed_or_cancelled : JobStatus → Bool
is_failed_or_cancelled failed = true
is_failed_or_cancelled cancelled = true
is_failed_or_cancelled _ = false

pub count_instances : String → List Job → List (String × ℕ) → List (String × ℕ)
count_instances app_id [] m = m
count_instances app_id (j ∷ js) m = count_instances app_id js (
    if not (same j.app_id app_id)
    then m
    else if is_failed_or_cancelled j.status
    then m
    else elim j.host_id [ none ↦ m | some h ↦ bump h m ])

abbrev pub contains_hypervisor : HypervisorType → List HypervisorType → Bool
contains_hypervisor h [] = false
contains_hypervisor h (x ∷ xs) = if hypervisor_eq x h then true else contains_hypervisor h xs

-- A worker that reports no hypervisor supports Firecracker only.
abbrev pub supports : HypervisorType → List HypervisorType → Bool
supports unspecified reported = true
supports h [] = contains_hypervisor h (firecracker ∷ [])
supports h (x ∷ xs) = contains_hypervisor h (x ∷ xs)

-- The filter of `select_best_worker`.
unfoldable pub is_viable : VmConfig → Worker → Bool
unfolding can_fit_vm
is_viable config wk =
    supports config.hypervisor wk.supported_hypervisors
    && elim wk.metrics [ none ↦ false | some m ↦ can_fit_vm m config.memory_mib config.disk_mib ]

-- `score_worker`: the host's score less a penalty for each instance of the app that it runs.
raw_score : Floats → List (String × ℕ) → Worker → ℕ
unfolding calculate_score
raw_score fl counts wk =
    let base_score : ℕ = elim wk.metrics [ none ↦ fl.lit 0 0 | some m ↦ calculate_score fl m 10 ] in
    let penalty = fl.mul (fl.of_nat (count_of wk.host_id counts)) (fl.lit 2 1) in
    fl.sub base_score penalty

pub score_worker : Floats → List (String × ℕ) → Worker → ℕ
score_worker fl counts wk = fl.max (raw_score fl counts wk) (fl.lit 0 0)

-- The comparison of `sort_by` is not `Greater`.
abbrev pub precedes : Floats → SchedulingStrategy → List (String × ℕ) → Worker → Worker → Bool
precedes fl least_loaded counts a b =
    not (fl.lt (score_worker fl counts a) (score_worker fl counts b))
precedes fl bin_packing counts a b =
    not (fl.lt (score_worker fl counts b) (score_worker fl counts a))

module _ (env : Env) where
  -- An address in the app's network, or none: one inherited from a template is cleared.
  unfoldable pub apply_ipv6_assignment : VmConfig → String → String → VmConfig
  unfolding allocate_vm_ipv6
  apply_ipv6_assignment config job_id vpc_ipv6_prefix = elim (env.parse_ipv6 vpc_ipv6_prefix) [
    | some prefix ↦ record config {
      ipv6_address = some (env.print_ipv6 (allocate_vm_ipv6 prefix (env.sha256 job_id)));
      ipv6_gateway = some "fe80::1";
    }
    | none ↦ record config { ipv6_address = none; ipv6_gateway = none }
  ]

  unfoldable pub count_app_instances_per_host : String → M (List (String × ℕ))
  unfolding list_jobs count_instances
  count_app_instances_per_host app_id = do
    jobs ← list_jobs env none none none
    pure (count_instances app_id jobs [])

  -- The viable workers are sorted and the first is taken.
  choose : String → SchedulingStrategy → List Worker → M Worker
  unfolding count_app_instances_per_host
  choose app_id strategy [] = throw no_fit
  choose app_id strategy (wk ∷ wks) = do
    counts ← count_app_instances_per_host app_id
    pure (unwrap_or (first (stable_sort (precedes env.fl strategy counts) (wk ∷ wks))) wk)

  select_from : VmConfig → String → SchedulingStrategy → List Worker → M Worker
  unfolding choose is_viable
  select_from config app_id strategy [] = throw no_workers
  select_from config app_id strategy (wk ∷ wks) =
      choose app_id strategy (keep (is_viable config) (wk ∷ wks))

  unfoldable pub select_best_worker : VmConfig → String → SchedulingStrategy → M Worker
  unfolding get_available_workers select_from
  select_best_worker config app_id strategy = do
    workers ← get_available_workers env 30
    select_from config app_id strategy workers

  rollback_failed_deploy : String → String → String → M (Unit {0})
  unfolding get_job remove_job
  rollback_failed_deploy job_id host_id vm_id = do
    row ← get_job env job_id
    let hypervisor : HypervisorType = elim row [ none ↦ firecracker | some j ↦ j.config.hypervisor ]
    attempt (agent env (AgentCall.delete_vm host_id vm_id hypervisor))
    attempt (remove_job env job_id)
    pure tt

  -- From the insertion of the row on.
  launch : Job → String → String → M Job
  unfolding add_job remove_job start_job rollback_failed_deploy
  launch job host_id vm_id = do
    add_job env job
    sent ← attempt (agent env (AgentCall.start_vm host_id vm_id))
    elim sent [
      | err e ↦ do attempt (remove_job env job.job_id); throw e
      | ok _ ↦ do
        at ← clock env
        saved ← attempt (start_job env job.job_id at)
        elim saved [
          | err e ↦ do attempt (rollback_failed_deploy job.job_id host_id vm_id); throw e
          | ok _ ↦ do
            now ← clock env
            let deployed = record job { status = running; started_at = some now }
            publish deployed
            pure deployed
        ]
    ]

  -- The job as it is scheduled on the chosen worker.
  abbrev pub scheduled_job : DeployAppParams → String → String → Worker → ℕ → ℕ → Job
  scheduled_job params job_id vm_id wk created at = schedule wk.host_id vm_id at (
      new_job job_id params.app_id params.app_name params.image
        (apply_ipv6_assignment params.config job_id params.vpc_ipv6_prefix) params.tenant_id
        (some params.deployment_id) created)

  -- From the choice of the worker on.
  deploy_on : DeployAppParams → String → String → Worker → M Job
  unfolding apply_ipv6_assignment launch
  deploy_on params job_id vm_id wk = do
    created ← clock env
    at ← clock env
    launch (scheduled_job params job_id vm_id wk created at) wk.host_id vm_id

  unfoldable pub deploy_app : DeployAppParams → M Job
  unfolding apply_ipv6_assignment select_best_worker deploy_on
  deploy_app params = do
    job_id ← gets (λ w. env.job_uuid w.tick)
    vm_id ← gets (λ w. env.vm_uuid w.tick)
    let config = apply_ipv6_assignment params.config job_id params.vpc_ipv6_prefix
    wk ← select_best_worker config params.app_id params.strategy
    deploy_on params job_id vm_id wk
