-- ===== src/Scheduler/Lifecycle/Cleanup.antt =====
-- The two periodic clean-ups of `JobLifecycleService`: cleanup_expired_vms and
-- cleanup_beta_deployments of mikrom-scheduler/src/application/lifecycle.rs.
pub mod Accounting
use mikrom.Prelude.{
  ℕ, suc, ◌+◌, Bool, true, false, ◌&&◌, none, some, List, [], ◌∷◌, if◌then◌else◌, leb, is_some,
  keep,
}
use mikrom.Scheduler.Job.{Job, stopped}
use mikrom.Scheduler.World.{Env, M, ok, err, pure, attempt, clock, publish, ◌>>=◌, ◌>>◌}
use mikrom.Scheduler.Store.Jobs.{update_job_status, remove_job, list_jobs}
use mikrom.Scheduler.Lifecycle.{delete_machine, is_missing_vm}

-- `ttl_secs.max(1)`
abbrev pub at_least_one : ℕ → ℕ
at_least_one n = if leb 1 n then n else 1

-- `created_at <= now - ttl`
abbrev pub is_expired : ℕ → ℕ → Job → Bool
is_expired now ttl j = is_some j.vm_id && leb (j.created_at + ttl) now

module _ (env : Env) where
  -- The row of an expired machine: counted once it is removed.
  remove_expired : Job → ℕ → M Bool
  unfolding remove_job update_job_status
  remove_expired j now = do
    let stopped_job = record j { status = stopped; stopped_at = some now }
    removed ← attempt (remove_job env j.job_id)
    elim removed [
      | ok _ ↦ do publish stopped_job; pure true
      | err _ ↦ do attempt (update_job_status env j.job_id stopped); publish stopped_job; pure false
    ]

  -- One round of the loop: a machine that is there but not deleted keeps its row.
  expire : Job → M Bool
  unfolding delete_machine remove_expired
  expire j = do
    now ← clock env
    failure ← delete_machine env j
    elim failure [
      | none ↦ remove_expired j now
      | some e ↦ if is_missing_vm env e then remove_expired j now else pure false
    ]

  expire_all : List Job → ℕ → M ℕ
  unfolding expire
  expire_all [] cleaned = pure cleaned
  expire_all (j ∷ js) cleaned = do
    gone ← expire j
    expire_all js (if gone then suc cleaned else cleaned)

  unfoldable pub cleanup_expired_vms : ℕ → M ℕ
  unfolding expire_all
  cleanup_expired_vms ttl_secs = do
    let ttl = at_least_one ttl_secs
    now ← clock env
    jobs ← list_jobs env none none none
    expire_all (keep (is_expired now ttl) jobs) 0

  unfoldable pub cleanup_beta_deployments : M ℕ
  unfolding expire_all
  cleanup_beta_deployments = do
    jobs ← list_jobs env none none none
    expire_all (keep (λ j. is_some j.deployment_id) jobs) 0
