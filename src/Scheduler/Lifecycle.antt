-- ===== src/Scheduler/Lifecycle.antt =====
-- `JobLifecycleService`: mikrom-scheduler/src/application/lifecycle.rs. Logging and telemetry have
-- no effect on the result and are left out.
pub mod Cleanup
pub mod Isolation
pub mod Outcomes
pub mod AppDeletion
pub mod Success
use Prim.Native.String.{◌++◌ as append}
use mikrom.Prelude.{
  ℕ, ◌+◌, String, Bool, true, false, ◌&&◌, ◌||◌, Option, none, some, List, [], ◌∷◌, if◌then◌else◌,
  same, ltb, keep,
}
use mikrom.Scheduler.Job.{
  Job, JobStatus, running, paused, stopped, failed, DomainError, job_not_found, infrastructure,
  unauthorized,
}
use mikrom.Scheduler.Worker.{AppConfig}
use mikrom.Scheduler.World.{
  Env, M, ok, err, AgentCall, pure, throw, attempt, agent, clock, publish, ◌>>=◌, ◌>>◌,
}
use mikrom.Scheduler.Store.Jobs.{get_job, update_job_status, fail_job, remove_job, list_jobs}
use mikrom.Scheduler.Store.Apps.{get_app_config, remove_app_and_jobs_by_app}
use mikrom.Scheduler.Store.Workers.{get_worker}

abbrev pub is_paused_or_stopped : JobStatus → Bool
is_paused_or_stopped paused = true
is_paused_or_stopped stopped = true
is_paused_or_stopped _ = false

-- May this tenant act on the job?
abbrev pub owns : String → Job → Bool
owns tenant_id j = same j.tenant_id tenant_id || same tenant_id "system"

-- Router traffic since the app was last put to sleep, and less than the idle timeout ago.
abbrev pub traffic_resumed : ℕ → ℕ → AppConfig → Bool
traffic_resumed now timeout app =
    ltb app.last_scaled_to_zero_at app.last_router_traffic_at
    && ltb now (app.last_router_traffic_at + timeout)

-- `Infrastructure(message)` with "not found" in the message.
abbrev pub is_missing_vm : Env → DomainError → Bool
is_missing_vm env (infrastructure message) = env.says_not_found message
is_missing_vm env _ = false

abbrev pub missing_host : String → String
missing_host host_id = append "Host " (append host_id " no longer exists")

module _ (env : Env) where
  unfoldable pub get_app_status : String → String → M Job
  unfolding get_job
  get_app_status job_id tenant_id = do
    row ← get_job env job_id
    elim row [
      | none ↦ throw (job_not_found job_id)
      | some j ↦ if owns tenant_id j then pure j else throw (unauthorized "You do not own this job")
    ]

  -- The check just before a pause; an error of the lookup counts as no traffic.
  hibernation_aborted : String → Job → M Bool
  unfolding get_app_config
  hibernation_aborted tenant_id j = if same tenant_id "system" then pure false else do
    found ← attempt (get_app_config env j.app_id)
    now ← clock env
    elim found [
      | ok (some app) ↦ pure (traffic_resumed now env.runtime.router_idle_timeout_secs app)
      | _ ↦ pure false
    ]

  -- Pause the machine, or stop it if it will not pause.
  pause_or_stop : String → String → M (Unit {0})
  pause_or_stop host_id vm_id = do
    r ← attempt (agent env (AgentCall.pause_vm host_id vm_id))
    elim r [ ok _ ↦ pure tt | err _ ↦ agent env (AgentCall.stop_vm host_id vm_id) ]

  pause_machine : Job → M (Unit {0})
  unfolding update_job_status pause_or_stop
  pause_machine j = elim j.host_id [
    | none ↦ pure tt
    | some host_id ↦ elim j.vm_id [
      | none ↦ pure tt
      | some vm_id ↦ do
        pause_or_stop host_id vm_id
        update_job_status env j.job_id paused
        publish (record j { status = paused })
    ]
  ]

  unfoldable pub pause_app : String → String → M (Unit {0})
  unfolding get_app_status hibernation_aborted pause_machine
  pause_app job_id tenant_id = do
    j ← get_app_status job_id tenant_id
    if is_paused_or_stopped j.status then pure tt else do
      aborted ← hibernation_aborted tenant_id j
      if aborted then pure tt else pause_machine j

  -- A paused job whose host is gone is marked failed.
  fail_missing_host : Job → String → M Bool
  unfolding fail_job
  fail_missing_host j host_id = do
    let message = missing_host host_id
    now ← clock env
    fail_job env j.job_id message now
    later ← clock env
    publish (record j { status = failed; stopped_at = some later; error_message = some message })
    pure false

  -- Resume the machine; if the new status is not saved, put the machine back to sleep.
  resume_machine : Job → String → String → M Bool
  unfolding update_job_status
  resume_machine j host_id vm_id = do
    agent env (AgentCall.resume_vm host_id vm_id)
    saved ← attempt (update_job_status env j.job_id running)
    elim saved [
      | err e ↦ do
        back ← attempt (agent env (AgentCall.pause_vm host_id vm_id))
        elim back [
          | ok _ ↦ throw e
          | err _ ↦ do attempt (agent env (AgentCall.stop_vm host_id vm_id)); throw e
        ]
      | ok _ ↦ do
        now ← clock env
        publish (record j { status = running; started_at = some now })
        pure true
    ]

  resume_job : Job → M Bool
  unfolding get_worker fail_missing_host resume_machine
  resume_job j = elim j.host_id [
    | none ↦ pure false
    | some host_id ↦ elim j.vm_id [
      | none ↦ pure false
      | some vm_id ↦ do
        host ← get_worker env host_id
        elim host [ none ↦ fail_missing_host j host_id | some _ ↦ resume_machine j host_id vm_id ]
    ]
  ]

  unfoldable pub resume_app : String → String → M Bool
  unfolding get_app_status resume_job
  resume_app job_id tenant_id = do j ← get_app_status job_id tenant_id; resume_job j

  -- `delete_vm` on the job's machine, if it has one; the answer is the call's error.
  delete_machine : Job → M (Option DomainError)
  delete_machine j = elim j.host_id [
    | none ↦ pure none
    | some host_id ↦ elim j.vm_id [
      | none ↦ pure none
      | some vm_id ↦ do
        r ← attempt (agent env (AgentCall.delete_vm host_id vm_id j.config.hypervisor))
        elim r [ ok _ ↦ pure none | err e ↦ pure (some e) ]
    ]
  ]

  -- Remove the row; if that fails, mark it stopped instead and return the error.
  remove_or_stop : Job → M (Unit {0})
  unfolding remove_job update_job_status
  remove_or_stop j = do
    removed ← attempt (remove_job env j.job_id)
    elim removed [
      | err e ↦ do
        marked ← attempt (update_job_status env j.job_id stopped)
        elim marked [ err _ ↦ throw e | ok _ ↦ do publish (record j { status = stopped }); throw e ]
      | ok _ ↦ publish (record j { status = stopped })
    ]

  unfoldable pub delete_app : String → String → M (Unit {0})
  unfolding get_app_status delete_machine remove_or_stop
  delete_app job_id tenant_id = do
    j ← get_app_status job_id tenant_id
    delete_machine j
    remove_or_stop j

  -- Machines first, every error only logged.
  delete_machines : List Job → M (Unit {0})
  unfolding delete_machine
  delete_machines [] = pure tt
  delete_machines (j ∷ js) = delete_machine j >> delete_machines js

  publish_stopped : List Job → M (Unit {0})
  publish_stopped [] = pure tt
  publish_stopped (j ∷ js) = publish (record j { status = stopped }) >> publish_stopped js

  delete_listed : String → List Job → M (Unit {0})
  unfolding remove_app_and_jobs_by_app
  delete_listed app_id app_jobs = do
    delete_machines app_jobs
    remove_app_and_jobs_by_app env app_id
    publish_stopped app_jobs

  pub delete_all_by_app : String → String → M (Unit {0})
  unfolding list_jobs
  delete_all_by_app app_id tenant_id = do
    jobs ← list_jobs env (some tenant_id) none none
    delete_listed app_id (keep (λ j. same j.app_id app_id) jobs)
