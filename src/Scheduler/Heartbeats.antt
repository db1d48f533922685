-- ===== src/Scheduler/Heartbeats.antt =====
-- `HeartbeatService`: mikrom-scheduler/src/application/heartbeats.rs.
pub mod Failures
pub mod Liveness
pub mod Reports
use mikrom.Prelude.{
  ℕ, ◌+◌, String, Bool, true, false, ◌&&◌, Option, none, some, List, [], ◌∷◌, if◌then◌else◌, same,
  ◌==◌, keep, map,
}
use mikrom.Prelude.Int.{ℤ, pos, negsuc}
use mikrom.Scheduler.Job.{
  Job, JobStatus, HypervisorType, hypervisor_from_i32, running, failed, cancelled, stopped,
  DomainError,
}
use mikrom.Scheduler.Worker.{AppConfig, VmMetrics, HostMetrics, Worker, online}
use mikrom.Scheduler.World.{
  Env, M, Result, ok, err, pure, throw, attempt, clock, publish, ◌>>=◌, ◌>>◌,
}
use mikrom.Scheduler.Store.Jobs.{list_jobs, fail_job, find_job_by_vm_id, has_vm}
use mikrom.Scheduler.Store.Apps.{update_app_config, get_app_config}
use mikrom.Scheduler.Store.Workers.{register, update_metrics, mark_stale_workers_offline}

-- The messages of mikrom-proto. In its `VmStatus`, `Failed` is 5.
pub record ReportedVm : Type 0 where
  pub status : ℤ
  pub error_message : String
  pub usage : VmMetrics

pub record ReportMetrics : Type 0 where
  -- The host's figures; its `vms` are those below.
  pub host : HostMetrics
  -- In the order in which the map is walked.
  pub vms : List (String × ReportedVm)

pub record RouterHeartbeat : Type 0 where
  pub host_id : String
  pub hostname : String
  pub advertise_address : String
  pub wireguard_pubkey : String
  pub wireguard_ip : String
  pub wireguard_port : ℕ

pub record WorkerHeartbeat : Type 0 where
  pub router : RouterHeartbeat
  pub supported_hypervisors : List ℤ
  pub metrics : Option ReportMetrics

abbrev pub worker_of : RouterHeartbeat → List HypervisorType → ℕ → Worker
worker_of h hypervisors now = record {
  host_id = h.host_id;
  hostname = h.hostname;
  advertise_address = h.advertise_address;
  wireguard_pubkey = some h.wireguard_pubkey;
  wireguard_ip = some h.wireguard_ip;
  wireguard_port = some h.wireguard_port;
  metrics = none;
  registered_at = now;
  last_heartbeat = now;
  status = online;
  supported_hypervisors = hypervisors;
}

known_hypervisors : List ℤ → List HypervisorType
known_hypervisors [] = []
known_hypervisors (v ∷ vs) =
    let rest = known_hypervisors vs in
    elim (hypervisor_from_i32 v) [ none ↦ rest | some h ↦ h ∷ rest ]

abbrev is_failed_status : ℤ → Bool
is_failed_status (pos n) = n == 5
is_failed_status (negsuc _) = false

abbrev is_on_host : String → Job → Bool
is_on_host host_id j = elim j.host_id [ none ↦ false | some h ↦ same h host_id ]

-- In a map collected from a list, the last entry for a key stays.
last_on_vm : String → List Job → Option Job
last_on_vm vm_id [] = none
last_on_vm vm_id (j ∷ js) =
    let rest = last_on_vm vm_id js in
    elim rest [ some k ↦ some k | none ↦ if has_vm vm_id j then some j else none ]

abbrev pub failure_message : String → String
failure_message s = if same s "" then "VM startup failed" else s

abbrev pub is_terminal : JobStatus → Bool
is_terminal failed = true
is_terminal cancelled = true
is_terminal stopped = true
is_terminal _ = false

module _ (env : Env) where
  -- A restore of the job's app is not tried again at once. Errors are only logged.
  back_off : String → ℕ → M (Unit {0})
  unfolding get_app_config update_app_config
  back_off app_id now = do
    row ← attempt (get_app_config env app_id)
    elim row [
      | err _ ↦ pure tt
      | ok c ↦ elim c [
        | none ↦ pure tt
        | some app ↦ do
          attempt (
              update_app_config env (record app {
                restore_retry_after_at = now + env.runtime.restore_retry_backoff_secs;
              }))
          pure tt
      ]
    ]

  -- After the row is marked failed.
  announce_failure : Job → String → ℕ → M (Unit {0})
  unfolding back_off
  announce_failure j message now = do
    back_off j.app_id now
    publish (record j { status = failed; stopped_at = some now; error_message = some message })

  -- The failed machines of a heartbeat; the answer is the first error.
  fail_reported : List Job → List (String × ReportedVm) → ℕ → M (Option DomainError)
  unfolding announce_failure fail_job last_on_vm
  fail_reported jobs [] now = pure none
  fail_reported jobs ((vm_id, m) ∷ vms) now =
      if is_failed_status m.status
      then elim (last_on_vm vm_id jobs) [
        | none ↦ fail_reported jobs vms now
        | some j ↦ do
          let message = failure_message m.error_message
          saved ← attempt (fail_job env j.job_id message now)
          elim saved [
            | err e ↦ do later ← fail_reported jobs vms now; pure (some e)
            | ok _ ↦ do announce_failure j message now; fail_reported jobs vms now
          ]
      ]
      else fail_reported jobs vms now

  process_metrics : String → ReportMetrics → ℕ → M (Option DomainError)
  unfolding fail_reported list_jobs update_metrics
  process_metrics host_id metrics now = do
    jobs ← list_jobs env none none (some running)
    first_error ← fail_reported (keep (is_on_host host_id) jobs) metrics.vms now
    update_metrics env host_id (record metrics.host {
      vms = map (λ (entry : String × ReportedVm). (entry.0, entry.1.usage)) metrics.vms;
    })
    pure first_error

  pub process_worker_heartbeat : WorkerHeartbeat → M (Unit {0})
  unfolding process_metrics register known_hypervisors
  process_worker_heartbeat h = do
    now ← clock env
    register env (worker_of h.router (known_hypervisors h.supported_hypervisors) now)
    first_error ← elim h.metrics [
      | none ↦ pure none
      | some metrics ↦ process_metrics h.router.host_id metrics now
    ]
    elim first_error [ some e ↦ throw e | none ↦ pure tt ]

  pub process_router_heartbeat : RouterHeartbeat → M (Unit {0})
  unfolding register
  process_router_heartbeat h = do now ← clock env; register env (worker_of h [] now)

  fail_found : Job → String → M (Unit {0})
  unfolding fail_job announce_failure
  fail_found j message = if is_terminal j.status then pure tt else (do
    now ← clock env
    fail_job env j.job_id (failure_message message) now
    announce_failure j (failure_message message) now)

  pub process_vm_failure : String → String → M (Unit {0})
  unfolding find_job_by_vm_id fail_found
  process_vm_failure vm_id error_message = do
    row ← find_job_by_vm_id env vm_id
    elim row [ none ↦ pure tt | some j ↦ fail_found j error_message ]

  pub cleanup_stale_workers : M ℕ
  unfolding mark_stale_workers_offline
  cleanup_stale_workers = mark_stale_workers_offline env env.runtime.worker_stale_threshold_secs
