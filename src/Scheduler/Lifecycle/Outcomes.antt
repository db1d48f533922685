-- ===== src/Scheduler/Lifecycle/Outcomes.antt =====
-- What a call of a lifecycle method has done, by how it ended, whatever fails on the way.
use mathlib.Core.Option
use mikrom.Prelude.{
  ◌+◌, ◌-◌, String, ◌≡◌, ◌⊎◌, Bool, true, false, some, none, List, ◌∷◌, arith, find, suc, refl,
  is_some,
}
use mikrom.Scheduler.Job.{Job, JobStatus, paused, running, stopped, failed, DomainError}
use mikrom.Scheduler.World.{Env, World, Result, ok, err, AgentCall}
use mikrom.Scheduler.Store.Jobs.{find_job, set_status, without_job}
use mikrom.Scheduler.Store.Jobs.Rows.{
  find_job-without_self, find_job-update_where_self, job_id_of_find_job,
}
use mikrom.Scheduler.Store.Workers.{is_worker}
use mikrom.Scheduler.Lifecycle.{missing_host, owns, resume_app, delete_app}

abbrev pub status_of : String → List Job → Option.Option JobStatus
status_of id js = Option.map (λ (j : Job). j.status) (find_job id js)

module _ (env : Env) (job_id tenant_id : String) (w : World) (j : Job) where
  module _ (found : find_job job_id w.jobs ≡ some j) where
    module _ (host_id vm_id : String) (on_host : j.host_id ≡ some host_id)
        (in_vm : j.vm_id ≡ some vm_id) where
      -- What the table and the agents have seen of `pause_app`, by how it ended.
      abbrev pub Paused : Result (Unit {0}) × World → Type 0
      Paused (err _, w') = w'.jobs ≡ w.jobs
      Paused (ok _, w') =
          ((w'.jobs ≡ w.jobs) × (w'.agent_calls ≡ w.agent_calls))
          ⊎ ((w'.jobs ≡ set_status j.job_id paused w.jobs)
              × (env.fault (w'.tick - 2) ≡ none)
              × ((w'.agent_calls ≡ AgentCall.pause_vm host_id vm_id ∷ w.agent_calls)
                  ⊎ (w'.agent_calls
                      ≡ AgentCall.stop_vm host_id vm_id
                        ∷ AgentCall.pause_vm host_id vm_id
                        ∷ w.agent_calls)))

      abbrev pub Resumed : Result Bool × World → Type 0
      Resumed (err _, w') = w'.jobs ≡ w.jobs
      Resumed (ok true, w') =
          (w'.jobs ≡ set_status j.job_id running w.jobs)
          × (w'.agent_calls ≡ AgentCall.resume_vm host_id vm_id ∷ w.agent_calls)
          × (env.fault (w'.tick - 2) ≡ none)
      Resumed (ok false, w') =
          (find (is_worker host_id) w.workers ≡ none)
          × (w'.agent_calls ≡ w.agent_calls)
          × (status_of job_id w'.jobs ≡ some failed)

      -- For a job with a machine, whatever fails on the way: an error of `resume_app` leaves the jobs
      -- table as it was; the answer true means that the agent resumed the machine and just this
      -- job's row is marked running; the answer false means that the host is unknown, no agent was
      -- called and the row is marked failed.
      pub resume_app-Resumed : Resumed (resume_app env job_id tenant_id w)
      unfolding resume_app
      resume_app-Resumed = ground (
        arith,
        job_id_of_find_job job_id w.jobs j found,
        find_job-update_where_self job_id
            (λ x. record x {
              status = failed;
              error_message = some (missing_host host_id);
              stopped_at = some (env.now (suc (suc w.tick)));
            })
            w.jobs j (λ x. refl) found,
      )

      -- For a job with a machine on a known host and a tenant that may act on it, when the lookups
      -- succeed and the agent has resumed the machine but the new status cannot be saved, `resume_app`
      -- returns the error of the save, leaves the jobs table as it was, and has asked the agent to
      -- pause the machine again and, if that failed too, to stop it.
      pub resume_app_compensates :
          (e : DomainError)
          → owns tenant_id j ≡ true
          → is_some (find (is_worker host_id) w.workers) ≡ true
          → env.fault w.tick ≡ none
          → env.fault (w.tick + 1) ≡ none
          → env.fault (w.tick + 2) ≡ none
          → env.fault (w.tick + 3) ≡ some e
          → let (r, w') = resume_app env job_id tenant_id w in
            let resumed = AgentCall.resume_vm host_id vm_id ∷ w.agent_calls in
            (r ≡ err e)
            × (w'.jobs ≡ w.jobs)
            × (((env.fault (w.tick + 4) ≡ none)
                  × (w'.agent_calls ≡ AgentCall.pause_vm host_id vm_id ∷ resumed))
                ⊎ (w'.agent_calls
                    ≡ AgentCall.stop_vm host_id vm_id ∷ AgentCall.pause_vm host_id vm_id ∷ resumed))
      unfolding resume_app
      resume_app_compensates e owner known f0 f1 f2 f3 = ground arith

    abbrev pub Deleted : Result (Unit {0}) × World → Type 0
    Deleted (ok _, w') = (w'.jobs ≡ without_job job_id w.jobs) × (find_job job_id w'.jobs ≡ none)
    Deleted (err _, w') = (w'.jobs ≡ w.jobs) ⊎ (w'.jobs ≡ set_status job_id stopped w.jobs)

    -- Whatever the agent answers, `delete_app` on an existing job succeeds only by removing its row,
    -- so that the job is no longer found; when it fails, the table is as it was or the row is
    -- marked stopped instead.
    pub delete_app-Deleted : Deleted (delete_app env job_id tenant_id w)
    unfolding delete_app
    delete_app-Deleted =
        ground
          (arith, job_id_of_find_job job_id w.jobs j found, find_job-without_self job_id w.jobs)
