-- ===== src/Scheduler/Lifecycle/Success.antt =====
-- The lifecycle calls succeed when nothing fails.
use mikrom.Prelude.{
  ℕ, suc, String, ◌≡◌, refl, true, false, some, none, arith, same_refl, find, is_some,
}
use mikrom.Scheduler.Job.{Job, paused, running, JobStatus}
use mikrom.Scheduler.World.{Env, World, ok}
use mikrom.Scheduler.Store.Jobs.{find_job}
use mikrom.Scheduler.Store.Jobs.Rows.{
  find_job-update_where_self, find_job-without_self, job_id_of_find_job,
}
use mikrom.Scheduler.Store.Workers.{is_worker}
use mikrom.Scheduler.Lifecycle.{owns, is_paused_or_stopped, pause_app, resume_app, delete_app}
use mikrom.Scheduler.Lifecycle.Outcomes.{status_of}

module _ (env : Env) (works : (n : ℕ) → env.fault n ≡ none) (job_id : String) (w : World) (j : Job)
    (found : find_job job_id w.jobs ≡ some j) where
  -- Also what scaling down needs: a tenant's own job is deleted.
  pub delete_app-ok :
      (tenant_id : String) → owns tenant_id j ≡ true → (delete_app env job_id tenant_id w).0 ≡ ok tt
  unfolding delete_app
  delete_app-ok tenant_id owner =
      ground (arith, works w.tick, works (suc w.tick), works (suc (suc w.tick)))

  -- When no outside call fails, the calls on a job that has a machine on a known host and is neither
  -- paused nor stopped all succeed: `pause_app` for "system" leaves the job paused, and, for a tenant
  -- that may act on it, `resume_app` leaves it running and answers true, and after `delete_app` it is
  -- not found.
  pub lifecycle_succeeds :
      (host_id vm_id tenant_id : String)
      → j.host_id ≡ some host_id
      → j.vm_id ≡ some vm_id
      → is_some (find (is_worker host_id) w.workers) ≡ true
      → is_paused_or_stopped j.status ≡ false
      → owns tenant_id j ≡ true
      → let p = pause_app env job_id "system" w in
        let r = resume_app env job_id tenant_id w in
        let d = delete_app env job_id tenant_id w in
        (p.0 ≡ ok tt)
        × (status_of job_id p.1.jobs ≡ some paused)
        × (r.0 ≡ ok true)
        × (status_of job_id r.1.jobs ≡ some running)
        × (d.0 ≡ ok tt)
        × (find_job job_id d.1.jobs ≡ none)
  unfolding pause_app resume_app delete_app
  lifecycle_succeeds host_id vm_id tenant_id on_host in_vm known active owner =
      let id = job_id_of_find_job job_id w.jobs j found in
      let t1 = works w.tick in
      let t2 = works (suc w.tick) in
      let t3 = works (suc (suc w.tick)) in
      let t4 = works (suc (suc (suc w.tick))) in
      let marked = λ (s : JobStatus).
        find_job-update_where_self job_id (λ x. record x { status = s }) w.jobs j (λ x. refl)
          found in
      (
        ground (arith, t1, t2, t3, same_refl "system"),
        ground (arith, t1, t2, t3, same_refl "system", id, marked paused),
        ground (arith, t1, t2, t3, t4),
        ground (arith, t1, t2, t3, t4, id, marked running),
        delete_app-ok tenant_id owner,
        ground (arith, t1, t2, t3, id, find_job-without_self job_id w.jobs),
      )
