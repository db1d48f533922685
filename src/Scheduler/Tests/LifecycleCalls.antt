-- ===== src/Scheduler/Tests/LifecycleCalls.antt =====
-- The theorems on the lifecycle methods, on the sample tables.
use mikrom.Prelude.{
  ◌≡◌, is_some, find, tally, refl, some, none, same, false, true, keep, ◌&&◌, [], not,
}
use mikrom.Scheduler.Job.{paused, running}
use mikrom.Scheduler.World.{ok}
use mikrom.Scheduler.Store.Jobs.{find_job}
use mikrom.Scheduler.Store.Workers.{is_worker}
use mikrom.Scheduler.Lifecycle.{owns, pause_app, resume_app, delete_app, delete_all_by_app}
use mikrom.Scheduler.Lifecycle.Cleanup.{cleanup_expired_vms, cleanup_beta_deployments}
use mikrom.Scheduler.Lifecycle.Cleanup.Accounting.{Accounted, cleanups_account}
use mikrom.Scheduler.Lifecycle.Isolation.{refused, strangers_refused}
use mikrom.Scheduler.Lifecycle.Outcomes.{
  status_of, Resumed, resume_app-Resumed, Deleted, delete_app-Deleted,
}
use mikrom.Scheduler.Lifecycle.Success.{lifecycle_succeeds}
use mikrom.Scheduler.Lifecycle.AppDeletion.{delete_all_by_app_unowned}
use mikrom.Scheduler.Samples.{calm, small, web_job, web_found, small-Distinct}

resume_app-Resumed_example :
    Resumed calm "job-web" "ann" small web_job web_found "host-1" "vm-web" refl refl
      (resume_app calm "job-web" "ann" small)
resume_app-Resumed_example =
    resume_app-Resumed calm "job-web" "ann" small web_job web_found "host-1" "vm-web" refl refl

web_owned : owns "ann" web_job ≡ true
unfolding same
web_owned = refl

host_known : is_some (find (is_worker "host-1") small.workers) ≡ true
unfolding same
host_known = refl

delete_app-Deleted_example :
    Deleted calm "job-web" "ann" small web_job web_found (delete_app calm "job-web" "ann" small)
delete_app-Deleted_example = delete_app-Deleted calm "job-web" "ann" small web_job web_found

web_strange : owns "bob" web_job ≡ false
unfolding same
web_strange = refl

strangers_refused_example :
    (pause_app calm "job-web" "bob" small ≡ refused small)
    × (resume_app calm "job-web" "bob" small ≡ refused small)
    × (delete_app calm "job-web" "bob" small ≡ refused small)
strangers_refused_example =
    strangers_refused calm "job-web" "bob" small web_job refl web_found web_strange

bob_has_no_web : tally (λ j. same j.tenant_id "bob" && same j.app_id "web") small.jobs ≡ 0
unfolding same
bob_has_no_web = refl

delete_all_by_app_unowned_example :
    let (r, w') = delete_all_by_app calm "web" "bob" small in
    (r ≡ ok tt)
    × (w'.jobs ≡ keep (λ j. not (same j.app_id "web")) small.jobs)
    × (w'.agent_calls ≡ [])
delete_all_by_app_unowned_example =
    delete_all_by_app_unowned calm "web" "bob" small bob_has_no_web refl refl

cleanups_account_example :
    Accounted small (cleanup_expired_vms calm 1 small)
    × Accounted small (cleanup_beta_deployments calm small)
cleanups_account_example = cleanups_account calm small small-Distinct refl 1

lifecycle_succeeds_example :
    let p = pause_app calm "job-web" "system" small in
    let r = resume_app calm "job-web" "ann" small in
    let d = delete_app calm "job-web" "ann" small in
    (p.0 ≡ ok tt)
    × (status_of "job-web" p.1.jobs ≡ some paused)
    × (r.0 ≡ ok true)
    × (status_of "job-web" r.1.jobs ≡ some running)
    × (d.0 ≡ ok tt)
    × (find_job "job-web" d.1.jobs ≡ none)
lifecycle_succeeds_example =
    lifecycle_succeeds calm (λ n. refl) "job-web" small web_job web_found "host-1" "vm-web" "ann"
      refl refl host_known refl web_owned
