-- ===== src/Scheduler/Lifecycle/Isolation.antt =====
-- Whom the lifecycle methods obey: a job is touched only for its tenant, or for "system".
use mikrom.Prelude.{String, ◌≡◌, false, some, none, arith}
use mikrom.Scheduler.Job.{Job, unauthorized}
use mikrom.Scheduler.World.{Env, World, Result, err, step_tick}
use mikrom.Scheduler.Store.Jobs.{find_job}
use mikrom.Scheduler.Lifecycle.{owns, get_app_status, pause_app, resume_app, delete_app}

-- The answer to a stranger: the lookup has run, and nothing else.
abbrev pub refused : {A : Type 0} → World → Result A × World
refused w = (err (unauthorized "You do not own this job"), step_tick w)

get_app_status-refused :
    (env : Env) (job_id tenant_id : String) (w : World) (j : Job)
    → env.fault w.tick ≡ none
    → find_job job_id w.jobs ≡ some j
    → owns tenant_id j ≡ false
    → get_app_status env job_id tenant_id w ≡ refused w
unfolding get_app_status
get_app_status-refused env job_id tenant_id w j up found stranger = ground arith

-- For a job that exists, when the tenant is neither the job's own nor "system" and the lookup does
-- not fail, `pause_app`, `resume_app` and `delete_app` all answer "unauthorized", call no agent,
-- publish nothing and leave every table as it was: only the lookup has run.
pub strangers_refused :
    (env : Env) (job_id tenant_id : String) (w : World) (j : Job)
    → env.fault w.tick ≡ none
    → find_job job_id w.jobs ≡ some j
    → owns tenant_id j ≡ false
    → (pause_app env job_id tenant_id w ≡ refused w)
      × (resume_app env job_id tenant_id w ≡ refused w)
      × (delete_app env job_id tenant_id w ≡ refused w)
unfolding pause_app resume_app delete_app
strangers_refused env job_id tenant_id w j up found stranger =
    (ground arith, ground arith, ground arith)
