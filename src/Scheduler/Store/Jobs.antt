-- ===== src/Scheduler/Store/Jobs.antt =====
-- `PgJobRepository`.
pub mod Rows
pub mod Listed
use mikrom.Prelude.{
  ℕ, String, Bool, true, false, not, ◌&&◌, Option, none, some, List, ◌∷◌, ◌++◌, [], if◌then◌else◌,
  ◌==◌, same, is_some, find, keep, update_where,
}
use mikrom.Scheduler.Job.{Job, JobStatus, running, failed, cancelled, status_code, infrastructure}
use mikrom.Scheduler.World.{Env, World, M, ok, err, query, update, pure, ◌>>=◌, step_tick}

abbrev pub has_id : String → Job → Bool
has_id id j = same j.job_id id

abbrev pub find_job : String → List Job → Option Job
find_job id js = find (has_id id) js

-- The row that `add_job` inserts: the columns that it does not name are null.
abbrev pub inserted_row : Job → Job
inserted_row j = record j {
  scheduled_at = none;
  started_at = none;
  stopped_at = none;
  error_message = none;
}

abbrev pub with_jobs : (List Job → List Job) → World → World
with_jobs f w = record w { jobs = f w.jobs }

abbrev pub set_status : String → JobStatus → List Job → List Job
set_status id s = update_where (has_id id) (λ j. record j { status = s })

abbrev pub without_job : String → List Job → List Job
without_job id = keep (λ j. not (has_id id j))

abbrev pub has_vm : String → Job → Bool
has_vm vm j = elim j.vm_id [ none ↦ false | some v ↦ same v vm ]

-- A filter that is `None` is left out of the statement.
abbrev pub matches_text : Option String → String → Bool
matches_text none s = true
matches_text (some t) s = same s t

abbrev pub matches_status : Option JobStatus → JobStatus → Bool
matches_status none s = true
matches_status (some t) s = status_code s == status_code t

module _ (env : Env) where
  -- The primary key refuses a second row with the same identifier.
  unfoldable pub add_job : Job → M (Unit {0})
  add_job job w = elim (env.fault w.tick) [
    | some e ↦ (err e, step_tick w)
    | none ↦
        if is_some (find_job job.job_id w.jobs)
        then (err (infrastructure "duplicate key"), step_tick w)
        else (ok tt, with_jobs (λ js. js ++ inserted_row job ∷ []) (step_tick w))
  ]

  unfoldable pub get_job : String → M (Option Job)
  get_job id = query env (λ w. find_job id w.jobs)

  unfoldable pub update_job_status : String → JobStatus → M (Unit {0})
  update_job_status id s = update env (with_jobs (set_status id s))

  unfoldable pub start_job : String → ℕ → M (Unit {0})
  start_job id at = update env (
      with_jobs
        (update_where (has_id id) (λ j. record j { status = running; started_at = some at })))

  unfoldable pub fail_job : String → String → ℕ → M (Unit {0})
  fail_job id message at = update env (
      with_jobs (
        update_where (has_id id)
          (λ j. record j { status = failed; error_message = some message; stopped_at = some at })))

  unfoldable pub cancel_job : String → ℕ → M (Unit {0})
  cancel_job id at = update env (
      with_jobs
        (update_where (has_id id) (λ j. record j { status = cancelled; stopped_at = some at })))

  unfoldable pub remove_job : String → M (Unit {0})
  remove_job id = update env (with_jobs (without_job id))

  unfoldable pub remove_jobs_by_app : String → M (Unit {0})
  remove_jobs_by_app app_id = update env (with_jobs (keep (λ j. not (same j.app_id app_id))))

  unfoldable pub list_jobs : Option String → Option String → Option JobStatus → M (List Job)
  list_jobs tenant_id app_id status = query env (λ w.
      keep
        (λ j.
          matches_text tenant_id j.tenant_id
          && (matches_text app_id j.app_id && matches_status status j.status))
        w.jobs)

  -- Two statements: the identifier by machine, then the row by identifier.
  unfoldable pub find_job_by_vm_id : String → M (Option Job)
  unfolding get_job
  find_job_by_vm_id vm_id = do
    row ← query env (λ w. find (has_vm vm_id) w.jobs)
    elim row [ none ↦ pure none | some j ↦ get_job j.job_id ]
