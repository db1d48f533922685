-- ===== src/Scheduler/Heartbeats/Failures.antt =====
-- A machine that fails.
use mikrom.Prelude.{ℕ, String, ◌≡◌, ◌⊎◌, ◌∷◌, same, refl, true, false, some, arith, find, ◌+◌}
use mikrom.Scheduler.Job.{Job, failed}
use mikrom.Scheduler.World.{Env, World, Result, ok, err}
use mikrom.Scheduler.Store.Jobs.{has_vm, find_job}
use mikrom.Scheduler.Store.Jobs.Rows.{find_job-update_where_self, find_job-update_where_ne}
use mikrom.Scheduler.Heartbeats.{failure_message, is_terminal, process_vm_failure}

-- The row of a job whose machine failed.
abbrev pub failed_row : Job → String → ℕ → Job
failed_row j message at = record j {
  status = failed;
  error_message = some (failure_message message);
  stopped_at = some at;
}

module _ (env : Env) (vm_id message : String) (w : World) (j : Job)
    (on_vm : find (has_vm vm_id) w.jobs ≡ some j) (row : find_job j.job_id w.jobs ≡ some j) where
  abbrev pub Recorded : Result (Unit {0}) × World → Type 0
  Recorded (err _, w') = w'.jobs ≡ w.jobs
  Recorded (ok _, w') =
      ((is_terminal j.status ≡ true) × (w'.jobs ≡ w.jobs) × (w'.updates ≡ w.updates))
      ⊎ ((is_terminal j.status ≡ false)
          × (find_job j.job_id w'.jobs ≡ some (failed_row j message (env.now (w.tick + 2))))
          × (w'.updates ≡ failed_row j message (env.now (w.tick + 2)) ∷ w.updates))

  -- When a machine of a job is reported to have failed, `process_vm_failure` ends in one of three
  -- ways, whatever fails on the way: with an error, and the jobs table as it was; with success for a
  -- job that had already failed, was cancelled or was stopped, and neither the table nor the
  -- published updates changed; or with success, the job's row being marked failed with the message
  -- and the time, and just that row published.
  pub process_vm_failure-Recorded : Recorded (process_vm_failure env vm_id message w)
  unfolding process_vm_failure
  process_vm_failure-Recorded = ground (
    arith,
    find_job-update_where_self j.job_id (λ x. failed_row x message (env.now (w.tick + 2))) w.jobs j
        (λ x. refl) row,
  )

  -- No other row of the table changes in `process_vm_failure`, however it ends.
  pub process_vm_failure_spares :
      (k : String)
      → same k j.job_id ≡ false
      → find_job k (process_vm_failure env vm_id message w).1.jobs ≡ find_job k w.jobs
  unfolding process_vm_failure
  process_vm_failure_spares k ne = ground (
    arith,
    find_job-update_where_ne k j.job_id (λ x. failed_row x message (env.now (w.tick + 2))) w.jobs
        (λ x. refl) ne,
  )
