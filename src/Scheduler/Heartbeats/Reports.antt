-- ===== src/Scheduler/Heartbeats/Reports.antt =====
-- A worker's heartbeat with metrics makes the worker available for placement.
use mikrom.Prelude.{
  ℕ, suc, ◌-◌, String, ◌≡◌, refl, true, false, none, some, List, [], ◌∷◌, arith, find, keep, map,
  update_where, Bool, ◌&&◌, Option-cases, inl, inr,
}
use mikrom.Scheduler.Job.{Job, running}
use mikrom.Scheduler.Worker.{Worker, HostMetrics, online}
use mikrom.Scheduler.World.{Env, World, Result, ok, err, step_tick, is_ok}
use mikrom.Scheduler.Store.Jobs.{list_jobs, fail_job, matches_status}
use mikrom.Scheduler.Store.Workers.{
  is_worker, is_available, upsert_worker, register, update_metrics,
}
use mikrom.Scheduler.Heartbeats.{
  ReportedVm, ReportMetrics, WorkerHeartbeat, worker_of, known_hypervisors, is_on_host,
  fail_reported, last_on_vm, failure_message, announce_failure, process_metrics,
  process_worker_heartbeat,
}
use mikrom.Scheduler.Heartbeats.Liveness.{upsert-IsHeard}

find-update_where :
    (id : String) (f : Worker → Worker) (ws : List Worker) (wk : Worker)
    → find (is_worker id) ws ≡ some wk
    → ((v : Worker) → (f v).host_id ≡ v.host_id)
    → find (is_worker id) (update_where (is_worker id) f ws) ≡ some (f wk)
find-update_where id f [] wk e keeps = ground arith
find-update_where id f (v ∷ ws) wk e keeps = ground (arith, keeps v, find-update_where id f ws wk)

suc_pred : (n : ℕ) → suc n - 1 ≡ n
suc_pred n = omega arith

module _ (env : Env) where
  announce_failure-workers :
      (j : Job) (message : String) (now : ℕ) (w : World)
      → (announce_failure env j message now w).1.workers ≡ w.workers
  unfolding announce_failure
  announce_failure-workers j message now w = ground arith

  -- Failures that a heartbeat reports change no worker, and end in no error.
  fail_reported-workers :
      (jobs : List Job) (vms : List (String × ReportedVm)) (now : ℕ) (w : World)
      → ((fail_reported env jobs vms now w).1.workers ≡ w.workers)
        × (is_ok (fail_reported env jobs vms now w).0 ≡ true)
  unfolding fail_reported
  fail_reported-workers jobs [] now w = (refl, refl)
  fail_reported-workers jobs ((vm_id, m) ∷ vms) now w =
      elim (Option-cases (last_on_vm vm_id jobs)) [
        | inl unknown ↦ ground (arith, unknown, fail_reported-workers jobs vms now w)
        | inr (j, known) ↦
            let message = failure_message m.error_message in
            let w₁ = (fail_job env j.job_id message now w).1 in
            let w₂ = (announce_failure env j message now w₁).1 in
            ground (
              arith,
              known,
              fail_reported-workers jobs vms now w,
              fail_reported-workers jobs vms now w₁,
              fail_reported-workers jobs vms now w₂,
              announce_failure-workers j message now w₁,
            )
      ]

  -- The named worker is available for placement at the time of the last call.
  abbrev pub is_placeable : String → World → Bool
  is_placeable id w' = elim (find (is_worker id) w'.workers) [
    | none ↦ false
    | some wk ↦ is_available (env.now (w'.tick - 1)) 30 wk
  ]

  abbrev pub Placeable : {A : Type 0} → String → Result A × World → Type 0
  Placeable id (ok _, w') = is_placeable id w' ≡ true
  Placeable id (err _, w') = Unit

  update_metrics-Placeable :
      (id : String) (m : HostMetrics) (wk : Worker) (w : World)
      → find (is_worker id) w.workers ≡ some wk
      → Placeable id (update_metrics env id m w)
  unfolding update_metrics
  update_metrics-Placeable id m wk w known = ground (
    arith,
    find-update_where id
        (λ v. record v { metrics = some m; last_heartbeat = env.now w.tick; status = online })
        w.workers wk known (λ v. refl),
    suc_pred w.tick,
  )

  process_metrics-Placeable :
      (id : String) (metrics : ReportMetrics) (now : ℕ) (wk : Worker) (w : World)
      → find (is_worker id) w.workers ≡ some wk
      → Placeable id (process_metrics env id metrics now w)
  unfolding process_metrics list_jobs
  process_metrics-Placeable id metrics now wk w known =
      let jobs =
        keep (is_on_host id)
          (keep (λ j. true && (true && matches_status (some running) j.status)) w.jobs) in
      let w' = (fail_reported env jobs metrics.vms now (step_tick w)).1 in
      let failures = fail_reported-workers jobs metrics.vms now (step_tick w) in
      ground (
        arith,
        failures,
        update_metrics-Placeable id
            (record metrics.host {
              vms = map (λ (entry : String × ReportedVm). (entry.0, entry.1.usage)) metrics.vms;
            })
            wk w' (rw (failures.0) known),
      )

  -- When a worker's heartbeat with metrics is processed without an error, whatever failures of
  -- machines it reports, the worker is in the table, online, with metrics and just heard of: it is
  -- available for placement at the time of the last call, whatever was known of it before.
  pub process_worker_heartbeat-Placeable :
      (h : WorkerHeartbeat) (metrics : ReportMetrics) (w : World)
      → h.metrics ≡ some metrics
      → Placeable h.router.host_id (process_worker_heartbeat env h w)
  unfolding process_worker_heartbeat register
  process_worker_heartbeat-Placeable h metrics w reported =
      let now = env.now w.tick in
      let worker = worker_of h.router (known_hypervisors h.supported_hypervisors) now in
      let heard = upsert-IsHeard h.router.host_id now worker w.workers refl refl in
      let w' = record (step_tick w) { workers = upsert_worker worker now w.workers } in
      ground (arith, process_metrics-Placeable h.router.host_id metrics now heard.0 w' heard.1)
