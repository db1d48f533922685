-- ===== src/Scheduler/Heartbeats/Liveness.antt =====
-- Heartbeats keep workers online; silence takes them offline.
use mikrom.Prelude.{
  ℕ, ◌+◌, String, ◌≡◌, refl, false, some, List, [], ◌∷◌, arith, same_refl, find, tally,
  update_where, Bool-cases, inl, inr,
}
use mikrom.Scheduler.Worker.{Worker, online, offline}
use mikrom.Scheduler.World.{Env, World, Result, ok, err}
use mikrom.Scheduler.Store.Workers.{is_worker, is_online, is_stale, fresh_row, upsert_worker}
use mikrom.Scheduler.Heartbeats.{
  RouterHeartbeat, worker_of, process_router_heartbeat, cleanup_stale_workers,
}

module _ (id : String) (now : ℕ) where
  -- A worker of that name that has just been heard of.
  abbrev pub IsHeard : List Worker → Type 0
  IsHeard ws =
      (wk : Worker) × (find (is_worker id) ws ≡ some wk)
      × (wk.host_id ≡ id)
      × (wk.status ≡ online)
      × (wk.last_heartbeat ≡ now)

  IsHeard-cons :
      (x : Worker) (ws : List Worker) → is_worker id x ≡ false → IsHeard ws → IsHeard (x ∷ ws)
  IsHeard-cons x ws ne (wk, e, named, on, at) = (wk, ground (arith, e, ne), named, on, at)

  pub upsert-IsHeard :
      (h : Worker) (ws : List Worker)
      → h.host_id ≡ id
      → h.status ≡ online
      → IsHeard (upsert_worker h now ws)
  upsert-IsHeard h [] named on = (fresh_row h now, ground (arith, same_refl id), named, on, refl)
  upsert-IsHeard h (x ∷ ws) named on = elim (Bool-cases (is_worker h.host_id x)) [
    | inl same_row ↦ (
      record (fresh_row h now) { metrics = x.metrics; registered_at = x.registered_at },
      ground (arith, same_row, named, same_refl id),
      named,
      on,
      refl,
    )
    | inr other ↦ rw (other) (
        IsHeard-cons x (upsert_worker h now ws) (rw (← named) other) (upsert-IsHeard h ws named on))
  ]

-- The rows that a clean-up takes offline.
marked-count :
    (now threshold : ℕ) (ws : List Worker)
    → let ws' = update_where (is_stale now threshold) (λ wk. record wk { status = offline }) ws in
      (tally (is_stale now threshold) ws' ≡ 0)
      × (tally (λ wk. is_online wk.status) ws' + tally (is_stale now threshold) ws
          ≡ tally (λ wk. is_online wk.status) ws)
marked-count now threshold [] = ground arith
marked-count now threshold (wk ∷ ws) = ground (arith, marked-count now threshold ws)

module _ (env : Env) (w : World) where
  abbrev pub Swept : Result ℕ × World → Type 0
  Swept (ok n, w') =
      (tally (is_stale (env.now w.tick) env.runtime.worker_stale_threshold_secs) w'.workers ≡ 0)
      × (tally (λ wk. is_online wk.status) w'.workers + n
          ≡ tally (λ wk. is_online wk.status) w.workers)
      × (w'.jobs ≡ w.jobs)
  Swept (err _, w') = (w'.workers ≡ w.workers) × (w'.jobs ≡ w.jobs)

  -- After `cleanup_stale_workers` no online worker has been silent for longer than the threshold, and
  -- the number that it returns is how many workers have gone offline. If it fails, no worker has
  -- changed. The jobs table is untouched.
  pub cleanup_stale_workers-Swept : Swept (cleanup_stale_workers env w)
  unfolding cleanup_stale_workers
  cleanup_stale_workers-Swept =
      ground
        (arith, marked-count (env.now w.tick) env.runtime.worker_stale_threshold_secs w.workers)

module _ (env : Env) (h : RouterHeartbeat) (w : World) where
  abbrev pub Registered : Result (Unit {0}) × World → Type 0
  Registered (ok _, w') = IsHeard h.host_id (env.now w.tick) w'.workers
  Registered (err _, w') = w'.workers ≡ w.workers

  -- After a router's heartbeat its row is found by its name, online and heard of at the time of the
  -- heartbeat, whatever was known of it; if the database refuses, no worker has changed.
  pub process_router_heartbeat-Registered : Registered (process_router_heartbeat env h w)
  unfolding process_router_heartbeat
  process_router_heartbeat-Registered = ground (
    arith,
    upsert-IsHeard h.host_id (env.now w.tick) (worker_of h [] (env.now w.tick)) w.workers refl refl,
  )
