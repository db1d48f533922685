-- ===== src/Scheduler/Store/Workers.antt =====
-- `PgWorkerRepository`.
use mikrom.Prelude.{
  ℕ, ◌+◌, String, Bool, not, ◌&&◌, Option, none, some, List, [], ◌∷◌, if◌then◌else◌, same, ltb,
  is_some, unwrap_or, find, keep, tally, update_where, stable_sort,
}
use mikrom.Scheduler.Job.{Job}
use mikrom.Scheduler.Worker.{Worker, HostMetrics, WorkerStatus, online, offline}
use mikrom.Scheduler.World.{Env, World, M, ok, query, update, clock, ◌>>=◌}

abbrev pub is_worker : String → Worker → Bool
is_worker id wk = same wk.host_id id

abbrev pub is_online : WorkerStatus → Bool
is_online online = Bool.true
is_online offline = Bool.false

-- The row that `register` inserts.
abbrev pub fresh_row : Worker → ℕ → Worker
fresh_row wk now = record wk {
  metrics = none;
  wireguard_port = some (unwrap_or wk.wireguard_port 51820);
  last_heartbeat = now;
  registered_at = now;
}

-- `ON CONFLICT (id) DO UPDATE`: metrics and the time of registration stay.
abbrev pub upsert_worker : Worker → ℕ → List Worker → List Worker
upsert_worker wk now [] = fresh_row wk now ∷ []
upsert_worker wk now (x ∷ xs) =
    if is_worker wk.host_id x
    then record (fresh_row wk now) { metrics = x.metrics; registered_at = x.registered_at } ∷ xs
    else x ∷ upsert_worker wk now xs

abbrev pub with_workers : (List Worker → List Worker) → World → World
with_workers f w = record w { workers = f w.workers }

-- `last_heartbeat > now - threshold`, among online workers with metrics.
abbrev pub is_available : ℕ → ℕ → Worker → Bool
is_available now threshold wk =
    is_some wk.metrics && (ltb now (wk.last_heartbeat + threshold) && is_online wk.status)

-- `last_heartbeat < now - threshold`, among online workers.
abbrev pub is_stale : ℕ → ℕ → Worker → Bool
is_stale now threshold wk = ltb (wk.last_heartbeat + threshold) now && is_online wk.status

abbrev pub is_on : String → Job → Bool
is_on id j = elim j.host_id [ none ↦ Bool.false | some h ↦ same h id ]

module _ (env : Env) where
  abbrev pub by_id : Worker → Worker → Bool
  by_id a b = env.collates a.host_id b.host_id

  unfoldable pub register : Worker → M (Unit {0})
  register wk = do now ← clock env; update env (with_workers (upsert_worker wk now))

  -- The jobs on the host lose it: `host_id … REFERENCES workers(id) ON DELETE SET NULL`.
  unfoldable pub unregister : String → M (Unit {0})
  unregister id = update env (λ w. record w {
    workers = keep (λ wk. not (is_worker id wk)) w.workers;
    jobs = update_where (is_on id) (λ j. record j { host_id = none }) w.jobs;
  })

  unfoldable pub update_metrics : String → HostMetrics → M (Unit {0})
  update_metrics id m = do
    now ← clock env
    update env (
        with_workers (
          update_where (is_worker id)
            (λ wk. record wk { metrics = some m; last_heartbeat = now; status = online })))

  unfoldable pub get_worker : String → M (Option Worker)
  get_worker id = query env (λ w. find (is_worker id) w.workers)

  unfoldable pub list_workers : M (List Worker)
  list_workers = query env (λ w. stable_sort by_id w.workers)

  unfoldable pub get_available_workers : ℕ → M (List Worker)
  get_available_workers threshold = do
    now ← clock env
    query env (λ w. stable_sort by_id (keep (is_available now threshold) w.workers))

  -- Returns the number of rows that the statement changed.
  unfoldable pub mark_stale_workers_offline : ℕ → M ℕ
  mark_stale_workers_offline threshold = do
    now ← clock env
    rows ← query env (λ w. tally (is_stale now threshold) w.workers)
    λ w. (
      ok rows,
      with_workers (update_where (is_stale now threshold) (λ wk. record wk { status = offline })) w,
    )
