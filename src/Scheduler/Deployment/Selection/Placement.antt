-- ===== src/Scheduler/Deployment/Selection/Placement.antt =====
-- The worker that `select_best_worker` answers, against the table of workers.
use mikrom.Prelude.{
  suc, subst, length-keep, and_left, and_right, tally-keep, tally-true-keep, tally-sort, String,
  ◌≡◌, Bool, true, false, ◌&&◌, none, [], ◌∷◌, arith, keep, tally, Member, Member-keep, keep-Member,
  Member-sort, sort-Member,
}
use mikrom.Scheduler.Job.{VmConfig, no_workers, no_fit}
use mikrom.Scheduler.Worker.{Worker, SchedulingStrategy}
use mikrom.Scheduler.World.{Env, World, Result, ok, err, step_tick}
use mikrom.Scheduler.Store.Workers.{is_available, by_id}
use mikrom.Scheduler.Deployment.Selection.{
  IsScoreOrder, instances, chosen, Member-chosen, chosen-precedes, Choice, nobody, no_room, picked,
  select_from-Choice, offered,
}
use mikrom.Scheduler.Deployment.Selection.Ranking.{fitness, better_for, precedes-better}
use mikrom.Scheduler.Deployment.{
  is_viable, precedes, count_instances, select_from, select_best_worker,
}

-- Fit to be chosen: online, heard of in the last 30 seconds, with metrics, and viable.
abbrev pub candidate : Env → VmConfig → World → Worker → Bool
candidate env config w wk = is_available (env.now w.tick) 30 wk && is_viable config wk

-- What the answer says about the workers of `w`.
abbrev pub Selected : Env → VmConfig → World → Result Worker × World → Type 0
Selected env config w (ok wk, _) = Member wk w.workers × (candidate env config w wk ≡ true)
Selected env config w (err no_workers, _) = tally (is_available (env.now w.tick) 30) w.workers ≡ 0
Selected env config w (err no_fit, _) = tally (candidate env config w) w.workers ≡ 0
Selected env config w (err _, _) = ⊥

module _ (env : Env) (config : VmConfig) (app_id : String) (strategy : SchedulingStrategy)
    (w : World) (up : env.fault w.tick ≡ none) (up2 : env.fault (suc w.tick) ≡ none) where
  select_best_worker-Choice :
      Choice env config app_id strategy
        (step_tick w)
        (offered env config app_id strategy w)
        (select_best_worker env config app_id strategy w)
  unfolding select_best_worker
  select_best_worker-Choice =
      let same_call : select_best_worker env config app_id strategy w
          ≡ select_from env config app_id strategy (offered env config app_id strategy w)
              (step_tick w) =
        ground arith in
      rw same_call (select_from-Choice env config app_id strategy (step_tick w) _ up2)

  Choice-Selected :
      (r : Result Worker × World)
      → Choice env config app_id strategy (step_tick w) (offered env config app_id strategy w) r
      → Selected env config w r
  Choice-Selected r (nobody e q) =
      let before = by_id env in
      let available = is_available (env.now w.tick) 30 in
      ground (
        arith,
        tally-sort before (λ _. true) (keep available w.workers),
        tally-true-keep available w.workers,
      )
  Choice-Selected r (no_room e q) =
      let before = by_id env in
      let available = is_available (env.now w.tick) 30 in
      ground (
        arith,
        length-keep (is_viable config) (offered env config app_id strategy w),
        tally-sort before (is_viable config) (keep available w.workers),
        tally-keep available (is_viable config) w.workers,
      )
  Choice-Selected r (picked x xs e q) =
      let before = by_id env in
      let available = is_available (env.now w.tick) 30 in
      let wk = chosen env app_id strategy (instances app_id (step_tick w)) x xs in
      let listed = Member-chosen env app_id strategy (instances app_id (step_tick w)) x xs in
      let viable =
        Member-keep (is_viable config) wk (offered env config app_id strategy w) (rw e listed) in
      let known = Member-keep available wk w.workers (Member-sort before wk _ viable.0) in
      rw q (known.0, rw (known.1) viable.1)

  -- When the database answers, `select_best_worker` returns a worker of the table that is online,
  -- was heard of in the last 30 seconds, has metrics, supports the hypervisor and has room; or it
  -- answers "no workers", when no worker is available, or "no fit", when no available worker is
  -- viable; and it gives no other error.
  pub select_best_worker-Selected :
      Selected env config w (select_best_worker env config app_id strategy w)
  select_best_worker-Selected = Choice-Selected _ select_best_worker-Choice

  Choice-best :
      (r : Result Worker × World) (wk v : Worker)
      → IsScoreOrder env.fl
      → Choice env config app_id strategy (step_tick w) (offered env config app_id strategy w) r
      → r.0 ≡ ok wk
      → Member v w.workers
      → candidate env config w v ≡ true
      → precedes env.fl strategy (count_instances app_id w.jobs []) wk v ≡ true
  Choice-best r wk v order (nobody e q) got m fit = ground arith
  Choice-best r wk v order (no_room e q) got m fit = ground arith
  Choice-best r wk v order (picked x xs e q) got m fit =
      let counts = instances app_id (step_tick w) in
      let offers =
        sort-Member (by_id env) v (keep (is_available (env.now w.tick) 30) w.workers)
          (keep-Member (is_available (env.now w.tick) 30) v w.workers m (and_left _ _ fit)) in
      let viable : Member v (x ∷ xs) =
        subst (λ l. Member v l) e (keep-Member (is_viable config) v _ offers (and_right _ _ fit)) in
      let same_worker : chosen env app_id strategy counts x xs ≡ wk = ground arith in
      rw (← same_worker) (chosen-precedes env app_id strategy counts x xs v order viable)

  -- When the database answers and scores compare like numbers, no worker that could have been chosen is
  -- strictly better, for the strategy, than the one that `select_best_worker` returns. For least-loaded a
  -- higher fitness is better, for bin-packing a lower one; it is made of the free shares of the host's
  -- processors, memory and places for apps, less a fifth for each job of the app that has the host, in
  -- whatever status but failed or cancelled.
  pub select_best_worker_optimal :
      (wk v : Worker)
      → IsScoreOrder env.fl
      → (select_best_worker env config app_id strategy w).0 ≡ ok wk
      → Member v w.workers
      → candidate env config w v ≡ true
      → better_for env.fl strategy
          (fitness env.fl app_id w.jobs v)
          (fitness env.fl app_id w.jobs wk)
        ≡ false
  select_best_worker_optimal wk v order got m fit =
      precedes-better env.fl strategy app_id w.jobs wk v
        (Choice-best _ wk v order select_best_worker-Choice got m fit)
