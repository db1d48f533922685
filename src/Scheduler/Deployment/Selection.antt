-- ===== src/Scheduler/Deployment/Selection.antt =====
-- Which worker `select_best_worker` picks.
pub mod Placement
pub mod Ranking
use mikrom.Prelude.{
  ℕ, ◌+◌, String, ◌≡◌, refl, ◌⊎◌, inl, inr, Bool, true, false, ◌&&◌, none, some, List, [], ◌∷◌,
  arith, keep, keep_all, tally, first, stable_sort, unwrap_or, Member, Member-keep, keep-Member,
  Member-sort, sort-Member, Member-first, first-sort_some, first-sort-le,
}
use mikrom.Scheduler.Job.{Job, VmConfig, DomainError, no_workers, no_fit}
use mikrom.Scheduler.Worker.{Floats, Worker, SchedulingStrategy, least_loaded, bin_packing}
use mikrom.Scheduler.World.{Env, World, Result, ok, err, step_tick}
use mikrom.Scheduler.Store.Jobs.Listed.{list_jobs_all}
use mikrom.Scheduler.Store.Workers.{is_available, by_id}
use mikrom.Scheduler.Deployment.{
  is_viable, raw_score, score_worker, precedes, count_instances, choose, select_from,
  select_best_worker,
}

-- `f32::max` with 0 never answers NaN, so `<` orders its values: what the sort relies on.
pub record IsScoreOrder (fl : Floats) : Type 0 where
  pub asymmetric :
      (x y : ℕ)
      → fl.lt (fl.max x (fl.lit 0 0)) (fl.max y (fl.lit 0 0)) ≡ true
      → fl.lt (fl.max y (fl.lit 0 0)) (fl.max x (fl.lit 0 0)) ≡ false
  pub comparable :
      (x y z : ℕ)
      → fl.lt (fl.max x (fl.lit 0 0)) (fl.max y (fl.lit 0 0)) ≡ false
      → fl.lt (fl.max y (fl.lit 0 0)) (fl.max z (fl.lit 0 0)) ≡ false
      → fl.lt (fl.max x (fl.lit 0 0)) (fl.max z (fl.lit 0 0)) ≡ false

-- Scores that lie in the order compare like numbers, whichever way the strategy turns them.
module _ {fl : Floats} (order : IsScoreOrder fl) where
  module _ (strategy : SchedulingStrategy) (counts : List (String × ℕ)) where
    precedes_total :
        (a b : Worker)
        → precedes fl strategy counts a b ≡ false
        → precedes fl strategy counts b a ≡ true
    unfolding score_worker
    precedes_total a b h =
        let raw = raw_score fl counts in
        ground (arith, order.asymmetric (raw a) (raw b), order.asymmetric (raw b) (raw a))

    precedes_refl : (a : Worker) → precedes fl strategy counts a a ≡ true
    unfolding score_worker
    precedes_refl a =
        let raw = raw_score fl counts in ground (arith, order.asymmetric (raw a) (raw a))

    precedes_trans :
        (a b c : Worker)
        → precedes fl strategy counts a b ≡ true
        → precedes fl strategy counts b c ≡ true
        → precedes fl strategy counts a c ≡ true
    unfolding score_worker
    precedes_trans a b c h k =
        let raw = raw_score fl counts in
        ground (
          arith,
          order.comparable (raw a) (raw b) (raw c),
          order.comparable (raw c) (raw b) (raw a),
        )

abbrev instances : String → World → List (String × ℕ)
instances app_id w = count_instances app_id w.jobs []

module _ (env : Env) (app_id : String) (strategy : SchedulingStrategy) where
  -- The choice, in one line.
  choose_lem :
      (wk : Worker) (wks : List Worker) (w : World)
      → env.fault w.tick ≡ none
      → choose env app_id strategy (wk ∷ wks) w ≡ (
        ok (
            unwrap_or
              (first (stable_sort (precedes env.fl strategy (instances app_id w)) (wk ∷ wks)))
              wk),
        step_tick w,
      )
  unfolding choose
  choose_lem wk wks w up = ground (arith, list_jobs_all env w up)

  -- The chosen one is on the list, and none on the list comes strictly before it.
  chosen : List (String × ℕ) → Worker → List Worker → Worker
  chosen counts wk wks =
      unwrap_or (first (stable_sort (precedes env.fl strategy counts) (wk ∷ wks))) wk

  Member-chosen :
      (counts : List (String × ℕ)) (wk : Worker) (wks : List Worker)
      → Member (chosen counts wk wks) (wk ∷ wks)
  unfolding chosen
  Member-chosen counts wk wks =
      let before = precedes env.fl strategy counts in
      Member-sort before _ (wk ∷ wks)
        (Member-first before _ (stable_sort before (wk ∷ wks)) (first-sort_some before wk wk wks))

  chosen-precedes :
      (counts : List (String × ℕ)) (wk : Worker) (wks : List Worker) (v : Worker)
      → IsScoreOrder env.fl
      → Member v (wk ∷ wks)
      → precedes env.fl strategy counts (chosen counts wk wks) v ≡ true
  unfolding chosen
  chosen-precedes counts wk wks v order m =
      let before = precedes env.fl strategy counts in
      first-sort-le before (precedes_total order strategy counts)
        (precedes_refl order strategy counts) (precedes_trans order strategy counts) _ v (wk ∷ wks)
        (first-sort_some before wk wk wks) m

-- How the selection from a list of available workers ends, when the database answers.
data Choice (env : Env) (config : VmConfig) (app_id : String) (strategy : SchedulingStrategy)
    (w : World) (ws : List Worker) (r : Result Worker × World) : Type 0 where
  nobody : ws ≡ [] → r ≡ (err no_workers, w) → Choice env config app_id strategy w ws r
  no_room :
      keep (is_viable config) ws ≡ []
      → r ≡ (err no_fit, w)
      → Choice env config app_id strategy w ws r
  picked :
      (x : Worker) (xs : List Worker)
      → keep (is_viable config) ws ≡ x ∷ xs
      → r ≡ (ok (chosen env app_id strategy (instances app_id w) x xs), step_tick w)
      → Choice env config app_id strategy w ws r

module _ (env : Env) (config : VmConfig) (app_id : String) (strategy : SchedulingStrategy)
    (w : World) where
  choose-Choice :
      (ws vs : List Worker)
      → env.fault w.tick ≡ none
      → keep (is_viable config) ws ≡ vs
      → Choice env config app_id strategy w ws (choose env app_id strategy vs w)
  unfolding choose chosen
  choose-Choice ws [] up e = no_room e refl
  choose-Choice ws (x ∷ xs) up e = picked x xs e (choose_lem env app_id strategy x xs w up)

  select_from-Choice :
      (ws : List Worker)
      → env.fault w.tick ≡ none
      → Choice env config app_id strategy w ws (select_from env config app_id strategy ws w)
  unfolding select_from
  select_from-Choice [] up = nobody refl refl
  select_from-Choice (x ∷ xs) up = choose-Choice (x ∷ xs) (keep (is_viable config) (x ∷ xs)) up refl

  -- The workers that are offered, in the database's order.
  abbrev offered : List Worker
  offered = stable_sort (by_id env) (keep (is_available (env.now w.tick) 30) w.workers)
