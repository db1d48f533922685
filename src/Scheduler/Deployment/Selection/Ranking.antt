-- ===== src/Scheduler/Deployment/Selection/Ranking.antt =====
-- How good a worker is for an app, written down without the map of counts and the sort of the code.
use mikrom.Prelude.{
  ℕ, suc, ◌+◌, String, ◌≡◌, refl, Bool, true, false, ◌&&◌, not, Option, none, some, List, [], ◌∷◌,
  if◌then◌else◌, inl, inr, Bool-cases, arith, same, same_refl, eq_of_same, tally,
}
use mikrom.Scheduler.Job.{Job, JobStatus, failed, cancelled}
use mikrom.Scheduler.Worker.{
  Floats, Worker, SchedulingStrategy, least_loaded, bin_packing, calculate_score,
}
use mikrom.Scheduler.Deployment.{
  bump, count_of, is_failed_or_cancelled, count_instances, raw_score, score_worker, precedes,
}

-- A failed or cancelled job takes no place.
abbrev pub takes_place : JobStatus → Bool
takes_place failed = false
takes_place cancelled = false
takes_place _ = true

-- The jobs of an app that take a place on a host.
abbrev pub on_host : String → String → Job → Bool
on_host app_id host j =
    same j.app_id app_id
    && (takes_place j.status && elim j.host_id [ none ↦ false | some h ↦ same h host ])

-- Two fifths for the free share of the processors, two for that of the memory and one for that of ten apps,
-- less a fifth for every job of the app that takes a place on the host, and not below zero.
abbrev pub fitness : Floats → String → List Job → Worker → ℕ
fitness fl app_id jobs wk =
    fl.max
      (fl.sub
        (elim wk.metrics [
          | none ↦ fl.lit 0 0
          | some m ↦
              fl.max
                (fl.add
                  (fl.add
                    (fl.mul (fl.sub (fl.lit 1 0) (fl.div m.cpu_usage (fl.lit 100 0))) (fl.lit 4 1))
                    (fl.mul
                      (fl.sub (fl.lit 1 0)
                        (fl.div (fl.of_nat m.ram_used_bytes) (fl.of_nat m.ram_total_bytes)))
                      (fl.lit 4 1)))
                  (fl.mul (fl.sub (fl.lit 1 0) (fl.div (fl.of_nat m.apps_count) (fl.of_nat 10)))
                    (fl.lit 2 1)))
                (fl.lit 0 0)
        ])
        (fl.mul (fl.of_nat (tally (on_host app_id wk.host_id) jobs)) (fl.lit 2 1)))
      (fl.lit 0 0)

-- The first fitness is strictly better than the second: higher where load is to be spread, lower where machines
-- are to be packed.
abbrev pub better_for : Floats → SchedulingStrategy → ℕ → ℕ → Bool
better_for fl least_loaded x y = fl.lt y x
better_for fl bin_packing x y = fl.lt x y

count_of-bump :
    (h k : String) (m : List (String × ℕ))
    → count_of h (bump k m) ≡ (if same k h then suc (count_of h m) else count_of h m)
count_of-bump h k [] = ground arith
count_of-bump h k ((j, n) ∷ m) = elim (Bool-cases (same j k)) [
  | inl e ↦ rw (e) (ground (arith, eq_of_same j k e))
  | inr e ↦
      rw (e) (ground (arith, count_of-bump h k m, eq_of_same j h, eq_of_same k h, same_refl h))
]

takes_place-not : (st : JobStatus) → takes_place st ≡ not (is_failed_or_cancelled st)
takes_place-not st = ground arith

module _ (app_id host : String) where
  -- One job, by whether it is the app's and has failed, and by its host, before the others.
  count_one :
      (js : List Job) (m : List (String × ℕ))
      → ((m : List (String × ℕ))
          → count_of host (count_instances app_id js m)
            ≡ count_of host m + tally (on_host app_id host) js)
      → (ours gone : Bool) (o : Option String)
      → count_of host (
          count_instances app_id js
            (if not ours then m else if gone then m else (elim o [ none ↦ m | some h ↦ bump h m ])))
        ≡ count_of host m
          + (if ours && (not gone && (elim o [ none ↦ false | some h ↦ same h host ]))
              then suc (tally (on_host app_id host) js)
              else tally (on_host app_id host) js)
  count_one js m rest false gone o = rest m
  count_one js m rest true true o = rest m
  count_one js m rest true false none = rest m
  count_one js m rest true false (some h) = ground (arith, rest (bump h m), count_of-bump host h m)

  count_of-instances :
      (js : List Job) (m : List (String × ℕ))
      → count_of host (count_instances app_id js m)
        ≡ count_of host m + tally (on_host app_id host) js
  unfolding count_instances
  count_of-instances [] m = ground arith
  count_of-instances (j ∷ js) m = rw (takes_place-not j.status) (
      count_one js m (count_of-instances js) (same j.app_id app_id)
        (is_failed_or_cancelled j.status) j.host_id)

count_of-all :
    (app_id host : String) (js : List Job)
    → count_of host (count_instances app_id js []) ≡ tally (on_host app_id host) js
count_of-all app_id host js = ground (arith, count_of-instances app_id host js [])

score_worker-fitness :
    (fl : Floats) (app_id : String) (jobs : List Job) (wk : Worker)
    → score_worker fl (count_instances app_id jobs []) wk ≡ fitness fl app_id jobs wk
unfolding score_worker raw_score calculate_score
score_worker-fitness fl app_id jobs wk =
    rw (score_worker, raw_score, count_of-all app_id wk.host_id jobs) refl

-- What `precedes` says of the code's scores.
pub precedes-better :
    (fl : Floats) (strategy : SchedulingStrategy) (app_id : String) (jobs : List Job)
    (wk v : Worker)
    → precedes fl strategy (count_instances app_id jobs []) wk v ≡ true
    → better_for fl strategy (fitness fl app_id jobs v) (fitness fl app_id jobs wk) ≡ false
precedes-better fl least_loaded app_id jobs wk v h =
    ground (arith, h, score_worker-fitness fl app_id jobs wk, score_worker-fitness fl app_id jobs v)
precedes-better fl bin_packing app_id jobs wk v h =
    ground (arith, h, score_worker-fitness fl app_id jobs wk, score_worker-fitness fl app_id jobs v)
