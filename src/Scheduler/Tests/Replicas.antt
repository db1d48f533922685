-- ===== src/Scheduler/Tests/Replicas.antt =====
-- The theorems on scaling, on the sample tables.
use mikrom.Prelude.{◌≡◌, refl, true, ◌∷◌, same, tally, arith}
use mikrom.Scheduler.World.{World, is_ok}
use mikrom.Scheduler.Store.Jobs.Rows.{Distinct}
use mikrom.Scheduler.Scaling.{scale_app}
use mikrom.Scheduler.Scaling.Replicas.{is_counted, Fresh}
use mikrom.Scheduler.Scaling.Reached.{Reached, scale_app-Reached}
use mikrom.Scheduler.Scaling.Success.{scale_down_succeeds}
use mikrom.Scheduler.Samples.{
  web_job, stars, not_stars, calm, small, small-Distinct, small-Fresh, calm-UniqueIds,
}

one_counted : tally (is_counted "web" "ann") small.jobs ≡ 1
unfolding same
one_counted = refl

scale_app-Reached_example : Reached calm "web" "ann" 3 (scale_app calm "web" 3 "ann" small)
scale_app-Reached_example =
    scale_app-Reached calm "web" "ann" calm-UniqueIds 3 small (omega arith)
      (omega (arith, one_counted)) (omega (arith, one_counted)) small-Distinct small-Fresh

-- Two replicas of the first app.
abbrev paired : World
paired = record small { jobs = record web_job { job_id = "job-web-2" } ∷ small.jobs }

paired-Distinct : Distinct paired.jobs
unfolding same
paired-Distinct = (refl, small-Distinct)

two_counted : tally (is_counted "web" "ann") paired.jobs ≡ 2
unfolding same
two_counted = refl

paired-Fresh : Fresh calm paired
unfolding Fresh stars same
paired-Fresh n le = ground (arith, not_stars n 9 "job-web-2" refl refl, small-Fresh n le)

scale_down_succeeds_example :
    let (r, w') = scale_app calm "web" 1 "ann" paired in
    (is_ok r ≡ true) × (tally (is_counted "web" "ann") w'.jobs ≡ 1)
scale_down_succeeds_example =
    scale_down_succeeds calm (λ n. refl) "ann" "web" 1 paired calm-UniqueIds (omega arith)
      (omega (arith, two_counted)) (omega (arith, two_counted)) paired-Distinct paired-Fresh
