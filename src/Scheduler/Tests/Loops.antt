-- ===== src/Scheduler/Tests/Loops.antt =====
-- The theorems on the autoscaler loop and on router traffic, on the sample tables.
use mikrom.Prelude.{
  ◌≡◌, ◌∷◌, [], refl, true, false, ℕ, none, ltb, if◌then◌else◌, stable_sort, ◌&&◌, same, some, find,
  keep, tally, arith,
}
use mikrom.Scheduler.Job.{is_active, paused, no_workers}
use mikrom.Scheduler.Worker.{AppConfig}
use mikrom.Scheduler.World.{Env, World, ok}
use mikrom.Scheduler.Store.Workers.{by_id}
use mikrom.Scheduler.Scaling.{scale_app}
use mikrom.Scheduler.Reconcile.{reconcile_each, reconcile_apps}
use mikrom.Scheduler.Reconcile.Total.{all_reconciled, listed, reconcile_apps_survives}
use mikrom.Scheduler.Reconcile.Asleep.{autoscaled_sleeps, manual_wakes}
use mikrom.Scheduler.Samples.{faulty, calm, small, web_job, web_app, worker_one}

-- Two apps, and nothing answers once the three lists are read.
abbrev two_apps : World
two_apps = record small { apps = web_app ∷ record web_app { id = "shop" } ∷ [] }

abbrev failing : Env
failing = faulty (λ (n : ℕ). if ltb n 3 then none else some no_workers)

reconcile_apps_survives_example : reconcile_apps failing two_apps ≡ (
  ok tt,
  all_reconciled failing
      (web_app ∷ record web_app { id = "shop" } ∷ [])
      (keep (λ j. is_active j.status) small.jobs)
      (stable_sort (by_id failing) small.workers)
      (failing.now (listed failing two_apps).tick)
      (listed failing two_apps),
)
reconcile_apps_survives_example =
    reconcile_apps_survives failing web_app (record web_app { id = "shop" } ∷ []) two_apps refl refl
      refl refl

-- The first app sleeps.
abbrev asleep : World
asleep = record small { jobs = record web_job { status = paused } ∷ [] }

autoscaled_sleeps_example :
    reconcile_each calm (web_app ∷ []) [] (worker_one ∷ []) 1000 asleep ≡ (ok tt, asleep)
autoscaled_sleeps_example =
    autoscaled_sleeps calm web_app [] (worker_one ∷ []) 1000 asleep refl refl (omega arith) refl
      (omega arith)

abbrev backing_off : AppConfig
backing_off = record web_app { last_router_traffic_at = 900; restore_retry_after_at = 2000 }

abbrev by_hand : AppConfig
by_hand = record web_app { autoscaling_enabled = false; restore_retry_after_at = 2000 }

manual_wakes_example :
    reconcile_each calm (by_hand ∷ []) [] (worker_one ∷ []) 1000 asleep
    ≡ (ok tt, (scale_app calm "web" 1 "ann" asleep).1)
manual_wakes_example =
    manual_wakes calm by_hand [] (worker_one ∷ []) 1000 asleep refl refl (omega arith) refl
      (omega arith) (omega arith) (omega arith)

abbrev held_back : World
held_back = record asleep { apps = backing_off ∷ [] }

held_back_known : find (λ x. same x.hostname "web.example") held_back.apps ≡ some backing_off
unfolding same
held_back_known = refl

web_known : find (λ x. same x.hostname "web.example") asleep.apps ≡ some web_app
unfolding same
web_known = refl

none_active :
    tally
      (λ j. is_active j.status)
      (keep (λ j. same j.tenant_id "ann" && (same j.app_id "web" && true)) asleep.jobs)
    ≡ 0
unfolding same
none_active = refl
