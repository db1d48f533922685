-- ===== src/Scheduler/Reconcile/Total.antt =====
-- The autoscaler loop goes through all apps, whatever fails for some of them.
use mikrom.Prelude.{
  ℕ, ◌+◌, ◌≡◌, refl, Bool, if◌then◌else◌, true, false, Option, none, some, List, [], ◌∷◌, keep,
  arith, same, tally, stable_sort, ◌∙◌,
}
use mikrom.Scheduler.Job.{Job, is_active}
use mikrom.Scheduler.Worker.{AppConfig, Worker}
use mikrom.Scheduler.World.{is_ok, Env, World, Result, ok, err, M, step_tick, pure, ◌>>=◌, ◌>>◌}
use mikrom.Scheduler.Store.Workers.{list_workers, by_id}
use mikrom.Scheduler.Store.Jobs.Listed.{list_jobs_all}
use mikrom.Scheduler.Reconcile.{
  sum_usage, reconcile_app_state_initialization, reconcile_idle_timeout,
  reconcile_restore_from_zero, reconcile_autoscaling, reconcile_manual_scaling, reconcile_app,
  reconcile_each, reconcile_apps, reconcile_listed,
}

-- A method that returns no error, whatever fails.
pub IsTotal : {A : Type 0} → M A → Type 0
IsTotal m = (w : World) → is_ok (m w).0 ≡ true

bind-is_ok :
    {A B : Type 0} (m : M A) (f : A → M B) (w : World)
    → is_ok (m w).0 ≡ true
    → ((a : A) → is_ok (f a (m w).1).0 ≡ true)
    → is_ok ((m >>= f) w).0 ≡ true
bind-is_ok {A} {B} m f w tm tf = by_result (m w) tm tf
  where
    by_result :
        (r : Result A × World)
        → is_ok r.0 ≡ true
        → ((a : A) → is_ok (f a r.1).0 ≡ true)
        → is_ok (elim r.0 as (λ _. Result B × World) [ ok a ↦ f a r.1 | err e ↦ (err e, r.1) ]).0
          ≡ true
    by_result (ok a, w') e rest = rest a
    by_result (err e, w') h rest = ground (arith, h)

bind-IsTotal :
    {A B : Type 0} (m : M A) (f : A → M B)
    → IsTotal m
    → ((a : A) → IsTotal (f a))
    → IsTotal (m >>= f)
unfolding IsTotal
bind-IsTotal m f tm tf w = bind-is_ok m f w (tm w) (λ a. tf a (m w).1)

if-IsTotal :
    {A : Type 0} (b : Bool) (m k : M A) → IsTotal m → IsTotal k → IsTotal (if b then m else k)
if-IsTotal true m k tm tk = tm
if-IsTotal false m k tm tk = tk

then_ok :
    {B : Type 0} (m : M (Unit {0})) (k : M B) (w : World)
    → is_ok (m w).0 ≡ true
    → (m >> k) w ≡ k (m w).1
then_ok {B} m k w t = by_result (m w) t
  where
    by_result :
        (r : Result (Unit {0}) × World)
        → is_ok r.0 ≡ true
        → (elim r.0 as (λ _. Result B × World) [ ok a ↦ k r.1 | err e ↦ (err e, r.1) ]) ≡ k r.1
    by_result (ok a, w') h = refl
    by_result (err e, w') h = ground (arith, h)

module _ (env : Env) where
  initialization-IsTotal :
      (app : AppConfig) (current now : ℕ)
      → IsTotal (reconcile_app_state_initialization env app current now)
  unfolding reconcile_app_state_initialization IsTotal
  initialization-IsTotal app current now w = ground arith

  idle-IsTotal :
      (app : AppConfig) (current now : ℕ) → IsTotal (reconcile_idle_timeout env app current now)
  unfolding reconcile_idle_timeout IsTotal
  idle-IsTotal app current now w = ground arith

  restore-IsTotal :
      (app : AppConfig) (current now : ℕ)
      → IsTotal (reconcile_restore_from_zero env app current now)
  unfolding reconcile_restore_from_zero IsTotal
  restore-IsTotal app current now w = ground arith

  autoscaling-IsTotal :
      (app : AppConfig) (current : ℕ) (metrics : Option (ℕ × ℕ))
      → IsTotal (reconcile_autoscaling env app current metrics)
  unfolding reconcile_autoscaling IsTotal
  autoscaling-IsTotal app current none w = refl
  autoscaling-IsTotal app current (some s) w = ground arith

  manual-IsTotal :
      (app : AppConfig) (current : ℕ) → IsTotal (reconcile_manual_scaling env app current)
  unfolding reconcile_manual_scaling IsTotal
  manual-IsTotal app current w = ground arith

  done-IsTotal : IsTotal (pure tt)
  unfolding IsTotal
  done-IsTotal w = refl

  reconcile_app-IsTotal :
      (app : AppConfig) (current : ℕ) (metrics : Option (ℕ × ℕ)) (now : ℕ)
      → IsTotal (reconcile_app env app current metrics now)
  unfolding reconcile_app
  reconcile_app-IsTotal app current metrics now =
      bind-IsTotal (reconcile_app_state_initialization env app current now) _
        (initialization-IsTotal app current now)
        (λ started.
          bind-IsTotal (reconcile_idle_timeout env started current now) _
            (idle-IsTotal started current now)
            (λ idle. if-IsTotal idle.0 (pure tt) _ done-IsTotal (
              bind-IsTotal (reconcile_restore_from_zero env idle.1 current now) _
                (restore-IsTotal idle.1 current now)
                (λ restored. if-IsTotal restored.0 (pure tt) _ done-IsTotal (
                  if-IsTotal restored.1.autoscaling_enabled _ _
                    (autoscaling-IsTotal restored.1 current metrics)
                    (manual-IsTotal restored.1 current))))))

  -- The worlds of a pass: every app of the list is dealt with, in the order of the list, in the world that the
  -- one before left.
  pub all_reconciled : List AppConfig → List Job → List Worker → ℕ → World → World
  all_reconciled [] active workers now w = w
  all_reconciled (app ∷ apps) active workers now w =
      all_reconciled apps active workers now
        (reconcile_app env app (tally (λ j. same j.app_id app.id) active)
          (sum_usage env.fl workers app.id active none) now w).1

  reconcile_each_lem :
      (apps : List AppConfig) (active : List Job) (workers : List Worker) (now : ℕ) (w : World)
      → reconcile_each env apps active workers now w
        ≡ (ok tt, all_reconciled apps active workers now w)
  unfolding reconcile_each all_reconciled IsTotal
  reconcile_each_lem [] active workers now w = refl
  reconcile_each_lem (app ∷ apps) active workers now w =
      let count = tally (λ j. same j.app_id app.id) active in
      let usage = sum_usage env.fl workers app.id active none in
      then_ok (reconcile_app env app count usage now) (reconcile_each env apps active workers now) w
        (reconcile_app-IsTotal app count usage now w)
      ∙ reconcile_each_lem apps active workers now (reconcile_app env app count usage now w).1

  -- Three calls later.
  abbrev pub listed : World → World
  listed w = step_tick (step_tick (step_tick w))

  -- When the first three calls, which list the apps, the jobs and the workers, are answered, and there is an
  -- app, one pass of the autoscaler succeeds and has dealt with every app, one after the other, each on its
  -- count of active jobs and their use in those lists, whatever fails while it scales any of them.
  pub reconcile_apps_survives :
      (app : AppConfig) (apps : List AppConfig) (w : World)
      → w.apps ≡ app ∷ apps
      → env.fault w.tick ≡ none
      → env.fault (w.tick + 1) ≡ none
      → env.fault (w.tick + 2) ≡ none
      → reconcile_apps env w ≡ (
        ok tt,
        all_reconciled
            (app ∷ apps)
            (keep (λ j. is_active j.status) w.jobs)
            (stable_sort (by_id env) w.workers)
            (env.now (listed w).tick)
            (listed w),
      )
  unfolding reconcile_apps reconcile_listed list_workers
  reconcile_apps_survives app apps w some_app f0 f1 f2 =
      let jobs = list_jobs_all env (step_tick w) (ground (arith, f1)) in
      ground (
        arith,
        f0,
        f2,
        jobs,
        some_app,
        reconcile_each_lem (app ∷ apps) (keep (λ j. is_active j.status) w.jobs)
            (stable_sort (by_id env) w.workers) (env.now (listed w).tick) (listed w),
      )
