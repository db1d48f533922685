-- ===== src/Scheduler/Lifecycle/AppDeletion.antt =====
-- `delete_all_by_app`: what is deleted, and on whose behalf.
use mikrom.Prelude.{
  String, ◌≡◌, refl, true, not, none, List, [], ◌∷◌, arith, same, keep, tally, ◌&&◌, ◌+◌,
}
use mikrom.Scheduler.Job.{Job, stopped}
use mikrom.Scheduler.World.{Env, World, Result, ok, err, step_tick}
use mikrom.Scheduler.Store.Jobs.{list_jobs}
use mikrom.Scheduler.Store.Apps.{is_app, remove_app_and_jobs_by_app}
use mikrom.Scheduler.Lifecycle.{
  delete_machine, delete_machines, publish_stopped, delete_listed, delete_all_by_app,
}

-- Deleting machines cannot fail, and changes no table.
abbrev Untouched : World → Result (Unit {0}) × World → Type 0
Untouched w (err _, w') = ⊥
Untouched w (ok _, w') = (w'.jobs ≡ w.jobs) × (w'.apps ≡ w.apps)

none_listed :
    (app_id tenant_id : String) (js : List Job)
    → tally (λ j. same j.tenant_id tenant_id && same j.app_id app_id) js ≡ 0
    → keep (λ j. same j.app_id app_id) (keep (λ j. same j.tenant_id tenant_id && (true && true)) js)
      ≡ []
none_listed app_id tenant_id [] h = refl
none_listed app_id tenant_id (j ∷ js) h = ground (arith, none_listed app_id tenant_id js)

module _ (env : Env) where
  delete_machines-Untouched : (js : List Job) (w : World) → Untouched w (delete_machines env js w)
  unfolding delete_machines
  delete_machines-Untouched [] w = (refl, refl)
  delete_machines-Untouched (j ∷ js) w =
      ground (arith, delete_machines-Untouched js (delete_machine env j w).1)

  publish_stopped-Untouched : (js : List Job) (w : World) → Untouched w (publish_stopped env js w)
  unfolding publish_stopped
  publish_stopped-Untouched [] w = (refl, refl)
  publish_stopped-Untouched (j ∷ js) w =
      publish_stopped-Untouched js
        (record w { updates = record j { status = stopped } ∷ w.updates })

  module _ (app_id : String) (w : World) where
    -- All of the app's rows, or nothing.
    abbrev pub AppDeleted : Result (Unit {0}) × World → Type 0
    AppDeleted (err _, w') = (w'.jobs ≡ w.jobs) × (w'.apps ≡ w.apps)
    AppDeleted (ok _, w') =
        (w'.jobs ≡ keep (λ j. not (same j.app_id app_id)) w.jobs)
        × (w'.apps ≡ keep (λ a. not (is_app app_id a)) w.apps)

    delete_listed-AppDeleted : (js : List Job) → AppDeleted (delete_listed env app_id js w)
    unfolding delete_listed
    delete_listed-AppDeleted js = ground (
      arith,
      delete_machines-Untouched js w,
      publish_stopped-Untouched js
          (remove_app_and_jobs_by_app env app_id (delete_machines env js w).1).1,
    )

  module _ (app_id tenant_id : String) (w : World) where
    -- Whatever the agents answer, `delete_all_by_app` either returns an error and leaves the jobs
    -- and the apps as they were, or it has removed exactly the rows of that app from both tables,
    -- whichever tenant they belong to.
    pub delete_all_by_app-AppDeleted :
        AppDeleted app_id w (delete_all_by_app env app_id tenant_id w)
    unfolding list_jobs delete_all_by_app
    delete_all_by_app-AppDeleted = ground (
      arith,
      delete_listed-AppDeleted app_id (step_tick w) (
          keep (λ j. same j.app_id app_id)
            (keep (λ j. same j.tenant_id tenant_id && (true && true)) w.jobs)),
    )

    -- A tenant that has no job in an app can delete it: when the database answers, the rows of the
    -- app are removed for every tenant, and no agent is asked to delete their machines.
    pub delete_all_by_app_unowned :
        tally (λ j. same j.tenant_id tenant_id && same j.app_id app_id) w.jobs ≡ 0
        → env.fault w.tick ≡ none
        → env.fault (w.tick + 1) ≡ none
        → let (r, w') = delete_all_by_app env app_id tenant_id w in
          (r ≡ ok tt)
          × (w'.jobs ≡ keep (λ j. not (same j.app_id app_id)) w.jobs)
          × (w'.agent_calls ≡ w.agent_calls)
    unfolding delete_all_by_app delete_listed delete_machines publish_stopped
    delete_all_by_app_unowned foreign up1 up2 =
        ground (arith, none_listed app_id tenant_id w.jobs foreign)
