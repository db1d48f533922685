-- ===== src/Scheduler/Scaling/Success.antt =====
-- Scaling down succeeds when nothing fails.
use mikrom.Prelude.{
  ℕ, suc, ◌-◌, ◌<◌, String, ◌≡◌, refl, true, none, List, [], ◌∷◌, arith, tally, keep, take,
  stable_sort, All, length-keep, All-take, All-sort,
}
use mikrom.Scheduler.Job.{Job}
use mikrom.Scheduler.World.{Env, World, is_ok, step_tick}
use mikrom.Scheduler.Store.Jobs.{list_jobs}
use mikrom.Scheduler.Store.Jobs.Rows.{Distinct}
use mikrom.Scheduler.Store.Jobs.Listed.{
  IsRow, IsRow-without, keep-IsRow, keep-Distinct, sort-Distinct, take-Distinct,
}
use mikrom.Scheduler.Lifecycle.{owns, delete_app}
use mikrom.Scheduler.Lifecycle.Outcomes.{delete_app-Deleted}
use mikrom.Scheduler.Lifecycle.Success.{delete_app-ok}
use mikrom.Scheduler.Scaling.{removed_before, scale_app, scale_listed, remove_replicas}
use mikrom.Scheduler.Scaling.Replicas.{is_counted, UniqueIds, Fresh}
use mikrom.Scheduler.Scaling.Reached.{keep-true, keep-listed, u32_small, scale_app-Reached}

module _ (env : Env) (works : (n : ℕ) → env.fault n ≡ none) (tenant_id : String) where
  remove_replicas-is_ok :
      (desired : ℕ) (l : List Job) (w : World)
      → 0 < desired
      → Distinct l
      → All (IsRow w.jobs) l
      → All (λ j. owns tenant_id j ≡ true) l
      → is_ok (remove_replicas env desired tenant_id l w).0 ≡ true
  unfolding remove_replicas
  remove_replicas-is_ok desired [] w pos d rows own = refl
  remove_replicas-is_ok desired (j ∷ l) w pos d rows own = ground (
    arith,
    delete_app-ok env works j.job_id w j rows.0 tenant_id own.0,
    remove_replicas-is_ok desired l (delete_app env j.job_id tenant_id w).1 pos d.1,
    delete_app-Deleted env j.job_id tenant_id w j rows.0,
    IsRow-without j.job_id l w.jobs d.0 rows.1,
  )

  owned-All :
      (app_id : String) (js : List Job)
      → All (λ j. is_counted app_id tenant_id j ≡ true) js
      → All (λ j. owns tenant_id j ≡ true) js
  owned-All app_id [] a = tt
  owned-All app_id (j ∷ js) a = ground (arith, owned-All app_id js)

  -- When no outside call fails, no drawn identifier repeats or is in the jobs table, and the table
  -- has no identifier twice, `scale_app` of an app of this tenant from its number of active jobs,
  -- fewer than 2 ^ 32, down to a smaller number above zero succeeds, and leaves exactly that number.
  pub scale_down_succeeds :
      (app_id : String) (desired : ℕ) (w : World)
      → UniqueIds env
      → 0 < desired
      → desired < tally (is_counted app_id tenant_id) w.jobs
      → tally (is_counted app_id tenant_id) w.jobs < 4294967296
      → Distinct w.jobs
      → Fresh env w
      → let (r, w') = scale_app env app_id desired tenant_id w in
        (is_ok r ≡ true) × (tally (is_counted app_id tenant_id) w'.jobs ≡ desired)
  unfolding scale_app scale_listed list_jobs
  scale_down_succeeds app_id desired w unique pos less small table fresh =
      let q = is_counted app_id tenant_id in
      let n = tally q w.jobs in
      let l = stable_sort removed_before (keep q w.jobs) in
      let own = owned-All app_id (keep q w.jobs) (keep-true q w.jobs) in
      let done =
        remove_replicas-is_ok desired (take (n - desired) l) (step_tick (step_tick w)) pos
          (take-Distinct (n - desired) l
            (sort-Distinct removed_before (keep q w.jobs) (keep-Distinct q w.jobs table)))
          (All-take (IsRow w.jobs) (n - desired) l
            (All-sort (IsRow w.jobs) removed_before (keep q w.jobs) (keep-IsRow q w.jobs table)))
          (All-take (λ j. owns tenant_id j ≡ true) (n - desired) l
            (All-sort (λ j. owns tenant_id j ≡ true) removed_before (keep q w.jobs) own)) in
      let succeeds : is_ok (scale_app env app_id desired tenant_id w).0 ≡ true = ground (
        arith,
        works w.tick,
        works (suc w.tick),
        keep-listed env app_id tenant_id w.jobs,
        length-keep q w.jobs,
        u32_small n small,
        done,
      ) in
      (
        succeeds,
        ground (
          arith,
          succeeds,
          scale_app-Reached env app_id tenant_id unique desired w pos (omega (arith, less)) small
              table fresh,
        ),
      )
