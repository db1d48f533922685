-- ===== src/Scheduler/Scaling/Reached.antt =====
-- `scale_app` reaches the number of replicas asked for.
use mikrom.Prelude.{
  ℕ, suc, ◌+◌, ◌-◌, ◌%◌, ◌^◌, ◌≤◌, ◌<◌, String, ◌≡◌, refl, Bool, true, ◌&&◌, none, some, List, [],
  ◌∷◌, arith, eq_of_same, tally, length, keep, find, take, stable_sort, All, ◌==◌, ltb,
  if◌then◌else◌, length-keep, length-take, length-sort, All-take, All-sort,
}
use mikrom.Scheduler.Job.{Job}
use mikrom.Scheduler.World.{Env, World, Result, ok, err, step_tick}
use mikrom.Scheduler.Store.Jobs.{list_jobs, matches_text}
use mikrom.Scheduler.Store.Jobs.Rows.{Distinct}
use mikrom.Scheduler.Store.Jobs.Listed.{
  IsRow, keep-IsRow, keep-Distinct, sort-Distinct, take-Distinct,
}
use mikrom.Scheduler.Store.Apps.{is_app, get_app_config}
use mikrom.Scheduler.Scaling.{
  is_replica, is_paused, removed_before, scale_listed, scale_app, deploy_from, find_template,
  add_replicas, scale_up, remove_replicas, template_params,
}
use mikrom.Scheduler.Scaling.Replicas.{
  is_counted, UniqueIds, Fresh, deploy_replicas-Counts, remove_replicas-Removes,
}

pub keep-true : (p : Job → Bool) (js : List Job) → All (λ j. p j ≡ true) (keep p js)
keep-true p [] = tt
keep-true p (j ∷ js) = ground (arith, keep-true p js)

pub u32_small : (n : ℕ) → n < 4294967296 → n % 2 ^ 32 ≡ n
u32_small n h = omega (arith, h)

module _ (env : Env) (app_id tenant_id : String) where
  pub keep-listed :
      (js : List Job)
      → keep
          (is_replica app_id)
          (keep (λ j. matches_text (some tenant_id) j.tenant_id && (true && true)) js)
        ≡ keep (is_counted app_id tenant_id) js
  keep-listed [] = refl
  keep-listed (j ∷ js) = ground (arith, keep-listed js)

  -- The number of replicas grew to `total`, unless there was an error.
  abbrev pub Reached : ℕ → Result (Unit {0}) × World → Type 0
  Reached total (ok _, w') = tally (is_counted app_id tenant_id) w'.jobs ≡ total
  Reached total (err e, w') = Unit

  module _ (unique : UniqueIds env) where
    deploy_from-Reached :
        (t : Job) (prefix : String) (n : ℕ) (w : World)
        → is_counted app_id tenant_id t ≡ true
        → Fresh env w
        → Reached (tally (is_counted app_id tenant_id) w.jobs + n) (deploy_from env t prefix n w)
    unfolding deploy_from
    deploy_from-Reached t prefix n w counted fresh = ground (
      arith,
      deploy_replicas-Counts env (template_params env t prefix) unique n w fresh,
      eq_of_same t.app_id app_id,
      eq_of_same t.tenant_id tenant_id,
    )

    add_replicas-Reached :
        (t : Job) (active paused_jobs : List Job) (n : ℕ) (w : World)
        → is_counted app_id tenant_id t ≡ true
        → 0 < n
        → Fresh env w
        → Reached
            (tally (is_counted app_id tenant_id) w.jobs + n)
            (add_replicas env app_id tenant_id (t ∷ active) paused_jobs n w)
    unfolding add_replicas find_template get_app_config Fresh
    add_replicas-Reached t active paused_jobs n w counted pos fresh =
        let later = λ (m : ℕ) (le : suc w.tick ≤ m). fresh m (omega (arith, le)) in
        ground (
          arith,
          deploy_from-Reached t
              (elim (find (is_app app_id) w.apps) [ none ↦ "" | some c ↦ c.vpc_ipv6_prefix ]) n
              (step_tick w) counted later,
        )

    scale_up-Reached :
        (active paused_jobs : List Job) (current desired : ℕ) (w : World)
        → All (λ j. is_counted app_id tenant_id j ≡ true) active
        → 0 < length active
        → 0 < current
        → current < desired
        → Fresh env w
        → Reached
            (tally (is_counted app_id tenant_id) w.jobs + (desired - current))
            (scale_up env app_id tenant_id active paused_jobs current desired w)
    unfolding scale_up
    scale_up-Reached [] paused_jobs current desired w counted some_job pos lt fresh =
        absurd (omega (arith, some_job))
    scale_up-Reached (t ∷ active) paused_jobs current desired w counted some_job pos lt fresh =
        ground (
          arith,
          add_replicas-Reached t active paused_jobs (desired - current) w counted.0
              (omega (arith, lt)) fresh,
        )

  remove_some-Reached :
      (current desired : ℕ) (w : World)
      → 0 < desired
      → Distinct w.jobs
      → current ≡ tally (is_counted app_id tenant_id) w.jobs
      → desired < current
      → Reached desired (
          remove_replicas env desired tenant_id
            (take
              (current - desired)
              (stable_sort removed_before (keep (is_counted app_id tenant_id) w.jobs)))
            w)
  remove_some-Reached current desired w pos table counts lt =
      let q = is_counted app_id tenant_id in
      let l = stable_sort removed_before (keep q w.jobs) in
      ground (
        arith,
        remove_replicas-Removes env q desired tenant_id (take (current - desired) l) w pos table
            (take-Distinct (current - desired) l
              (sort-Distinct removed_before (keep q w.jobs) (keep-Distinct q w.jobs table)))
            (All-take (IsRow w.jobs) (current - desired) l
              (All-sort (IsRow w.jobs) removed_before (keep q w.jobs) (keep-IsRow q w.jobs table)))
            (All-take (λ j. q j ≡ true) (current - desired) l
              (All-sort (λ j. q j ≡ true) removed_before (keep q w.jobs) (keep-true q w.jobs))),
        length-take (current - desired) l (
            omega (
              arith,
              lt,
              length-sort removed_before (keep q w.jobs),
              length-keep q w.jobs,
              counts,
            )),
      )

  module _ (unique : UniqueIds env) (desired : ℕ) where
    listed-Reached :
        (current : ℕ) (paused_jobs : List Job) (w : World)
        → 0 < desired
        → 0 < current
        → current ≡ tally (is_counted app_id tenant_id) w.jobs
        → Distinct w.jobs
        → Fresh env w
        → Reached desired (
            if current == desired
            then (ok tt, w)
            else if ltb current desired
            then scale_up env app_id tenant_id
                (keep (is_counted app_id tenant_id) w.jobs)
                paused_jobs
                current
                desired
                w
            else remove_replicas env desired tenant_id
                (take
                  (current - desired)
                  (stable_sort removed_before (keep (is_counted app_id tenant_id) w.jobs)))
                w)
    listed-Reached current paused_jobs w pos some_job counts table fresh = ground (
      arith,
      scale_up-Reached unique (keep (is_counted app_id tenant_id) w.jobs) paused_jobs current
          desired w (keep-true (is_counted app_id tenant_id) w.jobs),
      length-keep (is_counted app_id tenant_id) w.jobs,
      remove_some-Reached current desired w pos table counts,
    )

    -- Suppose that no drawn identifier repeats or is already in the jobs table, that the table has no
    -- identifier twice, and that the app of this tenant has at least one active job, and fewer than
    -- 2 ^ 32. Then `scale_app` to a number above zero, whatever fails on the way, either returns an
    -- error or leaves exactly the desired number of active jobs of the app and tenant.
    pub scale_app-Reached :
        (w : World)
        → 0 < desired
        → 0 < tally (is_counted app_id tenant_id) w.jobs
        → tally (is_counted app_id tenant_id) w.jobs < 4294967296
        → Distinct w.jobs
        → Fresh env w
        → Reached desired (scale_app env app_id desired tenant_id w)
    unfolding scale_app scale_listed list_jobs Fresh
    scale_app-Reached w pos some_job small table fresh =
        let w' = step_tick (step_tick w) in
        ground (
          arith,
          keep-listed w.jobs,
          length-keep (is_counted app_id tenant_id) w.jobs,
          u32_small (tally (is_counted app_id tenant_id) w.jobs) small,
          listed-Reached (tally (is_counted app_id tenant_id) w.jobs)
              (keep is_paused (
                keep
                  (λ j.
                    matches_text (some tenant_id) j.tenant_id
                    && (matches_text (some app_id) j.app_id && true))
                  w.jobs))
              w' pos some_job refl table (λ n le. fresh n (omega (arith, le))),
        )
