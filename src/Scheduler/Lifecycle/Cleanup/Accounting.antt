-- ===== src/Scheduler/Lifecycle/Cleanup/Accounting.antt =====
-- The clean-ups keep the books: they never fail half-way, and what they count is what has gone.
use mikrom.Prelude.{
  ℕ, suc, ◌+◌, String, ◌≡◌, refl, ◌⊎◌, Bool, true, false, none, some, List, [], ◌∷◌, arith, length,
  is_some, keep, same_refl, eq_of_same,
}
use mikrom.Scheduler.Job.{Job, stopped}
use mikrom.Scheduler.World.{Env, World, Result, ok, err, step_tick}
use mikrom.Scheduler.Store.Jobs.{find_job, set_status, without_job}
use mikrom.Scheduler.Store.Jobs.Rows.{
  Distinct, without-Distinct, update_where-Distinct, find_job-without_ne, find_job-update_where_ne,
  length-without, length-update_where,
}
use mikrom.Scheduler.Store.Jobs.Listed.{
  Present, Present-without, Present-update_where, keep-Distinct, keep-Present,
  find_job-keep_failing, list_jobs_all,
}
use mikrom.Scheduler.Lifecycle.Cleanup.{
  expire, expire_all, at_least_one, is_expired, cleanup_expired_vms, cleanup_beta_deployments,
}

-- One round of the loop.
abbrev Expired : Job → World → Result Bool × World → Type 0
Expired j w (err _, w') = ⊥
Expired j w (ok true, w') = w'.jobs ≡ without_job j.job_id w.jobs
Expired j w (ok false, w') = (w'.jobs ≡ w.jobs) ⊎ (w'.jobs ≡ set_status j.job_id stopped w.jobs)

expire-Expired : (env : Env) (j : Job) (w : World) → Expired j w (expire env j w)
unfolding expire
expire-Expired env j w = ground arith

-- Rows left and rows counted, after the loop.
abbrev Books : ℕ → World → Result ℕ × World → Type 0
Books n w (err _, w') = ⊥
Books n w (ok m, w') = length w'.jobs + m ≡ length w.jobs + n

-- The jobs still to expire have distinct rows, and the table has a primary key.
record Ready (l : List Job) (w : World) : Type 0 where
  distinct : Distinct l
  present : Present l w.jobs
  keyed : Distinct w.jobs

module _ (env : Env) where
  next-Ready : (j : Job) (l : List Job) (w : World) → Ready (j ∷ l) w → Ready l (expire env j w).1
  next-Ready j l w r = record {
    distinct = r.distinct.1;
    present = ground (
      arith,
      r.distinct.0,
      r.present.1,
      expire-Expired env j w,
      Present-without j.job_id l w.jobs,
      Present-update_where j.job_id (λ x. record x { status = stopped }) l w.jobs (λ x. refl),
    );
    keyed = ground (
      arith,
      r.keyed,
      expire-Expired env j w,
      without-Distinct j.job_id w.jobs,
      update_where-Distinct j.job_id (λ x. record x { status = stopped }) w.jobs (λ x. refl),
    );
  }

  expire_all-Books :
      (l : List Job) (n : ℕ) (w : World) → Ready l w → Books n w (expire_all env l n w)
  unfolding expire_all
  expire_all-Books [] n w r = refl
  expire_all-Books (j ∷ l) n w r = ground (
    arith,
    expire-Expired env j w,
    r.present.0,
    length-without j.job_id w.jobs r.keyed,
    length-update_where j.job_id (λ x. record x { status = stopped }) w.jobs,
    expire_all-Books l n (expire env j w).1 (next-Ready j l w r),
    expire_all-Books l (suc n) (expire env j w).1 (next-Ready j l w r),
  )

  expire_all-others :
      (k : String) (l : List Job) (n : ℕ) (w : World)
      → find_job k l ≡ none
      → find_job k (expire_all env l n w).1.jobs ≡ find_job k w.jobs
  unfolding expire_all
  expire_all-others k [] n w e = refl
  expire_all-others k (j ∷ l) n w e = ground (
    arith,
    eq_of_same j.job_id k,
    same_refl k,
    eq_of_same k j.job_id,
    expire-Expired env j w,
    find_job-without_ne k j.job_id w.jobs,
    find_job-update_where_ne k j.job_id (λ x. record x { status = stopped }) w.jobs (λ x. refl),
    expire_all-others k l n (expire env j w).1,
    expire_all-others k l (suc n) (expire env j w).1,
  )

-- What a clean-up leaves, begun in `w`: it has ended well, and counted the rows that are gone.
abbrev pub Accounted : World → Result ℕ × World → Type 0
Accounted w (err _, w') = ⊥
Accounted w (ok m, w') = length w'.jobs + m ≡ length w.jobs

module _ (env : Env) (w : World) (keyed : Distinct w.jobs) (up : env.fault w.tick ≡ none) where
  listed-Ready : (p : Job → Bool) → Ready (keep p w.jobs) (step_tick w)
  listed-Ready p = record {
    distinct = keep-Distinct p w.jobs keyed;
    present = keep-Present p w.jobs;
    keyed = keyed;
  }

  -- When the identifiers of the jobs are distinct and the first lookup succeeds, both clean-ups
  -- return a number, whatever the agents and the database answer later, and that number is how
  -- many rows the jobs table has lost.
  pub cleanups_account :
      (ttl : ℕ)
      → Accounted w (cleanup_expired_vms env ttl w) × Accounted w (cleanup_beta_deployments env w)
  unfolding cleanup_expired_vms cleanup_beta_deployments
  cleanups_account ttl =
      let books =
        λ (p : Job → Bool). expire_all-Books env (keep p w.jobs) 0 (step_tick w) (listed-Ready p) in
      (
        ground
            (arith, list_jobs_all env w up, books (is_expired (env.now w.tick) (at_least_one ttl))),
        ground (arith, list_jobs_all env w up, books (λ j. is_some j.deployment_id)),
      )

  -- When the identifiers of the jobs are distinct and the first lookup succeeds, a job that has no
  -- machine or is younger than the time to live, which is one second at least, and that belongs to no
  -- deployment keeps its row unchanged in both clean-ups, `cleanup_expired_vms` and
  -- `cleanup_beta_deployments`, whatever fails later.
  pub cleanups_spare :
      (k : String) (j : Job) (ttl : ℕ)
      → find_job k w.jobs ≡ some j
      → is_expired (env.now w.tick) (at_least_one ttl) j ≡ false
      → is_some j.deployment_id ≡ false
      → (find_job k (cleanup_expired_vms env ttl w).1.jobs ≡ some j)
        × (find_job k (cleanup_beta_deployments env w).1.jobs ≡ some j)
  unfolding cleanup_expired_vms cleanup_beta_deployments
  cleanups_spare k j ttl found young free =
      let spared = λ (p : Job → Bool) (fails : p j ≡ false).
        expire_all-others env k (keep p w.jobs) 0 (step_tick w)
          (find_job-keep_failing p k w.jobs j keyed found fails) in
      (
        ground (
          arith,
          list_jobs_all env w up,
          spared (is_expired (env.now w.tick) (at_least_one ttl)) young,
        ),
        ground (arith, list_jobs_all env w up, spared (λ x. is_some x.deployment_id) free),
      )
