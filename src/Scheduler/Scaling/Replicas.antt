-- ===== src/Scheduler/Scaling/Replicas.antt =====
-- How many replicas of an app deployments add and deletions take away.
use mikrom.Prelude.{
  ℕ, zero, suc, ◌+◌, ◌≤◌, ◌<◌, String, ◌≡◌, Bool, true, false, ◌&&◌, none, List, [], ◌∷◌, ◌++◌,
  arith, same, same_refl, tally, tally-append, length, All, ◌==◌,
}
use mikrom.Scheduler.Job.{Job, DomainError}
use mikrom.Scheduler.World.{Env, World, Result, ok, err, pure, ◌>>=◌}
use mikrom.Scheduler.Store.Jobs.{find_job}
use mikrom.Scheduler.Store.Jobs.Rows.{Distinct, find_job-append, tally-without, without-Distinct}
use mikrom.Scheduler.Store.Jobs.Listed.{IsRow, IsRow-without}
use mikrom.Scheduler.Lifecycle.{delete_app}
use mikrom.Scheduler.Lifecycle.Outcomes.{Deleted, delete_app-Deleted}
use mikrom.Scheduler.Deployment.{DeployAppParams, deploy_app}
use mikrom.Scheduler.Deployment.Launch.{Replica, Deployed, deploy_app-Deployed}
use mikrom.Scheduler.Scaling.{is_replica, deploy_replicas, remove_replicas}

-- The jobs that `scale_app` counts.
abbrev pub is_counted : String → String → Job → Bool
is_counted app_id tenant_id j = same j.tenant_id tenant_id && is_replica app_id j

-- No two draws of an identifier are the same text.
unfoldable pub UniqueIds : Env → Type 0
UniqueIds env = (m n : ℕ) → m < n → same (env.job_uuid m) (env.job_uuid n) ≡ false

-- No identifier that is still to be drawn is in the table.
unfoldable pub Fresh : Env → World → Type 0
Fresh env w = (n : ℕ) → w.tick ≤ n → find_job (env.job_uuid n) w.jobs ≡ none

module _ (env : Env) (params : DeployAppParams) (unique : UniqueIds env) where
  abbrev pub Counts : ℕ → World → Result (List DomainError) × World → Type 0
  Counts n w (ok [], w') =
      tally (is_counted params.app_id params.tenant_id) w'.jobs
      ≡ tally (is_counted params.app_id params.tenant_id) w.jobs + n
  Counts n w (ok (e ∷ es), w') = Unit
  Counts n w (err e, w') = Unit

  Fresh-append :
      (w w' : World) (row : Job)
      → Fresh env w
      → Replica env params w row
      → w'.jobs ≡ w.jobs ++ row ∷ []
      → w.tick < w'.tick
      → Fresh env w'
  unfolding Fresh UniqueIds
  Fresh-append w w' row fresh added jobs later n le = rw (jobs) (
      find_job-append (env.job_uuid n) row (env.job_uuid n) w.jobs
        (fresh n (omega (arith, le, later)))
        (rw (added.identified) (unique w.tick n (omega (arith, le, later)))))

  counted-append :
      (w w' : World) (row : Job)
      → Replica env params w row
      → w'.jobs ≡ w.jobs ++ row ∷ []
      → tally (is_counted params.app_id params.tenant_id) w'.jobs
        ≡ suc (tally (is_counted params.app_id params.tenant_id) w.jobs)
  counted-append w w' row added jobs =
      let q = is_counted params.app_id params.tenant_id in
      ground (
        arith,
        jobs,
        tally-append q w.jobs (row ∷ []),
        added.of_app,
        added.of_tenant,
        added.runs,
        same_refl params.app_id,
        same_refl params.tenant_id,
      )

  combine :
      (n : ℕ) (w w' : World) (r : Result (List DomainError) × World)
      → Counts n w' r
      → tally (is_counted params.app_id params.tenant_id) w'.jobs
        ≡ suc (tally (is_counted params.app_id params.tenant_id) w.jobs)
      → Counts (suc n) w ((elim r.0 [ ok errors ↦ (pure errors r.1) | err e ↦ (err e, r.1) ]))
  combine n w w' (ok [], w₂) c one = omega arith
  combine n w w' (ok (e ∷ es), w₂) c one = tt
  combine n w w' (err e, w₂) c one = tt

  failed_first :
      (n : ℕ) (w : World) (d : DomainError) (r : Result (List DomainError) × World)
      → Counts n w ((elim r.0 [ ok errors ↦ (pure (d ∷ errors) r.1) | err e ↦ (err e, r.1) ]))
  failed_first n w d (ok es, w₂) = tt
  failed_first n w d (err e, w₂) = tt

  module _ (n : ℕ)
      (rest : (w : World) → Fresh env w → Counts n w (deploy_replicas env params n w)) where
    one_more :
        (w : World) (r : Result Job × World)
        → Fresh env w
        → Deployed env params w r
        → Counts (suc n) w (
            (deploy_replicas env params n >>= λ errors.
            pure (elim r.0 [ ok _ ↦ errors | err e ↦ e ∷ errors ]))
              r.1)
    one_more w (ok d, w') fresh (row, jobs, added, ids, at, later) =
        combine n w w' (deploy_replicas env params n w')
          (rest w' (Fresh-append w w' row fresh added jobs later))
          (counted-append w w' row added jobs)
    one_more w (err e, w') fresh h = failed_first (suc n) w e (deploy_replicas env params n w')

  pub deploy_replicas-Counts :
      (n : ℕ) (w : World) → Fresh env w → Counts n w (deploy_replicas env params n w)
  unfolding deploy_replicas Fresh
  deploy_replicas-Counts zero w fresh = omega arith
  deploy_replicas-Counts (suc n) w fresh =
      one_more n (deploy_replicas-Counts n) w (deploy_app env params w) fresh
        (deploy_app-Deployed env params w (fresh w.tick (omega arith)))

==_pos : (n : ℕ) → 0 < n → (n == 0) ≡ false
==_pos n h = ground arith

module _ (env : Env) (q : Job → Bool) (desired : ℕ) (tenant_id : String) where
  abbrev pub Removes : List Job → World → Result (Unit {0}) × World → Type 0
  Removes l w (ok _, w') = tally q w'.jobs + length l ≡ tally q w.jobs
  Removes l w (err e, w') = Unit

  module _ (j : Job) (l : List Job) (w : World) (table : Distinct w.jobs) (row : IsRow w.jobs j)
      (counted : q j ≡ true) (apart : find_job j.job_id l ≡ none) (rows : All (IsRow w.jobs) l)
      (rest : (w' : World)
        → Distinct w'.jobs
        → All (IsRow w'.jobs) l
        → Removes l w' (remove_replicas env desired tenant_id l w')) where
    one_less :
        (r : Result (Unit {0}) × World)
        → Deleted env j.job_id tenant_id w j row r
        → Removes
            (j ∷ l)
            w
            (elim r.0 [ ok _ ↦ remove_replicas env desired tenant_id l r.1 | err e ↦ (err e, r.1) ])
    one_less (ok _, w') d = less (remove_replicas env desired tenant_id l w') (
        rest w' (rw (d.0) (without-Distinct j.job_id w.jobs table))
          (rw (d.0) (IsRow-without j.job_id l w.jobs apart rows)))
      where
        less : (r : Result (Unit {0}) × World) → Removes l w' r → Removes (j ∷ l) w r
        less (ok _, w₂) c = ground (arith, d.0, tally-without q j.job_id w.jobs j table row)
        less (err e, w₂) c = tt
    one_less (err e, w') d = tt

  pub remove_replicas-Removes :
      (l : List Job) (w : World)
      → 0 < desired
      → Distinct w.jobs
      → Distinct l
      → All (IsRow w.jobs) l
      → All (λ j. q j ≡ true) l
      → Removes l w (remove_replicas env desired tenant_id l w)
  unfolding remove_replicas
  remove_replicas-Removes [] w pos table d rows cs = omega arith
  remove_replicas-Removes (j ∷ l) w pos table d rows cs = rw (==_pos desired pos) (
      one_less j l w table rows.0 cs.0 d.0 rows.1
        (λ w' table' rows'. remove_replicas-Removes l w' pos table' d.1 rows' cs.1)
        (delete_app env j.job_id tenant_id w)
        (delete_app-Deleted env j.job_id tenant_id w j rows.0))
