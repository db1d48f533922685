-- ===== src/Scheduler/Store/Jobs/Listed.antt =====
-- Jobs picked from a listing of the table: their rows, while the table changes.
use mikrom.Prelude.{
  ℕ, zero, suc, All, place, stable_sort, take, String, ◌≡◌, refl, Bool, true, false, is_some, keep,
  keep_all, none, some, List, [], ◌∷◌, arith, same_refl, eq_of_same, update_where,
}
use mikrom.Scheduler.Job.{Job}
use mikrom.Scheduler.Store.Jobs.{has_id, find_job, without_job, list_jobs}
use mikrom.Scheduler.World.{Env, World, ok, step_tick}
use mikrom.Scheduler.Store.Jobs.Rows.{
  Distinct, KeepsId, find_job-without_ne, find_job-update_where_ne,
}

-- Every listed job still has a row.
abbrev pub Present : List Job → List Job → Type 0
Present [] js = Unit
Present (j ∷ l) js = (is_some (find_job j.job_id js) ≡ true) × Present l js

pub Present-without :
    (id : String) (l js : List Job)
    → find_job id l ≡ none
    → Present l js
    → Present l (without_job id js)
Present-without id [] js e h = tt
Present-without id (j ∷ l) js e h =
    ground (arith, Present-without id l js, find_job-without_ne j.job_id id js)

pub Present-update_where :
    (id : String) (f : Job → Job) (l js : List Job)
    → KeepsId f
    → find_job id l ≡ none
    → Present l js
    → Present l (update_where (has_id id) f js)
Present-update_where id f [] js keeps e h = tt
Present-update_where id f (j ∷ l) js keeps e h =
    ground
      (arith, Present-update_where id f l js keeps, find_job-update_where_ne j.job_id id f js keeps)

pub Present-cons : (x : Job) (l js : List Job) → Present l js → Present l (x ∷ js)
Present-cons x [] js h = tt
Present-cons x (j ∷ l) js h = ground (arith, Present-cons x l js)

module _ (p : Job → Bool) where
  pub find_job-keep-none :
      (k : String) (js : List Job) → find_job k js ≡ none → find_job k (keep p js) ≡ none
  find_job-keep-none k [] e = refl
  find_job-keep-none k (j ∷ js) e = ground (arith, find_job-keep-none k js)

  pub keep-Distinct : (js : List Job) → Distinct js → Distinct (keep p js)
  keep-Distinct [] d = tt
  keep-Distinct (j ∷ js) d = ground (arith, keep-Distinct js d.1, find_job-keep-none j.job_id js)

  pub keep-Present : (js : List Job) → Present (keep p js) js
  keep-Present [] = tt
  keep-Present (j ∷ js) =
      ground (arith, same_refl j.job_id, Present-cons j (keep p js) js (keep-Present js))

  -- A row that fails the test is not among those that pass it.
  pub find_job-keep_failing :
      (k : String) (js : List Job) (j : Job)
      → Distinct js
      → find_job k js ≡ some j
      → p j ≡ false
      → find_job k (keep p js) ≡ none
  find_job-keep_failing k [] j d e h = refl
  find_job-keep_failing k (x ∷ js) j d e h =
      ground
        (arith, eq_of_same x.job_id k, find_job-keep-none k js, find_job-keep_failing k js j d.1)

pub list_jobs_all :
    (env : Env) (w : World)
    → env.fault w.tick ≡ none
    → list_jobs env none none none w ≡ (ok w.jobs, step_tick w)
unfolding list_jobs
list_jobs_all env w up = ground (arith, keep_all w.jobs)

-- Every listed job is its row.
abbrev pub IsRow : List Job → Job → Type 0
IsRow js j = find_job j.job_id js ≡ some j

pub IsRow-without :
    (id : String) (l js : List Job)
    → find_job id l ≡ none
    → All (IsRow js) l
    → All (IsRow (without_job id js)) l
IsRow-without id [] js e h = tt
IsRow-without id (j ∷ l) js e h =
    ground (arith, IsRow-without id l js, find_job-without_ne j.job_id id js)

IsRow-cons :
    (x : Job) (l js : List Job)
    → find_job x.job_id js ≡ none
    → All (IsRow js) l
    → All (IsRow (x ∷ js)) l
IsRow-cons x [] js e h = tt
IsRow-cons x (j ∷ l) js e h = ground (arith, eq_of_same x.job_id j.job_id, IsRow-cons x l js e h.1)

pub keep-IsRow : (p : Job → Bool) (js : List Job) → Distinct js → All (IsRow js) (keep p js)
keep-IsRow p [] d = tt
keep-IsRow p (j ∷ js) d =
    ground (arith, same_refl j.job_id, IsRow-cons j (keep p js) js d.0 (keep-IsRow p js d.1))

-- The order of a list has no part in its identifiers.
module _ (before : Job → Job → Bool) where
  find_job-place :
      (k : String) (x : Job) (js : List Job)
      → find_job k (x ∷ js) ≡ none
      → find_job k (place before x js) ≡ none
  find_job-place k x [] e = e
  find_job-place k x (j ∷ js) e = ground (arith, find_job-place k x js)

  find_job-sort :
      (k : String) (js : List Job)
      → find_job k js ≡ none
      → find_job k (stable_sort before js) ≡ none
  find_job-sort k [] e = refl
  find_job-sort k (j ∷ js) e =
      ground (arith, find_job-place k j (stable_sort before js), find_job-sort k js)

  place-Distinct :
      (x : Job) (js : List Job)
      → find_job x.job_id js ≡ none
      → Distinct js
      → Distinct (place before x js)
  place-Distinct x [] e d = (refl, tt)
  place-Distinct x (j ∷ js) e d = ground (
    arith,
    place-Distinct x js,
    find_job-place j.job_id x js,
    eq_of_same x.job_id j.job_id,
    same_refl x.job_id,
  )

  pub sort-Distinct : (js : List Job) → Distinct js → Distinct (stable_sort before js)
  sort-Distinct [] d = tt
  sort-Distinct (j ∷ js) d =
      place-Distinct j (stable_sort before js) (find_job-sort j.job_id js d.0)
        (sort-Distinct js d.1)

find_job-take :
    (k : String) (n : ℕ) (js : List Job) → find_job k js ≡ none → find_job k (take n js) ≡ none
find_job-take k zero js e = refl
find_job-take k (suc n) [] e = refl
find_job-take k (suc n) (j ∷ js) e = ground (arith, find_job-take k n js)

pub take-Distinct : (n : ℕ) (js : List Job) → Distinct js → Distinct (take n js)
take-Distinct zero js d = tt
take-Distinct (suc n) [] d = tt
take-Distinct (suc n) (j ∷ js) d = (find_job-take j.job_id n js d.0, take-Distinct n js d.1)
