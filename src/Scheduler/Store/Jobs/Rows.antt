-- ===== src/Scheduler/Store/Jobs/Rows.antt =====
-- How the statements on the jobs table act on single rows.
use mikrom.Prelude.{
  ◌+◌, String, ◌≡◌, refl, Bool, true, false, is_some, length, suc, ap, inl, inr, Option-cases, none,
  some, List, [], ◌∷◌, ◌++◌, if◌then◌else◌, arith, same, same_refl, eq_of_same, tally, update_where,
}
use mikrom.Scheduler.Job.{Job}
use mikrom.Scheduler.Store.Jobs.{has_id, find_job, without_job}

-- The primary key: no two rows have one identifier.
abbrev pub Distinct : List Job → Type 0
Distinct [] = Unit
Distinct (j ∷ js) = (find_job j.job_id js ≡ none) × Distinct js

-- An update that keeps identifiers.
abbrev pub KeepsId : (Job → Job) → Type 0
KeepsId f = (j : Job) → (f j).job_id ≡ j.job_id

pub find_job-update_where_ne :
    (k id : String) (f : Job → Job) (js : List Job)
    → KeepsId f
    → same k id ≡ false
    → find_job k (update_where (has_id id) f js) ≡ find_job k js
find_job-update_where_ne k id f [] keeps ne = refl
find_job-update_where_ne k id f (j ∷ js) keeps ne = ground (
  arith,
  keeps j,
  eq_of_same j.job_id id,
  eq_of_same j.job_id k,
  same_refl k,
  find_job-update_where_ne k id f js keeps ne,
)

pub find_job-update_where_self :
    (id : String) (f : Job → Job) (js : List Job) (j : Job)
    → KeepsId f
    → find_job id js ≡ some j
    → find_job id (update_where (has_id id) f js) ≡ some (f j)
find_job-update_where_self id f [] j keeps e = ground arith
find_job-update_where_self id f (x ∷ js) j keeps e =
    ground (arith, keeps x, find_job-update_where_self id f js j keeps)

pub find_job-without_self : (id : String) (js : List Job) → find_job id (without_job id js) ≡ none
find_job-without_self id [] = refl
find_job-without_self id (j ∷ js) = ground (arith, find_job-without_self id js)

pub find_job-without_ne :
    (k id : String) (js : List Job)
    → same k id ≡ false
    → find_job k (without_job id js) ≡ find_job k js
find_job-without_ne k id [] ne = refl
find_job-without_ne k id (j ∷ js) ne = ground (
  arith,
  eq_of_same j.job_id id,
  eq_of_same j.job_id k,
  same_refl k,
  find_job-without_ne k id js ne,
)

pub without_absent : (id : String) (js : List Job) → find_job id js ≡ none → without_job id js ≡ js
without_absent id [] e = refl
without_absent id (j ∷ js) e = ground (arith, without_absent id js)

-- With distinct identifiers a deletion takes one row, and the count of any kind of row falls
-- by that row's share.
pub tally-without :
    (p : Job → Bool) (id : String) (js : List Job) (j : Job)
    → Distinct js
    → find_job id js ≡ some j
    → tally p js ≡ tally p (without_job id js) + (if p j then 1 else 0)
tally-without p id [] j d e = ground arith
tally-without p id (x ∷ js) j d e =
    ground (arith, eq_of_same x.job_id id, without_absent id js, tally-without p id js j d.1)

pub find_job-without_none :
    (k id : String) (js : List Job) → find_job k js ≡ none → find_job k (without_job id js) ≡ none
find_job-without_none k id [] e = refl
find_job-without_none k id (j ∷ js) e = ground (arith, find_job-without_none k id js)

pub without-Distinct : (id : String) (js : List Job) → Distinct js → Distinct (without_job id js)
without-Distinct id [] d = tt
without-Distinct id (j ∷ js) d =
    ground (arith, without-Distinct id js d.1, find_job-without_none j.job_id id js)

pub find_job-update_where-none :
    (k id : String) (f : Job → Job) (js : List Job)
    → KeepsId f
    → find_job k js ≡ none
    → find_job k (update_where (has_id id) f js) ≡ none
find_job-update_where-none k id f [] keeps e = refl
find_job-update_where-none k id f (j ∷ js) keeps e =
    ground (arith, keeps j, find_job-update_where-none k id f js keeps)

pub update_where-Distinct :
    (id : String) (f : Job → Job) (js : List Job)
    → KeepsId f
    → Distinct js
    → Distinct (update_where (has_id id) f js)
update_where-Distinct id f [] keeps d = tt
update_where-Distinct id f (j ∷ js) keeps d = ground (
  arith,
  keeps j,
  update_where-Distinct id f js keeps d.1,
  find_job-update_where-none j.job_id id f js keeps,
)

pub job_id_of_find_job :
    (id : String) (js : List Job) (j : Job) → find_job id js ≡ some j → j.job_id ≡ id
job_id_of_find_job id [] j e = cc
job_id_of_find_job id (x ∷ js) j e =
    ground (arith, eq_of_same x.job_id id, job_id_of_find_job id js j)

pub length-update_where :
    (id : String) (f : Job → Job) (js : List Job)
    → length (update_where (has_id id) f js) ≡ length js
length-update_where id f [] = refl
length-update_where id f (j ∷ js) = ground (arith, length-update_where id f js)

tally_all {ℓ} : {A : Type ℓ} (xs : List A) → tally (λ _. true) xs ≡ length xs
tally_all [] = refl
tally_all (x ∷ xs) = ap suc (tally_all xs)

pub length-without :
    (id : String) (js : List Job)
    → Distinct js
    → is_some (find_job id js) ≡ true
    → length (without_job id js) + 1 ≡ length js
length-without id js d h = elim (Option-cases (find_job id js)) [
  | inl e ↦ ground arith
  | inr (j, e) ↦
      rw (← tally_all js, ← tally_all (without_job id js))
        (omega (arith, tally-without (λ _. true) id js j d e))
]

-- A new row stands at the end, and only it answers to its identifier.
module _ (id : String) (row : Job) where
  pub without-append_new :
      (js : List Job)
      → find_job id js ≡ none
      → same row.job_id id ≡ true
      → without_job id (js ++ row ∷ []) ≡ js
  without-append_new [] e h = ground arith
  without-append_new (j ∷ js) e h = ground (arith, without-append_new js)

  pub update_where-append_new :
      (f : Job → Job) (js : List Job)
      → find_job id js ≡ none
      → same row.job_id id ≡ true
      → update_where (has_id id) f (js ++ row ∷ []) ≡ js ++ f row ∷ []
  update_where-append_new f [] e h = ground arith
  update_where-append_new f (j ∷ js) e h = ground (arith, update_where-append_new f js)

  pub find_job-append :
      (k : String) (js : List Job)
      → find_job k js ≡ none
      → same row.job_id k ≡ false
      → find_job k (js ++ row ∷ []) ≡ none
  find_job-append k [] e h = ground arith
  find_job-append k (j ∷ js) e h = ground (arith, find_job-append k js)

  pub append-Distinct :
      (js : List Job) → find_job row.job_id js ≡ none → Distinct js → Distinct (js ++ row ∷ [])
  append-Distinct [] e d = (refl, tt)
  append-Distinct (j ∷ js) e d = ground (
    arith,
    append-Distinct js,
    eq_of_same row.job_id j.job_id,
    same_refl j.job_id,
    find_job-append j.job_id js,
  )
