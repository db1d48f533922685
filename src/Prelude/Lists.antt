-- ===== src/Prelude/Lists.antt =====
-- Lists measured by native numbers, filtered by Boolean tests, and sorted as the source sorts.
use Prim.Native.Nat.{ℕ, zero, suc, ◌+◌}
use mathlib.Core.Path.{◌≡◌, refl, ap}
use mathlib.Core.Bool.{Bool, true}
use mathlib.Core.Option.{Option, none, some}
use mathlib.Core.List.{List, [], ◌∷◌, ◌++◌}
use native.Mathlib.Omega.{arith}
use mikrom.Prelude.Tests.{if◌then◌else◌}

module _ {ℓ} {A : Type ℓ} where
  abbrev pub length : List A → ℕ
  length [] = 0
  length (x ∷ xs) = suc (length xs)

  abbrev pub take : ℕ → List A → List A
  take zero xs = []
  take (suc n) [] = []
  take (suc n) (x ∷ xs) = x ∷ take n xs

  abbrev pub get_or : List A → ℕ → A → A
  get_or [] i d = d
  get_or (x ∷ xs) zero d = x
  get_or (x ∷ xs) (suc i) d = get_or xs i d

  -- A write out of bounds changes nothing.
  abbrev pub set : List A → ℕ → A → List A
  set [] i v = []
  set (x ∷ xs) zero v = v ∷ xs
  set (x ∷ xs) (suc i) v = x ∷ set xs i v

  -- `iter().filter(p)`
  abbrev pub keep : (A → Bool) → List A → List A
  keep p [] = []
  keep p (x ∷ xs) = if p x then x ∷ keep p xs else keep p xs

  -- How many elements pass the test.
  abbrev pub tally : (A → Bool) → List A → ℕ
  tally p [] = 0
  tally p (x ∷ xs) = if p x then suc (tally p xs) else tally p xs

  -- `iter().find(p)`, or the row that `fetch_optional` returns
  abbrev pub find : (A → Bool) → List A → Option A
  find p [] = none
  find p (x ∷ xs) = if p x then some x else find p xs

  abbrev pub first : List A → Option A
  first [] = none
  first (x ∷ xs) = some x

  -- `x` goes before the first element that it may precede, so equal elements keep their order.
  abbrev pub place : (A → A → Bool) → A → List A → List A
  place precedes x [] = x ∷ []
  place precedes x (y ∷ ys) = if precedes x y then x ∷ y ∷ ys else y ∷ place precedes x ys

  -- `sort_by`, a stable sort: `precedes a b` when the comparison of `a` with `b` is not `Greater`.
  abbrev pub stable_sort : (A → A → Bool) → List A → List A
  stable_sort precedes [] = []
  stable_sort precedes (x ∷ xs) = place precedes x (stable_sort precedes xs)

  -- `UPDATE … WHERE p`
  abbrev pub update_where : (A → Bool) → (A → A) → List A → List A
  update_where p f [] = []
  update_where p f (x ∷ xs) = (if p x then f x else x) ∷ update_where p f xs

  -- The predicate holds of every element.
  abbrev pub All {κ} : (A → Type κ) → List A → Type κ
  All P [] = Unit
  All P (x ∷ xs) = P x × All P xs

pub keep_all {ℓ} : {A : Type ℓ} (xs : List A) → keep (λ _. true) xs ≡ xs
keep_all [] = refl
keep_all (x ∷ xs) = ap (◌∷◌ x) (keep_all xs)

module _ {ℓ} {A : Type ℓ} (p : A → Bool) where
  pub length-keep : (xs : List A) → length (keep p xs) ≡ tally p xs
  length-keep [] = refl
  length-keep (x ∷ xs) = ground (arith, length-keep xs)

  pub tally-append : (xs ys : List A) → tally p (xs ++ ys) ≡ tally p xs + tally p ys
  tally-append [] ys = omega arith
  tally-append (x ∷ xs) ys = ground (arith, tally-append xs ys)
