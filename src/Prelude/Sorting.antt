-- ===== src/Prelude/Sorting.antt =====
-- Membership, and what the stable sort does to it; the first element of a sorted list.
use Prim.Native.Nat.{ℕ, zero, suc, ◌≤◌}
use mathlib.Core.Path.{◌≡◌, refl, ap}
use mathlib.Core.Bool.{Bool, true, false, ◌&&◌}
use mathlib.Core.Logic.{◌⊎◌, inl, inr}
use mathlib.Core.Option.{Option, none, some}
use mathlib.Core.List.{List, [], ◌∷◌}
use native.Mathlib.Omega.{arith}
use mikrom.Prelude.Tests.{if◌then◌else◌, Option-cases, unwrap_or}
use mikrom.Prelude.Lists.{keep, place, stable_sort, first, take, All, length, tally}

module _ {A : Type 0} where
  abbrev pub Member : A → List A → Type 0
  Member x [] = ⊥
  Member x (y ∷ ys) = (x ≡ y) ⊎ Member x ys

  pub Member-keep :
      (p : A → Bool) (x : A) (xs : List A) → Member x (keep p xs) → Member x xs × (p x ≡ true)
  Member-keep p x [] m = absurd m
  Member-keep p x (y ∷ ys) m = ground (arith, Member-keep p x ys)

  pub keep-Member :
      (p : A → Bool) (x : A) (xs : List A) → Member x xs → p x ≡ true → Member x (keep p xs)
  keep-Member p x [] m h = absurd m
  keep-Member p x (y ∷ ys) m h = ground (arith, keep-Member p x ys)

  pub tally-keep : (p q : A → Bool) (xs : List A) → tally q (keep p xs) ≡ tally (λ x. p x && q x) xs
  tally-keep p q [] = refl
  tally-keep p q (x ∷ xs) = ground (arith, tally-keep p q xs)

  pub tally-true-keep : (p : A → Bool) (xs : List A) → tally (λ _. true) (keep p xs) ≡ tally p xs
  tally-true-keep p [] = refl
  tally-true-keep p (x ∷ xs) = ground (arith, tally-true-keep p xs)

  pub tally_zero : (p : A → Bool) (x : A) (xs : List A) → tally p xs ≡ 0 → Member x xs → p x ≡ false
  tally_zero p x [] h m = absurd m
  tally_zero p x (y ∷ ys) h m = ground (arith, tally_zero p x ys)

module _ {A : Type 0} (before : A → A → Bool) where
  Member-place : (x y : A) (ys : List A) → Member x (place before y ys) → Member x (y ∷ ys)
  Member-place x y [] m = m
  Member-place x y (z ∷ zs) m = ground (arith, Member-place x y zs)

  place-Member : (x y : A) (ys : List A) → Member x (y ∷ ys) → Member x (place before y ys)
  place-Member x y [] m = m
  place-Member x y (z ∷ zs) m = ground (arith, place-Member x y zs)

  pub Member-sort : (x : A) (xs : List A) → Member x (stable_sort before xs) → Member x xs
  Member-sort x [] m = m
  Member-sort x (y ∷ ys) m =
      ground (arith, Member-place x y (stable_sort before ys), Member-sort x ys)

  pub sort-Member : (x : A) (xs : List A) → Member x xs → Member x (stable_sort before xs)
  sort-Member x [] m = m
  sort-Member x (y ∷ ys) m =
      ground (arith, place-Member x y (stable_sort before ys), sort-Member x ys)

  pub tally-place :
      (p : A → Bool) (y : A) (ys : List A) → tally p (place before y ys) ≡ tally p (y ∷ ys)
  tally-place p y [] = refl
  tally-place p y (z ∷ zs) = ground (arith, tally-place p y zs)

  pub tally-sort : (p : A → Bool) (xs : List A) → tally p (stable_sort before xs) ≡ tally p xs
  tally-sort p [] = refl
  tally-sort p (y ∷ ys) = ground (arith, tally-place p y (stable_sort before ys), tally-sort p ys)

  -- The first of a sorted list is the better of the new element and the first so far.
  abbrev better : A → Option A → A
  better x none = x
  better x (some y) = if before x y then x else y

  first-place : (x : A) (ys : List A) → first (place before x ys) ≡ some (better x (first ys))
  first-place x [] = refl
  first-place x (y ∷ ys) = ground arith

  pub Member-first : (x : A) (xs : List A) → first xs ≡ some x → Member x xs
  Member-first x [] e = absurd (cc)
  Member-first x (y ∷ ys) e = ground arith

  first-none : (x : A) (xs : List A) → first xs ≡ none → Member x xs → ⊥
  first-none x [] e m = m
  first-none x (y ∷ ys) e m = cc

  pub first-sort_some :
      (d x : A) (xs : List A)
      → first (stable_sort before (x ∷ xs))
        ≡ some (unwrap_or (first (stable_sort before (x ∷ xs))) d)
  first-sort_some d x xs = ground (arith, first-place x (stable_sort before xs))

  module _ (total : (a b : A) → before a b ≡ false → before b a ≡ true)
      (reflexive : (a : A) → before a a ≡ true)
      (transitive : (a b c : A) → before a b ≡ true → before b c ≡ true → before a c ≡ true) where
    -- In a total preorder nothing comes strictly before the first of the sorted list.
    pub first-sort-le :
        (h x : A) (xs : List A)
        → first (stable_sort before xs) ≡ some h
        → Member x xs
        → before h x ≡ true
    first-sort-le h x [] e m = absurd m
    first-sort-le h x (y ∷ ys) e m = elim (Option-cases (first (stable_sort before ys))) [
      | inl alone ↦ ground (
        arith,
        first-place y (stable_sort before ys),
        first-none x (stable_sort before ys) alone,
        sort-Member x ys,
        reflexive y,
      )
      | inr (g, leads) ↦ ground (
        arith,
        first-place y (stable_sort before ys),
        first-sort-le g x ys leads,
        reflexive y,
        total y g,
        transitive y g x,
      )
    ]

module _ {ℓ} {A : Type ℓ} (P : A → Type ℓ) where
  All-place :
      (before : A → A → Bool) (x : A) (xs : List A) → P x → All P xs → All P (place before x xs)
  All-place before x [] h a = (h, tt)
  All-place before x (y ∷ ys) h a = ground (arith, All-place before x ys h)

  pub All-sort : (before : A → A → Bool) (xs : List A) → All P xs → All P (stable_sort before xs)
  All-sort before [] a = tt
  All-sort before (x ∷ xs) a =
      All-place before x (stable_sort before xs) a.0 (All-sort before xs a.1)

  pub All-take : (n : ℕ) (xs : List A) → All P xs → All P (take n xs)
  All-take zero xs a = tt
  All-take (suc n) [] a = tt
  All-take (suc n) (x ∷ xs) a = (a.0, All-take n xs a.1)

pub length-take {ℓ} : {A : Type ℓ} (n : ℕ) (xs : List A) → n ≤ length xs → length (take n xs) ≡ n
length-take zero xs h = refl
length-take (suc n) [] h = absurd (omega arith)
length-take (suc n) (x ∷ xs) h = ap suc (length-take n xs (omega arith))

length-place {ℓ} :
    {A : Type ℓ} (before : A → A → Bool) (x : A) (xs : List A)
    → length (place before x xs) ≡ suc (length xs)
length-place before x [] = refl
length-place before x (y ∷ ys) = ground (arith, length-place before x ys)

pub length-sort {ℓ} :
    {A : Type ℓ} (before : A → A → Bool) (xs : List A) → length (stable_sort before xs) ≡ length xs
length-sort before [] = refl
length-sort before (x ∷ xs) =
    ground (arith, length-place before x (stable_sort before xs), length-sort before xs)
