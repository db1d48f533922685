-- ===== src/Prelude/Maps.antt =====
-- `HashMap<String, V>` as a list of entries, with its laws.
use Prim.Native.String.{String}
use mathlib.Core.Path.{◌≡◌, refl}
use mathlib.Core.Logic.{inl, inr}
use mathlib.Core.Option.{Option, none, some}
use mathlib.Core.List.{List, [], ◌∷◌}
use native.Mathlib.Omega.{arith}
use mikrom.Prelude.Tests.{if◌then◌else◌, Bool-cases}
use mikrom.Prelude.Text.{same, same_refl, eq_of_same}

abbrev pub HashMap : Type 0 → Type 0
HashMap V = List (String × V)

module _ {V : Type 0} where
  unfoldable pub get : String → HashMap V → Option V
  get k [] = none
  get k ((j, v) ∷ m) = if same j k then some v else get k m

  unfoldable pub insert : String → V → HashMap V → HashMap V
  insert k v [] = (k, v) ∷ []
  insert k v ((j, w) ∷ m) = if same j k then (j, v) ∷ m else (j, w) ∷ insert k v m

  unfoldable pub remove : String → HashMap V → HashMap V
  remove k [] = []
  remove k ((j, w) ∷ m) = if same j k then remove k m else (j, w) ∷ remove k m

  pub get-insert :
      (j k : String) (v : V) (m : HashMap V)
      → get j (insert k v m) ≡ (if same k j then some v else get j m)
  unfolding get insert
  get-insert j k v [] = refl
  get-insert j k v ((h, w) ∷ m) = elim (Bool-cases (same h k)) [
    | inl e ↦ rw (e) (ground (arith, eq_of_same h k e))
    | inr e ↦
        rw (e) (ground (arith, get-insert j k v m, eq_of_same h j, eq_of_same k j, same_refl j))
  ]

  pub get-remove :
      (j k : String) (m : HashMap V) → get j (remove k m) ≡ (if same k j then none else get j m)
  unfolding get remove
  get-remove j k [] = ground arith
  get-remove j k ((h, w) ∷ m) = elim (Bool-cases (same h k)) [
    | inl e ↦ rw (e) (ground (arith, get-remove j k m, eq_of_same h k e))
    | inr e ↦ rw (e) (ground (arith, get-remove j k m, eq_of_same h j, eq_of_same k j, same_refl j))
  ]
