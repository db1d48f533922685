-- ===== src/Prelude/Chars.antt =====
-- The characters of a text as a list, and back.
use Prim.Native.Char.{Char}
use Prim.Native.String.{String, [], ◌∷◌}
use mathlib.Core.Path.{◌≡◌, refl, ap}
use mathlib.Core.List.{List, [] as []ᴸ, ◌∷◌ as ◌∷ᴸ◌}

unfoldable pub chars : String → List Char
chars [] = []ᴸ
chars (c ∷ s) = c ∷ᴸ chars s

unfoldable pub of_chars : List Char → String
of_chars []ᴸ = []
of_chars (c ∷ᴸ l) = c ∷ of_chars l

pub chars-of_chars : (l : List Char) → chars (of_chars l) ≡ l
unfolding chars of_chars
chars-of_chars []ᴸ = refl
chars-of_chars (c ∷ᴸ l) = ap (λ (m : List Char). c ∷ᴸ m) (chars-of_chars l)

pub of_chars-chars : (s : String) → of_chars (chars s) ≡ s
unfolding chars of_chars
of_chars-chars [] = refl
of_chars-chars (c ∷ s) = ap (λ (t : String). c ∷ t) (of_chars-chars s)
