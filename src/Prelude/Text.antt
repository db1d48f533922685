-- ===== src/Prelude/Text.antt =====
-- Equality of texts as a test that stays shut in proofs, with its laws.
use Prim.Native.String.{String, len, slice}
use mathlib.Core.Path.{◌≡◌}
use mathlib.Core.Bool.{Bool, true}
use mathlib.Core.Option.{Option, none, some}
use mikrom.Prelude.Tests.{if◌then◌else◌}
use text.Mathlib.Text.{◌==◌ as str_eq, starts_with}
use text.Mathlib.TextEquality.{eq_iff}
use text.Mathlib.TextPositions.{eq_refl}

-- `a == b` on strings and on the identifiers that wrap them.
unfoldable pub same : String → String → Bool
same a b = str_eq a b

pub same_refl : (a : String) → same a a ≡ true
unfolding same
same_refl a = eq_refl a

pub eq_of_same : (a b : String) → same a b ≡ true → a ≡ b
unfolding same
eq_of_same a b h = (eq_iff a b).0 h

-- `s.strip_prefix(p)`
unfoldable pub strip_prefix : String → String → Option String
strip_prefix p s = if starts_with s p then some (slice s (len p) (len s)) else none
