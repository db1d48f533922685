-- ===== src/Prelude/Int.antt =====
-- Signed integers over the native numbers, and their order: `negsuc n` is -(n + 1).
use Prim.Native.Nat.{ℕ, zero, suc, ◌+◌, ◌-◌, ◌%◌}
use mathlib.Core.Path.{◌≡◌}
use mathlib.Core.Bool.{Bool, true, false}
use native.Mathlib.Omega.{arith}
use mikrom.Prelude.Tests.{leb, ltb, if◌then◌else◌}

pub data ℤ : Type 0 where
  pos : ℕ → ℤ
  negsuc : ℕ → ℤ

-- `a <= b`
unfoldable pub leqb : ℤ → ℤ → Bool
leqb (pos m) (pos n) = leb m n
leqb (pos m) (negsuc n) = false
leqb (negsuc m) (pos n) = true
leqb (negsuc m) (negsuc n) = leb n m

pub leqb_refl : (a : ℤ) → leqb a a ≡ true
unfolding leqb
leqb_refl (pos m) = ground arith
leqb_refl (negsuc m) = ground arith

pub leqb_total : (a b : ℤ) → leqb a b ≡ false → leqb b a ≡ true
unfolding leqb
leqb_total (pos m) (pos n) h = ground arith
leqb_total (pos m) (negsuc n) h = ground arith
leqb_total (negsuc m) (pos n) h = ground arith
leqb_total (negsuc m) (negsuc n) h = ground arith

pub leqb_trans : (a b c : ℤ) → leqb a b ≡ true → leqb b c ≡ true → leqb a c ≡ true
unfolding leqb
leqb_trans (pos l) (pos m) (pos n) h k = ground arith
leqb_trans (pos l) (pos m) (negsuc n) h k = ground arith
leqb_trans (pos l) (negsuc m) _ h k = ground arith
leqb_trans (negsuc l) (pos m) (pos n) h k = ground arith
leqb_trans (negsuc l) (pos m) (negsuc n) h k = ground arith
leqb_trans (negsuc l) (negsuc m) (pos n) h k = ground arith
leqb_trans (negsuc l) (negsuc m) (negsuc n) h k = ground arith

pub leqb_antisym : (a b : ℤ) → leqb a b ≡ true → leqb b a ≡ true → a ≡ b
unfolding leqb
leqb_antisym (pos m) (pos n) h k = ground arith
leqb_antisym (pos m) (negsuc n) h k = ground arith
leqb_antisym (negsuc m) (pos n) h k = ground arith
leqb_antisym (negsuc m) (negsuc n) h k = ground arith

-- `a + b`, before any wrap-around
abbrev pub add : ℤ → ℤ → ℤ
add (pos m) (pos n) = pos (m + n)
add (pos m) (negsuc n) = if ltb n m then pos (m - suc n) else negsuc (n - m)
add (negsuc n) (pos m) = if ltb n m then pos (m - suc n) else negsuc (n - m)
add (negsuc m) (negsuc n) = negsuc (suc (m + n))

abbrev pub negate : ℤ → ℤ
negate (pos zero) = pos zero
negate (pos (suc n)) = negsuc n
negate (negsuc n) = pos (suc n)

-- What an i32 keeps of a number: `overflow-checks` is off in the release build.
abbrev pub wrap_i32 : ℤ → ℤ
wrap_i32 (pos n) =
    let r : ℕ = n % 4294967296 in if ltb r 2147483648 then pos r else negsuc (4294967295 - r)
wrap_i32 (negsuc n) =
    let r : ℕ = n % 4294967296 in if ltb r 2147483648 then negsuc r else pos (4294967295 - r)

-- The number is an i32.
abbrev pub fits_i32 : ℤ → Bool
fits_i32 (pos n) = ltb n 2147483648
fits_i32 (negsuc n) = ltb n 2147483648

-- `GREATEST(0, a)`
abbrev pub at_least_zero : ℤ → ℤ
at_least_zero (pos n) = pos n
at_least_zero (negsuc n) = pos 0
