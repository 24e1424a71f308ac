-- ===== src/Prelude/Int.antt =====
-- Go's `int`, where the program compares one with zero or with a length.
use Prim.Native.Nat.{ℕ}
use mathlib.Core.Bool.{Bool, true, false}
use mattermost_plugin_matrix.Prelude.Tests.{leb, eqb}

-- `negsuc n` is -(n + 1).
pub data ℤ : Type 0 where
  pos : ℕ → ℤ
  negsuc : ℕ → ℤ

-- `z <= 0`
abbrev pub is_nonpos : ℤ → Bool
is_nonpos (pos n) = eqb n 0
is_nonpos (negsuc n) = true

-- `n >= z`, for a length `n`
abbrev pub reaches : ℕ → ℤ → Bool
reaches n (pos m) = leb m n
reaches n (negsuc m) = true

-- The number of elements that a bound of `z` leaves room for.
abbrev pub room : ℤ → ℕ
room (pos n) = n
room (negsuc n) = 0

-- `z == w`
abbrev pub equal : ℤ → ℤ → Bool
equal (pos m) (pos n) = eqb m n
equal (negsuc m) (negsuc n) = eqb m n
equal _ _ = false
