-- ===== src/Common/Int.antt =====
-- Go's `int`, for the arguments that the code tests for a negative value.
use Prim.Native.Nat.{ℕ}
use mathlib.Core.Bool.{Bool, true, false}
use vada_db.Common.Tests.{ltb, leb}

-- `negsuc n` is -(n + 1).
pub data ℤ : Type 0 where
  pos : ℕ → ℤ
  negsuc : ℕ → ℤ

abbrev pub is_negative : ℤ → Bool
is_negative (pos n) = false
is_negative (negsuc n) = true

-- `z < n` and `z >= n`, for a bound that is no negative number
abbrev pub below : ℤ → ℕ → Bool
below (pos k) n = ltb k n
below (negsuc k) n = true

abbrev pub at_least : ℤ → ℕ → Bool
at_least (pos k) n = leb n k
at_least (negsuc k) n = false

-- The index that a checked argument stands for.
abbrev pub to_ℕ : ℤ → ℕ
to_ℕ (pos n) = n
to_ℕ (negsuc n) = 0
