-- ===== src/Prelude/Integers.antt =====
-- Integers over the native numbers, for the Go type int.
use Prim.Native.Nat.{ℕ, suc, ◌+◌, ◌-◌}
use mathlib.Core.Bool.{Bool, true, false}
use aspenmesh_k3s_multiclust.Prelude.Tests.{ltb, eqb, if◌then◌else◌}

pub data ℤ : Type 0 where
  pos : ℕ → ℤ
  negsuc : ℕ → ℤ

abbrev minus : ℕ → ℕ → ℤ
minus m n = if ltb m n then negsuc (n - m - 1) else pos (m - n)

infixl 65 ◌+ℤ◌
unfoldable pub ◌+ℤ◌ : ℤ → ℤ → ℤ
pos m +ℤ pos n = pos (m + n)
pos m +ℤ negsuc n = minus m (suc n)
negsuc m +ℤ pos n = minus n (suc m)
negsuc m +ℤ negsuc n = negsuc (suc (m + n))

-- m < n
abbrev pub ltb_int : ℤ → ℤ → Bool
ltb_int (pos m) (pos n) = ltb m n
ltb_int (pos m) (negsuc n) = false
ltb_int (negsuc m) (pos n) = true
ltb_int (negsuc m) (negsuc n) = ltb n m

-- m == n
abbrev pub eqb_int : ℤ → ℤ → Bool
eqb_int (pos m) (pos n) = eqb m n
eqb_int (pos m) (negsuc n) = false
eqb_int (negsuc m) (pos n) = false
eqb_int (negsuc m) (negsuc n) = eqb m n
