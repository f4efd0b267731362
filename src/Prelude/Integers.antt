-- ===== src/Prelude/Integers.antt =====
-- Python's `int`, over the native numbers, under the library's names.
use Prim.Native.Nat.{ℕ, zero, suc}
use mathlib.Core.Bool.{Bool, true, false}
use reimbursement_analyzer.Prelude.Tests.{leb, ltb}

-- `negsuc n` is -(n + 1).
pub data ℤ : Type 0 where
  pos negsuc : ℕ → ℤ

-- `z + 1`
abbrev pub next : ℤ → ℤ
next (pos k) = pos (suc k)
next (negsuc zero) = pos zero
next (negsuc (suc k)) = negsuc k

-- `z > n`
abbrev pub is_past : ℕ → ℤ → Bool
is_past n (pos k) = ltb n k
is_past n (negsuc k) = false

-- `0 <= z <= n`
abbrev pub is_between : ℕ → ℤ → Bool
is_between n (pos k) = leb k n
is_between n (negsuc k) = false

-- `z < 0`
abbrev pub is_negative : ℤ → Bool
is_negative (pos k) = false
is_negative (negsuc k) = true

-- The number itself, where it is not negative.
abbrev pub magnitude : ℤ → ℕ
magnitude (pos k) = k
magnitude (negsuc k) = suc k
