-- ===== src/Base/Int.antt =====
-- Signed integers (`i64`); `negsuc n` is -(n + 1).
use Prim.Native.Nat.{ℕ, suc, max, min, ◌+◌, ◌-◌, ◌^◌}
use mathlib.Core.Bool.{Bool, true, false}
use othala.Base.Tests.{ltb, leb, if◌then◌else◌}

pub data ℤ : Type 0 where
  pos : ℕ → ℤ
  negsuc : ℕ → ℤ

-- `n.max(1)`, which is never negative.
abbrev pub at_least_one : ℤ → ℕ
at_least_one (pos n) = max n 1
at_least_one (negsuc n) = 1

-- `m + n` and `m <= n` of signed numbers.
abbrev pub add_ℤ : ℤ → ℤ → ℤ
add_ℤ (pos m) (pos n) = pos (m + n)
add_ℤ (negsuc m) (negsuc n) = negsuc (suc (m + n))
add_ℤ (pos m) (negsuc n) = if ltb n m then pos (m - suc n) else negsuc (n - m)
add_ℤ (negsuc m) (pos n) = if ltb m n then pos (n - suc m) else negsuc (m - n)

abbrev pub leb_ℤ : ℤ → ℤ → Bool
leb_ℤ (pos m) (pos n) = leb m n
leb_ℤ (negsuc m) (negsuc n) = leb n m
leb_ℤ (negsuc m) (pos n) = true
leb_ℤ (pos m) (negsuc n) = false

-- `n as u64` of a signed 64-bit number.
abbrev pub as_u64 : ℤ → ℕ
as_u64 (pos n) = n
as_u64 (negsuc n) = 2 ^ 64 - suc n

-- `n as i64` of an unsigned 64-bit number.
abbrev pub as_i64 : ℕ → ℤ
as_i64 n = if ltb n (2 ^ 63) then pos n else negsuc (2 ^ 64 - 1 - n)

-- `min` of signed numbers.
abbrev pub min_ℤ : ℤ → ℤ → ℤ
min_ℤ (pos m) (pos n) = pos (min m n)
min_ℤ (negsuc m) (negsuc n) = negsuc (max m n)
min_ℤ (negsuc m) (pos n) = negsuc m
min_ℤ (pos m) (negsuc n) = negsuc n
