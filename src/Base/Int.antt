-- ===== src/Base/Int.antt =====
-- Signed integers over the native numbers, and the conversions between `i64` and `u64`.
use ldktela.Base.{ℕ, suc, ◌^◌, Option, none, some, ltb, if◌then◌else◌}

pub data ℤ : Type 0 where
  pos negsuc : ℕ → ℤ

-- `u64::try_from` of an `i64`: only a negative number fails.
unfoldable pub try_u64 : ℤ → Option ℕ
try_u64 (pos n) = some n
try_u64 (negsuc n) = none

-- `i64::try_from(..).unwrap_or_default()` of a `u64`.
unfoldable pub i64_or_default : ℕ → ℤ
i64_or_default n = if ltb n (2 ^ 63) then pos n else pos 0

unfoldable pub unsigned_abs : ℤ → ℕ
unsigned_abs (pos n) = n
unsigned_abs (negsuc n) = suc n
