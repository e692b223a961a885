-- ===== src/Prelude/Words.antt =====
-- Machine integers as bit patterns below 2 ^ w, and the tests of their signed reading.
use Prim.Native.Nat.{ℕ, ◌+◌, ◌%◌, ◌<◌}
use mathlib.Core.Path.{◌≡◌}
use mathlib.Core.Bool.{Bool, ◌&&◌}
use native.Mathlib.Omega.{arith}
use naralabs_atlas.Prelude.Tests.{ltb}

-- The conversion to uint32 and to uint64.
abbrev pub u32 : ℕ → ℕ
u32 n = n % 4294967296

abbrev pub u64 : ℕ → ℕ
u64 n = n % 18446744073709551616

-- 2 ^ 63, the first pattern of a negative int64.
abbrev pub sign64 : ℕ
sign64 = 9223372036854775808

-- a > b for the int64 patterns a and b
abbrev pub gt_i64 : ℕ → ℕ → Bool
gt_i64 a b = ltb ((b + sign64) % 18446744073709551616) ((a + sign64) % 18446744073709551616)

-- a > 0 for the int64 pattern a
abbrev pub pos_i64 : ℕ → Bool
pos_i64 a = ltb 0 a && ltb a sign64

-- Below 2 ^ 63 the signed order is the order of the patterns.
pub gt_i64-eq-ltb : (a b : ℕ) → a < sign64 → b < sign64 → gt_i64 a b ≡ ltb b a
gt_i64-eq-ltb a b h k = ground arith
