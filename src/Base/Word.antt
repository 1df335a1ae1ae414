-- ===== src/Base/Word.antt =====
-- 64-bit words: Go's `uint` and `int` on the supported platforms, with their wrap-around.
use Prim.Native.Nat.{ℕ, ◌+◌, ◌-◌, ◌*◌, ◌%◌, ◌^◌}
use cluster_power_manager.Base.Tests.{ltb, if◌then◌else◌}
use cluster_power_manager.Base.Int.{ℤ, pos, negsuc}

abbrev pub u64 : ℕ
u64 = 2 ^ 64

abbrev pub add64 : ℕ → ℕ → ℕ
add64 a b = (a + b) % u64

abbrev pub sub64 : ℕ → ℕ → ℕ
sub64 a b = (a + u64 - b) % u64

abbrev pub mul64 : ℕ → ℕ → ℕ
mul64 a b = (a * b) % u64

-- `uint(i)`: the two's complement bits of a signed integer.
abbrev pub to_uint : ℤ → ℕ
to_uint (pos n) = n % u64
to_uint (negsuc n) = (u64 - 1) - n % u64

-- `int(u)`.
abbrev pub to_int : ℕ → ℤ
to_int n = if ltb n (2 ^ 63) then pos n else negsuc (u64 - 1 - n)
