-- ===== src/Prelude/Words.antt =====
-- int64 as its bit pattern: a number below 2 ^ 64, which stands for itself minus 2 ^ 64 where it is
-- 2 ^ 63 or more.
use Prim.Native.Nat.{ℕ, ◌+◌, ◌-◌, ◌*◌, ◌/◌, ◌%◌, ◌<◌}
use mathlib.Core.Path.{◌≡◌}
use native.Mathlib.Omega.{arith}
use find_language_tutor.Prelude.Tests.{ltb, if◌then◌else◌}

abbrev pub int64_mod : ℕ
int64_mod = 18446744073709551616

abbrev pub int64_min : ℕ
int64_min = 9223372036854775808

-- The sum, with its wrap-around.
unfoldable pub add64 : ℕ → ℕ → ℕ
add64 a b = (a + b) % int64_mod

unfoldable pub mul64 : ℕ → ℕ → ℕ
mul64 a b = a * b % int64_mod

-- Division by a positive constant, which truncates towards zero.
unfoldable pub quot64 : ℕ → ℕ → ℕ
quot64 a k = if ltb a int64_min then a / k else (int64_mod - (int64_mod - a) / k) % int64_mod

pub add64-eq : (a b : ℕ) → a + b < int64_mod → add64 a b ≡ a + b
unfolding add64
add64-eq a b h = omega arith
