-- ===== src/Base/Word.antt =====
-- Go's `int` and `int64`: 64-bit patterns with wrapping arithmetic and signed order.
use Prim.Native.Nat.{ℕ, ◌+◌, ◌-◌, ◌*◌, ◌/◌, ◌%◌, ◌≤◌, ◌<◌}
use mathlib.Core.Bool.{Bool}
use mathlib.Core.Path.{◌≡◌}
use native.Mathlib.Nat.{mod-eq_of_lt}
use native.Mathlib.Omega.{arith}
use synapse_media_worker.Base.Tests.{ltb, if◌then◌else◌}

abbrev pub two63 : ℕ
two63 = 9223372036854775808

abbrev pub two64 : ℕ
two64 = 18446744073709551616

unfoldable pub add64 : ℕ → ℕ → ℕ
add64 a b = (a + b) % two64

unfoldable pub sub64 : ℕ → ℕ → ℕ
sub64 a b = (a + two64 - b) % two64

unfoldable pub mul64 : ℕ → ℕ → ℕ
mul64 a b = (a * b) % two64

-- The signed order of two bit patterns.
unfoldable pub slt64 : ℕ → ℕ → Bool
slt64 a b = ltb ((a + two63) % two64) ((b + two63) % two64)

-- The absolute value of the integer that a bit pattern stands for.
unfoldable pub abs64 : ℕ → ℕ
abs64 a = if ltb a two63 then a else two64 - a

-- Signed division, rounded towards zero.
unfoldable pub div64 : ℕ → ℕ → ℕ
unfolding abs64
div64 a b =
    if ltb a two63
    then if ltb b two63 then a / b else (two64 - a / abs64 b) % two64
    else if ltb b two63
    then (two64 - abs64 a / b) % two64
    else (abs64 a / abs64 b) % two64

pub add64_exact : (a b : ℕ) → a + b < two64 → add64 a b ≡ a + b
unfolding add64
add64_exact a b h = omega arith

pub sub64_exact : (a b : ℕ) → b ≤ a → a < two64 → sub64 a b ≡ a - b
unfolding sub64
sub64_exact a b h k = omega arith

pub mul64_exact : (a b : ℕ) → a * b < two64 → mul64 a b ≡ a * b
unfolding mul64
mul64_exact a b h = mod-eq_of_lt h

pub slt64_exact : (a b : ℕ) → a < two63 → b < two63 → slt64 a b ≡ ltb a b
unfolding slt64
slt64_exact a b h k = ground arith

pub div64_exact : (a b : ℕ) → a < two63 → b < two63 → div64 a b ≡ a / b
unfolding div64
div64_exact a b h k = ground arith
