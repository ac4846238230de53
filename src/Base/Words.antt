-- ===== src/Base/Words.antt =====
-- Machine words as native numbers: each operation that can wrap has its `%` written out.
use Prim.Native.Nat.{ℕ, ◌+◌, ◌-◌, ◌*◌, ◌/◌, ◌%◌}
use mathlib.Core.Bool.{Bool}
use enetcpp.Base.Tests.{◌==◌}

-- Conversions to `uint16_t` and `uint32_t`.
abbrev pub wrap16 : ℕ → ℕ
wrap16 a = a % 65536

abbrev pub wrap32 : ℕ → ℕ
wrap32 a = a % 4294967296

abbrev pub add16 : ℕ → ℕ → ℕ
add16 a b = (a + b) % 65536

abbrev pub add32 : ℕ → ℕ → ℕ
add32 a b = (a + b) % 4294967296

abbrev pub sub32 : ℕ → ℕ → ℕ
sub32 a b = (a + 4294967296 - b) % 4294967296

abbrev pub mul32 : ℕ → ℕ → ℕ
mul32 a b = a * b % 4294967296

-- `size_t` is 64 bits wide.
abbrev pub add64 : ℕ → ℕ → ℕ
add64 a b = (a + b) % 18446744073709551616

abbrev pub sub64 : ℕ → ℕ → ℕ
sub64 a b = (a + 18446744073709551616 - b) % 18446744073709551616

-- The bit of weight `w`, a power of two.
abbrev pub has_bit : ℕ → ℕ → Bool
has_bit w x = x / w % 2 == 1
