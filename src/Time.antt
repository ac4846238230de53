-- ===== src/Time.antt =====
-- include/enetcpp/time.h: comparison of 32-bit millisecond clocks that wrap, and the minimum,
-- maximum and distance of include/enetcpp/utility.h.
pub mod Wrap
use enetcpp.Base.{ℕ, ◌-◌, Bool, not, ltb, leb, if◌then◌else◌, sub32}

-- One day of milliseconds.
abbrev pub time_overflow : ℕ
time_overflow = 86400000

unfoldable pub time_less : ℕ → ℕ → Bool
time_less a b = leb time_overflow (sub32 a b)

unfoldable pub time_greater : ℕ → ℕ → Bool
time_greater a b = leb time_overflow (sub32 b a)

unfoldable pub time_less_equal : ℕ → ℕ → Bool
unfolding time_greater
time_less_equal a b = not (time_greater a b)

unfoldable pub time_greater_equal : ℕ → ℕ → Bool
unfolding time_less
time_greater_equal a b = not (time_less a b)

unfoldable pub time_difference : ℕ → ℕ → ℕ
time_difference a b = if leb time_overflow (sub32 a b) then sub32 b a else sub32 a b

abbrev pub maximum : ℕ → ℕ → ℕ
maximum x y = if ltb y x then x else y

abbrev pub minimum : ℕ → ℕ → ℕ
minimum x y = if ltb x y then x else y

-- `y - x` and `x - y` are taken only where they do not wrap.
abbrev pub distance : ℕ → ℕ → ℕ
distance x y = if ltb x y then y - x else x - y
