-- ===== src/Time/Wrap.antt =====
-- include/enetcpp/time.h: the clock comparisons against the order of the true, unbounded times.
use enetcpp.Base.{ℕ, ◌+◌, ◌<◌, ◌≡◌, ltb, leb, arith, wrap32}
use enetcpp.Time.{
  time_overflow, time_less, time_greater, time_less_equal, time_greater_equal, time_difference,
  distance,
}

-- Two times that are less than a day apart, in either order.
abbrev pub Near : ℕ → ℕ → Type 0
Near t u = (t < u + time_overflow) × (u < t + time_overflow)

-- Of two times less than a day apart, read from a clock that wraps at 2 ^ 32, the four comparisons
-- answer as the comparisons of the times themselves.
pub time_compare_exact :
    (t u : ℕ)
    → Near t u
    → (time_less (wrap32 t) (wrap32 u) ≡ ltb t u)
      × (time_greater (wrap32 t) (wrap32 u) ≡ ltb u t)
      × (time_less_equal (wrap32 t) (wrap32 u) ≡ leb t u)
      × (time_greater_equal (wrap32 t) (wrap32 u) ≡ leb u t)
unfolding time_less time_greater time_less_equal time_greater_equal
time_compare_exact t u h = ground arith

-- The distance of two such times is computed exactly, across the wrap too.
pub time_difference_exact :
    (t u : ℕ) → Near t u → time_difference (wrap32 t) (wrap32 u) ≡ distance t u
unfolding time_difference
time_difference_exact t u h = ground arith
