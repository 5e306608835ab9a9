-- ===== src/Core/Clock.antt =====
-- src/core/platform/clock.hpp: `ticks_to_ns` and the clock above it, with the `int64_t` arithmetic written out. An
-- operation whose result does not fit in 64 bits, or a division by zero, has no meaning in C++:
-- it is `none`.
pub mod Exact
pub mod Monotonic
use bintrade.Prelude.{
  ℕ, zero, ◌^◌, Option, none, some, ltb, if◌then◌else◌, ℤ, pos, negsuc, ◌+ℤ◌, ◌*ℤ◌, ◌/ℤ◌, ◌%ℤ◌,
}

abbrev pub int64_limit : ℕ
int64_limit = 2 ^ 63

-- The value, if an `int64_t` holds it.
pub int64 : ℤ → Option ℤ
int64 (pos n) = if ltb n int64_limit then some (pos n) else none
int64 (negsuc n) = if ltb n int64_limit then some (negsuc n) else none

infixl 5 ◌>>=◌
abbrev pub ◌>>=◌ : Option ℤ → (ℤ → Option ℤ) → Option ℤ
none >>= f = none
some a >>= f = f a

abbrev pub ns_per_second : ℕ
ns_per_second = 1_000_000_000

-- `a / freq` and `a % freq`.
pub div64 : ℤ → ℤ → Option ℤ
div64 a (pos zero) = none
div64 a f = int64 (a /ℤ f)

pub rem64 : ℤ → ℤ → Option ℤ
rem64 a (pos zero) = none
rem64 a f = elim (int64 (a /ℤ f)) [ none ↦ none | some _ ↦ int64 (a %ℤ f) ]

unfoldable pub ticks_to_ns : ℤ → ℤ → Option ℤ
ticks_to_ns ticks freq = do
  whole_seconds ← div64 ticks freq
  remainder_ticks ← rem64 ticks freq
  whole_ns ← int64 (whole_seconds *ℤ pos ns_per_second)
  scaled ← int64 (remainder_ticks *ℤ pos ns_per_second)
  rest_ns ← div64 scaled freq
  int64 (whole_ns +ℤ rest_ns)

-- The expression that the comment of the source warns of: `(ticks * 1e9) / freq`.
pub naive_ticks_to_ns : ℤ → ℤ → Option ℤ
naive_ticks_to_ns ticks freq = do scaled ← int64 (ticks *ℤ pos ns_per_second); div64 scaled freq

-- What the platform's clock gives: the `timespec` of `clock_gettime`, as seconds and nanoseconds, or
-- the performance counter and its frequency on Windows.
pub data Reading : Type 0 where
  timespec : ℤ → ℤ → Reading
  performance_counter : ℤ → ℤ → Reading

pub monotonic_now_ns : Reading → Option ℤ
unfolding ticks_to_ns
monotonic_now_ns (performance_counter counter k_freq) = ticks_to_ns counter k_freq
monotonic_now_ns (timespec tv_sec tv_nsec) = do
  whole_ns ← int64 (tv_sec *ℤ pos ns_per_second)
  int64 (whole_ns +ℤ tv_nsec)
