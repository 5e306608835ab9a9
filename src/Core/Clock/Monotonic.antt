-- ===== src/Core/Clock/Monotonic.antt =====
-- The clock's nanoseconds follow the order of its readings.
use bintrade.Prelude.{ℕ, pos, suc, ◌+◌, ◌*◌, ◌/◌, ◌<◌, ◌≤◌, ◌≡◌, ◌⊎◌, some, arith}
use native.Mathlib.Nat.{le-div_iff_mul-le, div-mul-le_self}
use bintrade.Core.Clock.{ns_per_second, Reading, timespec, performance_counter, monotonic_now_ns}
use bintrade.Core.Clock.Exact.{int64_fits, ticks_to_ns-exact}

-- Two readings of one clock, the second not before the first, both below nine billion seconds: a
-- `timespec` has less than a second of nanoseconds, and the counter a frequency up to 9 GHz.
pub data InOrder : Reading → Reading → Type 0 where
  times :
      (s n s' n' : ℕ)
      → s' < 9_000_000_000
      → n < ns_per_second
      → n' < ns_per_second
      → (s < s') ⊎ ((s ≡ s') × (n ≤ n'))
      → InOrder (timespec (pos s) (pos n)) (timespec (pos s') (pos n'))
  counts :
      (t t' f : ℕ)
      → f < 9_000_000_000
      → t' / suc f < 9_000_000_000
      → t ≤ t'
      → InOrder
          (performance_counter (pos t) (pos (suc f)))
          (performance_counter (pos t') (pos (suc f)))

div_mono : (a b f : ℕ) → a ≤ b → a / suc f ≤ b / suc f
div_mono a b f h = (le-div_iff_mul-le (omega arith)).1 (omega (arith, div-mul-le_self a (suc f)))

monotonic_now_ns-timespec :
    (s n : ℕ)
    → s < 9_000_000_000
    → n < ns_per_second
    → monotonic_now_ns (timespec (pos s) (pos n)) ≡ some (pos (s * ns_per_second + n))
unfolding monotonic_now_ns
monotonic_now_ns-timespec s n h k =
    rw (int64_fits (s * ns_per_second) (omega arith))
      (int64_fits (s * ns_per_second + n) (omega arith))

-- For two readings in order, of either platform's clock: no operation leaves `int64_t`, both results
-- are natural numbers, and the second is not less than the first.
pub monotonic_now_ns-InOrder :
    (r r' : Reading)
    → InOrder r r'
    → (a : ℕ) × (b : ℕ) × (monotonic_now_ns r ≡ some (pos a))
      × (monotonic_now_ns r' ≡ some (pos b))
      × (a ≤ b)
unfolding monotonic_now_ns
monotonic_now_ns-InOrder _ _ (times s n s' n' h k k' o) = (
  s * ns_per_second + n,
  s' * ns_per_second + n',
  monotonic_now_ns-timespec s n (ground (arith, o)) k,
  monotonic_now_ns-timespec s' n' h k',
  ground (arith, o),
)
monotonic_now_ns-InOrder _ _ (counts t t' f h k le) = (
  t * ns_per_second / suc f,
  t' * ns_per_second / suc f,
  (ticks_to_ns-exact t f h (omega (arith, div_mono t t' f le))).0,
  (ticks_to_ns-exact t' f h k).0,
  div_mono (t * ns_per_second) (t' * ns_per_second) f (omega arith),
)
