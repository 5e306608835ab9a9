-- ===== src/Core/Clock/Exact.antt =====
-- `ticks_to_ns` is the exact quotient, and stays within 64 bits where the one-line formula does not.
use bintrade.Prelude.{
  ℕ, suc, ◌+◌, ◌*◌, ◌/◌, ◌%◌, ◌<◌, ◌≡◌, ap, some, none, pos, arith, if◌then◌else◌, ltb, lt→ltb,
  ltb→lt, Bool-cases, inl, inr, false,
}
use native.Mathlib.Nat.{div-add-mod, mod-lt, mul-add-div_right, div-lt_iff_lt-mul}
use bintrade.Core.Clock.{
  int64, div64, rem64, int64_limit, ns_per_second, ticks_to_ns, naive_ticks_to_ns,
}

-- Splitting off the whole multiples of the divisor first gives the same quotient.
split_quotient : (t f k : ℕ) → 0 < f → t / f * k + t % f * k / f ≡ t * k / f
split_quotient t f k h =
    rw (← mul-add-div_right h (t / f * k) (t % f * k)) (ap (λ n. n / f) regroup)
  where
    regroup : t / f * k * f + t % f * k ≡ t * k
    regroup = omega (arith, ap (λ (s : ℕ). s * k) (div-add-mod t f))

rest_lt : (t f : ℕ) → 0 < f → t % f * ns_per_second / f < ns_per_second
rest_lt t f h = (div-lt_iff_lt-mul h).1 (omega (arith, mod-lt t h))

pub int64_fits : (n : ℕ) → n < int64_limit → int64 (pos n) ≡ some (pos n)
unfolding int64
int64_fits n h = rw (lt→ltb n int64_limit h)

int64_big : (n : ℕ) → ltb n int64_limit ≡ false → int64 (pos n) ≡ none
unfolding int64
int64_big n h = rw h

div64_fits :
    (a f : ℕ) → a / suc f < int64_limit → div64 (pos a) (pos (suc f)) ≡ some (pos (a / suc f))
unfolding div64
div64_fits a f h = int64_fits (a / suc f) h

rem64_fits :
    (a f : ℕ)
    → a / suc f < int64_limit
    → a % suc f < int64_limit
    → rem64 (pos a) (pos (suc f)) ≡ some (pos (a % suc f))
unfolding rem64
rem64_fits a f h k = rw (int64_fits (a / suc f) h, rem64) (int64_fits (a % suc f) k)

-- With a frequency up to 9 GHz and a time below nine billion seconds (285 years), no operation of
-- `ticks_to_ns` leaves the range of `int64_t`, and the result is the quotient rounded down; the
-- one-line formula gives the same where `ticks * 10^9` fits, and has no meaning where it does not.
pub ticks_to_ns-exact :
    (t f : ℕ)
    → f < 9_000_000_000
    → t / suc f < 9_000_000_000
    → (ticks_to_ns (pos t) (pos (suc f)) ≡ some (pos (t * ns_per_second / suc f)))
      × (naive_ticks_to_ns (pos t) (pos (suc f)) ≡ (
          if ltb (t * ns_per_second) int64_limit
          then some (pos (t * ns_per_second / suc f))
          else none))
unfolding ticks_to_ns naive_ticks_to_ns
ticks_to_ns-exact t f small_freq small_time = (whole, naive)
  where
    rest_small : t % suc f * ns_per_second / suc f < ns_per_second
    rest_small = rest_lt t (suc f) (omega arith)

    rem_small : t % suc f < suc f
    rem_small = mod-lt t (omega arith)

    split :
        t / suc f * ns_per_second + t % suc f * ns_per_second / suc f ≡ t * ns_per_second / suc f
    split = split_quotient t (suc f) ns_per_second (omega arith)

    small : t * ns_per_second / suc f < int64_limit
    small = omega (arith, split, rest_small)

    whole : ticks_to_ns (pos t) (pos (suc f)) ≡ some (pos (t * ns_per_second / suc f))
    whole =
        rw
          (
            div64_fits t f (omega arith),
            rem64_fits t f (omega arith) (omega arith),
            int64_fits (t / suc f * ns_per_second) (omega arith),
            int64_fits (t % suc f * ns_per_second) (omega arith),
            div64_fits (t % suc f * ns_per_second) f (omega arith),
            split,
          )
          (int64_fits (t * ns_per_second / suc f) small)

    naive : naive_ticks_to_ns (pos t) (pos (suc f)) ≡ (
        if ltb (t * ns_per_second) int64_limit
        then some (pos (t * ns_per_second / suc f))
        else none)
    naive = elim (Bool-cases (ltb (t * ns_per_second) int64_limit)) [
      | inl e ↦ rw (e, int64_fits _ (ltb→lt _ _ e)) (div64_fits (t * ns_per_second) f small)
      | inr e ↦ rw (e, int64_big _ e)
    ]
