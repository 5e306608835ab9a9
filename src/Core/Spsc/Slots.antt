-- ===== src/Core/Spsc/Slots.antt =====
-- Cells and counters: the arithmetic of `head & k_mask` and of the wrapping difference.
use bintrade.Prelude.{
  ℕ, ◌+◌, ◌-◌, ◌%◌, ◌^◌, ◌≤◌, ◌<◌, ◌≡◌, ◌≢◌, ◌∙◌, ap, sym, dec_lt, arith, pow2_pos, mod-mod_pow2,
  bit_and_mask,
}
use native.Mathlib.Nat.{mod-add-mod, mod-lt, mod-eq_of_lt, mod-eq-sub-mod, pow-le-pow_right}
use bintrade.Core.Spsc.{add_size, sub_size, slot}

pub slot-eq-mod : (k n : ℕ) → slot k n ≡ n % 2 ^ k
unfolding slot
slot-eq-mod k n = bit_and_mask k n

-- The cell of a wrapped counter is that of the full count.
pub slot-mod : (k n : ℕ) → k < 64 → slot k (n % 2 ^ 64) ≡ n % 2 ^ k
slot-mod k n h = slot-eq-mod k (n % 2 ^ 64) ∙ mod-mod_pow2 k 64 n (omega arith)

pub slot-lt : (k n : ℕ) → slot k n < 2 ^ k
slot-lt k n = omega (arith, slot-eq-mod k n, mod-lt n (pow2_pos k))

pub capacity_small : (k : ℕ) → k < 64 → 2 ^ k ≤ 2 ^ 63
capacity_small k h = pow-le-pow_right (omega arith) {j = 63} (omega arith)

pub add_size-mod : (n : ℕ) → add_size (n % 2 ^ 64) 1 ≡ (n + 1) % 2 ^ 64
add_size-mod n = mod-add-mod n (2 ^ 64) 1

-- The wrapping difference of two counts is the true one while that is below 2^64.
pub sub_size-mod : (h t : ℕ) → t ≤ h → h < t + 2 ^ 64 → sub_size (h % 2 ^ 64) (t % 2 ^ 64) ≡ h - t
sub_size-mod h t le lt = omega arith

-- A step of less than `m` round `m` cells does not come back.
step_ne : (m r d : ℕ) → r < m → 0 < d → d < m → (r + d) % m ≢ r
step_ne m r d hr hd lt e = elim (dec_lt (r + d) m) [
  | yes p ↦ omega (arith, mod-eq_of_lt p)
  | no p ↦ omega (
    arith,
    mod-eq-sub-mod {n = r + d} {m = m} (omega arith),
    mod-eq_of_lt {n = r + d - m} {m = m} (omega arith),
  )
]

-- Two counts less than a capacity apart have different cells.
pub slot_ne : (k i j : ℕ) → i < j → j < i + 2 ^ k → i % 2 ^ k ≢ j % 2 ^ k
slot_ne k i j lt near e =
    step_ne (2 ^ k) (i % 2 ^ k) (j - i) (mod-lt i (pow2_pos k)) (omega arith) (omega arith)
      (mod-add-mod i (2 ^ k) (j - i) ∙ ap (λ n. n % 2 ^ k) (omega arith) ∙ sym e)
