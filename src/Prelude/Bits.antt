-- ===== src/Prelude/Bits.antt =====
-- Masking by 2^k - 1 is the remainder by 2^k. The digit recursion is what `bit_and` stands for.
use Prim.Native.Nat.{
  ℕ, zero, suc, ◌+◌, ◌-◌, ◌*◌, ◌/◌, ◌%◌, ◌^◌, ◌≤◌, ◌<◌, min, bit_and, digits, bit_and-bitwise,
}
use mathlib.Core.Path.{◌≡◌, refl, sym, ◌∙◌, ap}
use native.Mathlib.Omega.{arith}
use native.Mathlib.Nat.{div-add-mod, mod-lt, div-eq_of_lt, mul-add-div, add-zero, add-suc, pow-suc}

-- The recursion with a budget of digits.
abbrev conjoin : ℕ → ℕ → ℕ → ℕ
conjoin budget left right = digits (λ rest. zero) min budget left right

-- Two budgets that both reach the left operand give one result.
conjoin_budget :
    (right left small large : ℕ)
    → left ≤ large
    → left ≤ small
    → conjoin large left right ≡ conjoin small left right
conjoin_budget right left zero zero _ _ = refl
conjoin_budget right zero (suc small) zero _ _ = refl
conjoin_budget right zero zero (suc large) _ _ = refl
conjoin_budget right zero (suc small) (suc large) _ _ = refl
conjoin_budget right (suc left) small zero over _ = absurd (omega (arith, over))
conjoin_budget right (suc left) zero (suc large) _ over = absurd (omega (arith, over))
conjoin_budget right (suc left) (suc small) (suc large) i j =
    let halves =
      conjoin_budget (right / 2) (suc left / 2) small large (omega (arith, i)) (omega (arith, j)) in
    omega (arith, halves)

lowest_digit : (x y : ℕ) → bit_and x y ≡ min (x % 2) (y % 2) + 2 * bit_and (x / 2) (y / 2)
lowest_digit zero y = omega (arith, bit_and-bitwise 0 (y / 2), bit_and-bitwise 0 y)
lowest_digit (suc x) y =
    let halves = conjoin_budget (y / 2) (suc x / 2) (suc x / 2) x (omega arith) (omega arith) in
    omega (arith, halves, bit_and-bitwise (suc x / 2) (y / 2), bit_and-bitwise (suc x) y)

no_digits : (budget x : ℕ) → x ≤ budget → bit_and x 0 ≡ 0
no_digits budget zero _ = bit_and-bitwise 0 0
no_digits zero (suc x) over = absurd (omega (arith, over))
no_digits (suc budget) (suc x) i =
    omega (arith, no_digits budget (suc x / 2) (omega (arith, i)), lowest_digit (suc x) 0)

pub pow2_pos : (k : ℕ) → 0 < 2 ^ k
pow2_pos zero = omega arith
pow2_pos (suc k) = omega (arith, pow-suc 2 k, pow2_pos k)

-- A remainder is the one number below the divisor at a multiple's distance.
pub mod_unique : (m q r : ℕ) → r < m → (m * q + r) % m ≡ r
mod_unique m q r h = omega (arith, rw quotient at (div-add-mod (m * q + r) m))
  where
    quotient : (m * q + r) / m ≡ q
    quotient = mul-add-div (omega arith) q r ∙ (omega (arith, div-eq_of_lt h))

-- A multiple of the divisor does not change the remainder.
pub mod_multiple : (m q r : ℕ) → 0 < m → (m * q + r) % m ≡ r % m
mod_multiple m q r h =
    ap (λ n. n % m) (omega (arith, div-add-mod r m)) ∙ mod_unique m (q + r / m) (r % m) (mod-lt r h)

pow2_add : (k j : ℕ) → 2 ^ (k + j) ≡ 2 ^ k * 2 ^ j
pow2_add k zero = rw add-zero (omega arith)
pow2_add k (suc j) = omega (
  arith,
  pow-suc 2 (k + j),
  pow-suc 2 j,
  pow2_add k j,
  ap (λ n. 2 ^ n) (add-suc k j),
  ap (λ m. 2 ^ k * m) (pow-suc 2 j),
)

-- Wrapping at 2^w first does not change the remainder by a smaller power of two.
pub mod-mod_pow2 : (k w n : ℕ) → k ≤ w → n % 2 ^ w % 2 ^ k ≡ n % 2 ^ k
mod-mod_pow2 k w n h =
    sym (mod_multiple (2 ^ k) (2 ^ (w - k) * (n / 2 ^ w)) (n % 2 ^ w) (pow2_pos k))
    ∙ ap (λ m. m % 2 ^ k) whole
  where
    split : 2 ^ w ≡ 2 ^ k * 2 ^ (w - k)
    split = ap (λ m. 2 ^ m) (omega arith) ∙ pow2_add k (w - k)

    whole : 2 ^ k * (2 ^ (w - k) * (n / 2 ^ w)) + n % 2 ^ w ≡ n
    whole = omega (arith, div-add-mod n (2 ^ w), ap (λ m. m * (n / 2 ^ w)) split)

halve_mod : (m a : ℕ) → 0 < m → a / 2 % m * 2 + a % 2 ≡ a % (m * 2)
halve_mod m a h = sym (
    ap (λ n. n % (m * 2)) regroup
    ∙ mod_unique (m * 2) (a / 2 / m) (a / 2 % m * 2 + a % 2) (omega (arith, mod-lt (a / 2) h)))
  where
    regroup : a ≡ m * 2 * (a / 2 / m) + (a / 2 % m * 2 + a % 2)
    regroup = omega (arith, div-add-mod (a / 2) m, div-add-mod a 2)

pub bit_and_mask : (k a : ℕ) → bit_and a (2 ^ k - 1) ≡ a % 2 ^ k
bit_and_mask zero a = no_digits a a (omega arith) ∙ (omega arith)
bit_and_mask (suc k) a = omega (
  arith,
  lowest_digit a (2 ^ suc k - 1),
  ap (bit_and (a / 2)) half,
  bit_and_mask k (a / 2),
  halve_mod (2 ^ k) a (pow2_pos k),
  ap (λ m. a % m) (pow-suc 2 k),
  odd,
)
  where
    half : (2 ^ suc k - 1) / 2 ≡ 2 ^ k - 1
    half = omega (arith, pow-suc 2 k, pow2_pos k)

    odd : (2 ^ suc k - 1) % 2 ≡ 1
    odd = omega (arith, pow-suc 2 k, pow2_pos k)
