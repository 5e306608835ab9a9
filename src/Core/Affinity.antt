-- ===== src/Core/Affinity.antt =====
-- src/core/platform/thread_affinity.cpp: `pin_thread_to_core`, as each platform compiles it.
use bintrade.Prelude.{
  ℕ, ℤ, pos, negsuc, ◌^◌, ◌<◌, ◌≡◌, refl, ap, Bool-cases, inl, inr, arith, Bool, true, false, not,
  ◌==◌, leb, if◌then◌else◌,
}

-- What the code is built for; Windows is the 64-bit one.
pub data BuildTarget : Type 0 where
  linux apple windows other : BuildTarget

-- The calls of the operating systems: `pthread_setaffinity_np` for the set that `CPU_SET` makes of a core, which gives
-- 0 or an error number; `thread_policy_set`, which gives whether it succeeded; and
-- `SetThreadAffinityMask`, which gives the old mask, or 0 where it fails.
pub record Os : Type 0 where
  pub setaffinity : ℕ → ℕ
  pub thread_policy_set : ℕ → Bool
  pub set_thread_affinity_mask : ℕ → ℕ

module _ (os : Os) where
  open os use {setaffinity, thread_policy_set, set_thread_affinity_mask}

  pinned : BuildTarget → ℕ → Bool
  pinned linux core_id = setaffinity core_id == 0
  pinned apple core_id = thread_policy_set core_id
  pinned windows core_id =
      if leb 64 core_id then false else not (set_thread_affinity_mask (2 ^ core_id) == 0)
  pinned other core_id = true

  pub pin_thread_to_core : BuildTarget → ℤ → Bool
  unfolding pinned
  pin_thread_to_core p (negsuc n) = true
  pin_thread_to_core p (pos core_id) = pinned p core_id

-- The result depends on `SetThreadAffinityMask` only at the masks of one of the cores 0 to 63, each of
-- which fits a `DWORD_PTR`.
pub pin_thread_to_core-mask :
    (os os' : Os)
    → ((n : ℕ) → os.setaffinity n ≡ os'.setaffinity n)
    → ((n : ℕ) → os.thread_policy_set n ≡ os'.thread_policy_set n)
    → ((n : ℕ)
        → n < 64
        → os.set_thread_affinity_mask (2 ^ n) ≡ os'.set_thread_affinity_mask (2 ^ n))
    → (t : BuildTarget) (core_id : ℤ)
    → pin_thread_to_core os t core_id ≡ pin_thread_to_core os' t core_id
unfolding pin_thread_to_core pinned
pin_thread_to_core-mask os os' a b c t (negsuc n) = refl
pin_thread_to_core-mask os os' a b c linux (pos n) = ap (λ r. r == 0) (a n)
pin_thread_to_core-mask os os' a b c apple (pos n) = b n
pin_thread_to_core-mask os os' a b c windows (pos n) = elim (Bool-cases (leb 64 n)) [
  | inl e ↦ rw e refl
  | inr e ↦ rw (e, c n (ground (arith, e))) refl
]
pin_thread_to_core-mask os os' a b c other (pos n) = refl
