-- ===== src/Core/Spsc/Trace.antt =====
-- Sequences of calls on a queue, against a bounded list.
use bintrade.Prelude.{
  ℕ, ◌^◌, ◌<◌, ◌≡◌, refl, ap, Bool, true, false, Option, none, some, List, [], ◌∷◌, ◌++◌, length,
  ltb, if◌then◌else◌, inl, inr, arith, lt→ltb,
}
use bintrade.Core.Spsc.{SpscQueue, init, try_push, try_pop}
use bintrade.Core.Spsc.Fifo.{Holds, init-Holds, try_push-Holds, try_pop-Holds}

pub data Call {ℓ} (A : Type ℓ) : Type ℓ where
  push : A → Call A
  pop : Call A

pub data Answer {ℓ} (A : Type ℓ) : Type ℓ where
  pushed : Bool → Answer A
  popped : Option A → Answer A

module _ {ℓ} {A : Type ℓ} (k : ℕ) where
  pub run : List (Call A) → SpscQueue A → List (Answer A)
  run [] q = []
  run (push x ∷ calls) q = let (done, q') = try_push k x q in pushed done ∷ run calls q'
  run (pop ∷ calls) q = let (out, q') = try_pop k q in popped out ∷ run calls q'

  -- The same calls on a list of at most 2^k elements, oldest first.
  pub run_list : List (Call A) → List A → List (Answer A)
  run_list [] xs = []
  run_list (push x ∷ calls) xs =
      let room = ltb (length xs) (2 ^ k) in
      pushed room ∷ run_list calls (if room then xs ++ x ∷ [] else xs)
  run_list (pop ∷ calls) [] = popped none ∷ run_list calls []
  run_list (pop ∷ calls) (x ∷ xs) = popped (some x) ∷ run_list calls xs

  module _ (small : k < 64) where
    run-Holds :
        (calls : List (Call A)) {q : SpscQueue A} {xs : List A}
        → Holds k q xs
        → run calls q ≡ run_list calls xs
    unfolding run run_list
    run-Holds [] v = refl
    run-Holds (push x ∷ calls) {q} {xs} v = elim (try_push-Holds k small x v) [
      | inl (full, e) ↦
          let n : ltb (length xs) (2 ^ k) ≡ false = ground arith in
          rw (e, n) (ap (◌∷◌ (pushed false)) (run-Holds calls v))
      | inr (room, e, v') ↦ rw (e, lt→ltb _ _ room) (ap (◌∷◌ (pushed true)) (run-Holds calls v'))
    ]
    run-Holds (pop ∷ calls) {q} {xs} v = elim (try_pop-Holds k small v) [
      | inl (e, r) ↦ rw (e, r) (ap (◌∷◌ (popped none)) (run-Holds calls (rw e at v)))
      | inr (x, rest, e, r, v') ↦ rw (e, r) (ap (◌∷◌ (popped (some x))) (run-Holds calls v'))
    ]

    -- Whatever calls are made of a new queue of capacity 2^k, with k < 64, each answers as on a
    -- list of at most 2^k elements: a push is refused exactly when the list is full, and a pop
    -- takes the oldest element.
    pub run-eq-run_list :
        (blank : A) (calls : List (Call A)) → run calls (init k blank) ≡ run_list calls []
    run-eq-run_list blank calls = run-Holds calls (init-Holds k small blank)
