-- ===== src/Ws/Queue/Drain.antt =====
-- Queued messages against inline ones.
use bintrade.Prelude.{
  ℕ, zero, suc, ◌+◌, ◌^◌, ◌≤◌, ◌<◌, ◌≡◌, refl, sym, ap, subst, List, [], ◌∷◌, ◌++◌, append_assoc,
  append-nil, length, length-append, Text, inl, inr, arith,
}
use bintrade.Core.Spsc.{SpscQueue, init}
use bintrade.Core.Spsc.Fifo.{Holds, init-Holds, try_push-Holds, try_pop-Holds}
use bintrade.Ws.Queue.{queue_exponent, enqueue, enqueue_all, drain, turn, dispatch_all}

pub enqueue_all-Holds :
    (msgs xs : List Text) {queue : SpscQueue Text}
    → length xs + length msgs ≤ 2 ^ queue_exponent
    → Holds queue_exponent queue xs
    → Holds queue_exponent (enqueue_all msgs queue) (xs ++ msgs)
unfolding enqueue_all enqueue
enqueue_all-Holds [] xs h v = subst (Holds queue_exponent _) (sym (append-nil xs)) v
enqueue_all-Holds (msg ∷ msgs) xs {queue} h v =
    elim (try_push-Holds queue_exponent (omega arith) msg v) [
      | inl (full, e) ↦ absurd (omega (arith, full, h))
      | inr (room, e, v') ↦ subst (Holds queue_exponent _) (append_assoc xs (msg ∷ []) msgs) (
          enqueue_all-Holds msgs (xs ++ msg ∷ []) (omega (arith, h, length-append xs (msg ∷ [])))
            v')
    ]

module _ {ℓ} {D : Type ℓ} (dispatch : Text → List D) where
  pub drain-Holds :
      (left : ℕ) (xs : List Text) {queue : SpscQueue Text}
      → length xs < left
      → Holds queue_exponent queue xs
      → drain dispatch left queue ≡ dispatch_all dispatch xs
  unfolding drain turn dispatch_all
  drain-Holds zero xs h v = absurd (omega (arith, h))
  drain-Holds (suc left) xs {queue} h v = elim (try_pop-Holds queue_exponent (omega arith) v) [
    | inl (e, r) ↦ rw (e, r) refl
    | inr (x, rest, e, r, v') ↦
        rw (e, r) (ap (dispatch x ++◌) (drain-Holds left rest (omega (arith, h, ap length e)) v'))
  ]

  -- Messages that arrive while the consumer takes none, at most as many as the queue has room for,
  -- are all delivered by the draining loop, with what they would have delivered inline and in that
  -- order, within one turn more than there are messages.
  pub drain-enqueued :
      (left : ℕ) (msgs : List Text)
      → length msgs ≤ 2 ^ queue_exponent
      → length msgs < left
      → drain dispatch left (enqueue_all msgs (init queue_exponent [])) ≡ dispatch_all dispatch msgs
  drain-enqueued left msgs h enough =
      drain-Holds left msgs enough
        (enqueue_all-Holds msgs [] (omega (arith, h)) (init-Holds queue_exponent (omega arith) []))
