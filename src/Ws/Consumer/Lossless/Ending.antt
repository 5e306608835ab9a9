-- ===== src/Ws/Consumer/Lossless/Ending.antt =====
-- A consumer that is told to stop ends.
use bintrade.Prelude.{
  ℕ, zero, suc, ◌≤◌, ◌<◌, ◌≡◌, ◌≢◌, refl, sym, ap, subst, ◌∙◌, false, List, [], ◌++◌, append-nil,
  Option, none, some, Text, length, inl, inr, arith, if◌then◌else◌, Reach,
}
use bintrade.Core.Spsc.{SpscQueue, try_pop}
use bintrade.Core.Spsc.Fifo.{try_pop-Holds}
use bintrade.Ws.Queue.{queue_exponent, dispatch_all}
use bintrade.Ws.Consumer.{
  Phase, testing, popping, draining, finished, System, consume, popped, start, Step, consume_for,
}
use bintrade.Ws.Consumer.Lossless.{
  IsLossless, took_one, took_one-Inv, popped-Inv, phased-Inv, Reach-IsLossless,
}

-- The steps in which the consumer ends: two to leave the first loop, one for each message that waits,
-- and one that finds the queue empty.
abbrev pub steps_to_end : ℕ
steps_to_end = 4099

module _ {E : Type 0} (dispatch : Text → List E) where
  finished-stays :
      (left : ℕ) (s : System dispatch)
      → consume_for dispatch left (record s { phase = finished }) ≡ record s { phase = finished }
  unfolding consume_for consume
  finished-stays zero s = refl
  finished-stays (suc left) s = finished-stays left s

  IsLossless-empty :
      (s : System dispatch) (v : IsLossless dispatch s)
      → v.waiting ≡ []
      → s.delivered ≡ dispatch_all dispatch s.accepted
  IsLossless-empty s v e =
      v.delivered_eq
      ∙ ap (dispatch_all dispatch) (sym (v.accepted_eq ∙ ap (v.taken ++◌) e ∙ append-nil v.taken))

  -- It ended and delivered everything that was accepted.
  abbrev pub IsDrained : List Text → System dispatch → Type 0
  IsDrained accepted s = (s.phase ≡ finished) × (s.delivered ≡ dispatch_all dispatch accepted)

  consume-empty :
      (s : System dispatch)
      → try_pop queue_exponent s.queue ≡ (none, s.queue)
      → consume dispatch (record s { phase = draining }) ≡ record s { phase = finished }
  unfolding consume popped
  consume-empty s e = ap (λ p. popped dispatch finished p.0 p.1 (record s { phase = draining })) e

  consume-one :
      (msg : Text) (s : System dispatch)
      → let (got, queue) = try_pop queue_exponent s.queue in
        got ≡ some msg
        → consume dispatch (record s { phase = draining })
          ≡ record (took_one dispatch queue msg s) { phase = draining }
  unfolding consume popped took_one
  consume-one msg s e =
      ap
        (λ got.
          popped dispatch finished got (try_pop queue_exponent s.queue).1
            (record s { phase = draining }))
        e

  drains :
      (left : ℕ) (s : System dispatch) (v : IsLossless dispatch s)
      → length v.waiting < left
      → IsDrained s.accepted (consume_for dispatch left (record s { phase = draining }))
  unfolding consume_for took_one took_one-Inv
  drains zero s v h = absurd (omega (arith, h))
  drains (suc left) s v h = elim (try_pop-Holds queue_exponent (omega arith) v.holds) [
    | inl (none_left, e) ↦
        subst (IsDrained s.accepted)
          (sym (ap (consume_for dispatch left) (consume-empty s e) ∙ finished-stays left s))
          (refl, IsLossless-empty s v none_left)
    | inr (msg, rest, e, r, w) ↦
        subst (λ t. IsDrained s.accepted (consume_for dispatch left t)) (sym (consume-one msg s r))
          (drains left (took_one dispatch _ msg s) (took_one-Inv dispatch _ msg rest s v e w)
            (omega (arith, h, ap length e)))
  ]

  ends-testing :
      (s : System dispatch)
      → IsLossless dispatch s
      → s.running ≡ false
      → (left : ℕ) → 4097 ≤ left
      → IsDrained s.accepted (consume_for dispatch (suc left) (record s { phase = testing }))
  unfolding consume_for consume
  ends-testing s v off left h =
      subst
        (λ b.
          IsDrained s.accepted
            (consume_for dispatch left (record s { phase = if b then popping else draining })))
        (sym off) (drains left s v (omega (arith, h, v.holds.fits)))

  popped-accepted :
      (idle : Phase) (got : Option Text) (queue : SpscQueue Text) (s : System dispatch)
      → let t = popped dispatch idle got queue s in
        (t.accepted ≡ s.accepted) × (t.running ≡ s.running)
  unfolding popped
  popped-accepted idle none queue s = (refl, refl)
  popped-accepted idle (some msg) queue s = (refl, refl)

  ends-from :
      (phase : Phase) (s : System dispatch)
      → IsLossless dispatch s
      → s.running ≡ false
      → phase ≢ finished
      → IsDrained s.accepted (consume_for dispatch steps_to_end (record s { phase = phase }))
  unfolding consume_for consume
  ends-from testing s v off live = ends-testing s v off 4098 (omega arith)
  ends-from popping s v off live =
      let at_pop = record s { phase = popping } in
      let (got, queue) = try_pop queue_exponent s.queue in
      let (same, still) = popped-accepted testing got queue at_pop in
      let t = popped dispatch testing got queue at_pop in
      subst
        (λ accepted. IsDrained accepted (consume_for dispatch 4098 (record t { phase = testing })))
        same
        (ends-testing t (popped-Inv dispatch testing at_pop (phased-Inv dispatch popping s v))
          (still ∙ off) 4097 (omega arith))
  ends-from draining s v off live = drains 4099 s v (omega (arith, v.holds.fits))
  ends-from finished s v off live = absurd (live refl)

  -- A consumer that was told to stop ends: from every state that the threads can reach, where
  -- `running` is cleared and the consumer has not ended, 4099 of its own steps bring it to its end,
  -- if no message arrives between them. By then every message that was ever accepted has been
  -- dispatched, in the order of arrival.
  pub stopped-IsDrained :
      {s : System dispatch}
      → Reach (Step dispatch) (start dispatch) s
      → s.running ≡ false
      → s.phase ≢ finished
      → IsDrained s.accepted (consume_for dispatch steps_to_end s)
  stopped-IsDrained {s} r off live = ends-from s.phase s (Reach-IsLossless dispatch r) off live
