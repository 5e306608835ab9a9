-- ===== src/Ws/Consumer/Lossless.antt =====
-- No accepted message is lost, delivered out of order or delivered twice.
pub mod Ending
use bintrade.Prelude.{
  ℕ, zero, suc, ◌+◌, ◌≤◌, ◌<◌, ◌≡◌, ◌≢◌, refl, sym, ap, subst, ◌∙◌, Bool, true, false, List, [],
  ◌∷◌, ◌++◌, append_assoc, append-nil, Option, none, some, Text, length, inl, inr, arith,
  if◌then◌else◌, Reach, Reach-preserves, Bool-cases,
}
use bintrade.Core.Spsc.{SpscQueue, init, try_push, try_pop}
use bintrade.Core.Spsc.Fifo.{Holds, init-Holds, try_push-Holds, try_pop-Holds}
use bintrade.Ws.Queue.{queue_exponent, dispatch_all}
use bintrade.Ws.Consumer.{
  Phase, testing, popping, draining, finished, System, arrive, consume, popped, stop_signal, start,
  Step, arrives, consumes, stops, consume_for,
}

module _ {E : Type 0} (dispatch : Text → List E) where
  -- The accepted messages are those that were dispatched, in their order, and then those that wait in
  -- the queue.
  pub record IsLossless (s : System dispatch) : Type 0 where
    pub taken : List Text
    pub waiting : List Text
    pub accepted_eq : s.accepted ≡ taken ++ waiting
    pub delivered_eq : s.delivered ≡ dispatch_all dispatch taken
    pub holds : Holds queue_exponent s.queue waiting

  dispatch_all-snoc :
      (msgs : List Text) (msg : Text)
      → dispatch_all dispatch (msgs ++ msg ∷ []) ≡ dispatch_all dispatch msgs ++ dispatch msg
  unfolding dispatch_all
  dispatch_all-snoc [] msg = append-nil (dispatch msg)
  dispatch_all-snoc (m ∷ msgs) msg =
      ap (dispatch m ++◌) (dispatch_all-snoc msgs msg) ∙ sym (append_assoc (dispatch m) _ _)

  arrive-Inv :
      (msg : Text) (s : System dispatch) → IsLossless s → IsLossless (arrive dispatch msg s)
  unfolding arrive
  arrive-Inv msg s v = elim (try_push-Holds queue_exponent (omega arith) msg v.holds) [
    | inl (full, e) ↦ rw e (record {
      taken = v.taken;
      waiting = v.waiting;
      accepted_eq = v.accepted_eq;
      delivered_eq = v.delivered_eq;
      holds = v.holds;
    })
    | inr (room, e, h) ↦ record {
      taken = v.taken;
      waiting = v.waiting ++ msg ∷ [];
      accepted_eq =
          rw e (ap (λ ms. ms ++ msg ∷ []) v.accepted_eq ∙ append_assoc v.taken v.waiting _);
      delivered_eq = v.delivered_eq;
      holds = h;
    }
  ]

  -- A change of the phase or of the flag.
  moved-Inv :
      (phase : Phase) (running : Bool) (s : System dispatch)
      → IsLossless s
      → IsLossless (record s { phase = phase; running = running })
  moved-Inv phase running s v = record {
    taken = v.taken;
    waiting = v.waiting;
    accepted_eq = v.accepted_eq;
    delivered_eq = v.delivered_eq;
    holds = v.holds;
  }

  pub phased-Inv :
      (phase : Phase) (s : System dispatch) → IsLossless s → IsLossless (record s { phase = phase })
  phased-Inv phase s v = moved-Inv phase s.running s v

  pub took_one : SpscQueue Text → Text → System dispatch → System dispatch
  took_one queue msg s = record s { queue = queue; delivered = s.delivered ++ dispatch msg }

  pub took_one-Inv :
      (queue : SpscQueue Text) (msg : Text) (rest : List Text) (s : System dispatch)
      (v : IsLossless s)
      → v.waiting ≡ msg ∷ rest
      → Holds queue_exponent queue rest
      → IsLossless (took_one queue msg s)
  unfolding took_one
  took_one-Inv queue msg rest s v e h = record {
    taken = v.taken ++ msg ∷ [];
    waiting = rest;
    accepted_eq = v.accepted_eq ∙ ap (v.taken ++◌) e ∙ sym (append_assoc v.taken (msg ∷ []) rest);
    delivered_eq = ap (λ d. d ++ dispatch msg) v.delivered_eq ∙ sym (dispatch_all-snoc v.taken msg);
    holds = h;
  }

  pub popped-Inv :
      (idle : Phase) (s : System dispatch)
      → IsLossless s
      → IsLossless (
          popped dispatch idle
            (try_pop queue_exponent s.queue).0
            (try_pop queue_exponent s.queue).1
            s)
  unfolding popped took_one
  popped-Inv idle s v = elim (try_pop-Holds queue_exponent (omega arith) v.holds) [
    | inl (none_left, e) ↦ rw e (phased-Inv idle s v)
    | inr (msg, rest, e, r, h) ↦ rw r (took_one-Inv _ msg rest s v e h)
  ]

  consume-Inv : (s : System dispatch) → IsLossless s → IsLossless (consume dispatch s)
  unfolding consume
  consume-Inv s v = elim s.phase as (λ p. IsLossless (consume dispatch (record s { phase = p }))) [
    | testing ↦ phased-Inv _ s v
    | popping ↦
        phased-Inv testing _
          (popped-Inv testing (record s { phase = popping }) (phased-Inv popping s v))
    | draining ↦ popped-Inv finished (record s { phase = draining }) (phased-Inv draining s v)
    | finished ↦ phased-Inv finished s v
  ]

  Step-Inv : (s t : System dispatch) → Step dispatch s t → IsLossless s → IsLossless t
  unfolding stop_signal
  Step-Inv _ _ (arrives msg s) v = arrive-Inv msg s v
  Step-Inv _ _ (consumes s) v = consume-Inv s v
  Step-Inv _ _ (stops s) v = moved-Inv s.phase false s v

  start-Inv : IsLossless (start dispatch)
  unfolding start dispatch_all
  start-Inv = record {
    taken = [];
    waiting = [];
    accepted_eq = refl;
    delivered_eq = refl;
    holds = init-Holds queue_exponent (omega arith) [];
  }

  -- Whatever the I/O thread, the consumer and the owner do, in any order: the callbacks got exactly
  -- what the dispatch makes of the accepted messages that left the queue, in the order in which they
  -- arrived and each once, and every other accepted message waits in the queue behind them.
  pub Reach-IsLossless :
      {s : System dispatch} → Reach (Step dispatch) (start dispatch) s → IsLossless s
  Reach-IsLossless r = Reach-preserves (Step dispatch) IsLossless Step-Inv r start-Inv
