-- ===== src/Ws/Consumer.antt =====
-- The I/O thread, the consumer thread and the owner of a stream in `DispatchMode::Queued`:
-- `start_consumer` and `stop_consumer` of src/ws/user_stream.cpp and src/ws/market_stream.cpp. A push,
-- a pop and an access of the flag `running` are one step each; Core/Spsc/Threads.antt takes the
-- queue's own operations apart.
pub mod Lossless
use bintrade.Prelude.{
  ℕ, zero, suc, ◌≡◌, Bool, true, false, List, [], ◌∷◌, ◌++◌, Option, none, some, Text,
  if◌then◌else◌,
}
use bintrade.Core.Spsc.{SpscQueue, init, try_push, try_pop}
use bintrade.Ws.Queue.{queue_exponent}

-- Where the consumer thread is: before it reads `running`, before the `try_pop` of the first loop,
-- in the loop that drains, and at its end.
pub data Phase : Type 0 where
  testing popping draining finished : Phase

module _ {E : Type 0} (dispatch : Text → List E) where
  -- `accepted` are the messages for which the queue had room, `delivered` what the callbacks got.
  pub record System : Type 0 where
    pub queue : SpscQueue Text
    pub running : Bool
    pub phase : Phase
    pub accepted : List Text
    pub delivered : List E

  -- The message callback of the I/O thread.
  unfoldable pub arrive : Text → System → System
  arrive msg s =
      let (room, queue) = try_push queue_exponent msg s.queue in
      record s { queue = queue; accepted = if room then s.accepted ++ msg ∷ [] else s.accepted }

  -- One `try_pop` of the consumer, with the phase behind it.
  pub popped : Phase → Option Text → SpscQueue Text → System → System
  popped idle none queue s = record s { queue = queue; phase = idle }
  popped idle (some msg) queue s = record s {
    queue = queue;
    delivered = s.delivered ++ dispatch msg;
  }

  -- One step of the consumer thread.
  pub consume : System → System
  unfolding popped
  consume s =
      let (msg, queue) = try_pop queue_exponent s.queue in
      elim s.phase [
        | testing ↦ record s { phase = if s.running then popping else draining }
        | popping ↦ record (popped testing msg queue s) { phase = testing }
        | draining ↦ popped finished msg queue s
        | finished ↦ s
      ]

  -- `running.store(false)` of `stop_consumer`
  unfoldable pub stop_signal : System → System
  stop_signal s = record s { running = false }

  unfoldable pub start : System
  start = record {
    queue = init queue_exponent [];
    running = true;
    phase = testing;
    accepted = [];
    delivered = [];
  }

  pub data Step : System → System → Type 0 where
    arrives : (msg : Text) (s : System) → Step s (arrive msg s)
    consumes : (s : System) → Step s (consume s)
    stops : (s : System) → Step s (stop_signal s)

  -- The consumer alone, for a number of steps.
  pub consume_for : ℕ → System → System
  consume_for zero s = s
  consume_for (suc n) s = consume_for n (consume s)
