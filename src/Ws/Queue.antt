-- ===== src/Ws/Queue.antt =====
-- The queue between the I/O thread and the consumer thread of src/ws/user_stream.cpp and
-- src/ws/market_stream.cpp in `DispatchMode::Queued`. `dispatch` is the stream's own dispatch.
pub mod Drain
use bintrade.Prelude.{
  ℕ, ◌^◌, Bool, true, false, zero, suc, List, [], ◌∷◌, ◌++◌, Option, none, some, Text,
}
use bintrade.Core.Spsc.{SpscQueue, try_push, try_pop}

pub data DispatchMode : Type 0 where
  inline queued : DispatchMode

abbrev pub is_queued : DispatchMode → Bool
is_queued inline = false
is_queued queued = true

-- `k_queue_capacity` is 2 to this power.
abbrev pub queue_exponent : ℕ
queue_exponent = 12

-- The callback of the I/O thread: whether the message had room is ignored.
unfoldable pub enqueue : Text → SpscQueue Text → SpscQueue Text
enqueue msg queue = (try_push queue_exponent msg queue).1

module _ {ℓ} {D : Type ℓ} (dispatch : Text → List D) where
  -- What one turn of a loop delivers: the loop ends when nothing is there.
  unfoldable pub turn : Option Text → List D → List D
  turn none later = []
  turn (some msg) later = dispatch msg ++ later

  -- The loop that drains the queue once the consumer was told to stop, with what it delivers, by
  -- the turns that are left.
  pub drain : ℕ → SpscQueue Text → List D
  unfolding turn
  drain zero queue = []
  drain (suc left) queue =
      let later = drain left (try_pop queue_exponent queue).1 in
      turn (try_pop queue_exponent queue).0 later

  -- `DispatchMode::Inline`: the I/O thread dispatches each message itself.
  unfoldable pub dispatch_all : List Text → List D
  dispatch_all [] = []
  dispatch_all (msg ∷ msgs) = dispatch msg ++ dispatch_all msgs

-- The messages that the I/O thread enqueues while the consumer takes none.
unfoldable pub enqueue_all : List Text → SpscQueue Text → SpscQueue Text
unfolding enqueue
enqueue_all [] queue = queue
enqueue_all (msg ∷ msgs) queue = enqueue_all msgs (enqueue msg queue)

-- The queue behind the loop that drains it.
unfoldable pub drained : ℕ → SpscQueue Text → SpscQueue Text
drained zero queue = queue
drained (suc left) queue = drained left (try_pop queue_exponent queue).1

-- The turns that empty every queue: one for each cell, and one that finds it empty.
abbrev pub enough_turns : ℕ
enough_turns = suc (2 ^ queue_exponent)
