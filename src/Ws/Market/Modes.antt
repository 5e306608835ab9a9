-- ===== src/Ws/Market/Modes.antt =====
-- The two dispatch modes of a public stream, from its subscription to its destructor.
use bintrade.Prelude.{ℕ, ◌^◌, ◌≤◌, ◌≡◌, true, List, [], ◌∷◌, ◌++◌, Option, none, some, Text, length}
use bintrade.Core.Spsc.{SpscQueue}
use bintrade.Ws.Queue.{DispatchMode, queue_exponent, dispatch_all}
use bintrade.Core.Spsc.Fifo.{Holds}
use bintrade.Ws.Socket.{Config, Socket}
use bintrade.Ws.Client
use bintrade.Ws.Client.{Client}
use bintrade.Ws.Market.{
  Happening, message_arrives, consumer_takes, MarketStream, make_market_stream, set_dispatch_mode,
  subscribe, feed, destroy, queued_callback,
}

-- Which messages a mode delivers.
pub taken : DispatchMode → List Text → List Text → List Text
taken DispatchMode.inline msgs late = msgs ++ late
taken DispatchMode.queued msgs late = msgs

abbrev pub arrived : List Happening → List Text
arrived [] = []
arrived (message_arrives msg ∷ hs) = msg ∷ arrived hs
arrived (consumer_takes ∷ hs) = arrived hs

module _ {E : Type 0} where
  -- What a stream delivers between its subscription and the end of its destructor: of what happens
  -- before the destructor, and of the messages that arrive in it.
  pub lifetime : List Happening → List Text → MarketStream E → List E
  unfolding destroy
  lifetime hs late s = let (events, s') = feed hs s in events ++ (destroy late s').0

  -- A stream with this mode, state of the connection, queue and consumer.
  abbrev live :
      DispatchMode
      → (Text → SpscQueue Text → List E × SpscQueue Text)
      → Socket
      → SpscQueue Text
      → Option (Text → List E)
      → MarketStream E
  live mode callback ws queue consumer = record {
    client = record { ws = ws; on_message = some callback; on_error = none };
    dispatch_mode = mode;
    subscribed = true;
    queue = queue;
    consumer = consumer;
  }

  -- What was delivered, and what is left in the queue, are what was there and what arrived.
  record Fed (dispatch : Text → List E) (ws : Socket) (xs : List Text) (r : List E × MarketStream E)
      : Type 0 where
    queue : SpscQueue Text
    left : List Text
    state : r.1 ≡ live DispatchMode.queued queued_callback ws queue (some dispatch)
    held : Holds queue_exponent queue left
    fits : length left ≤ 2 ^ queue_exponent
    same : r.0 ++ dispatch_all dispatch left ≡ dispatch_all dispatch xs

  module _ (cfg : Config) (int_text : ℕ → Text) where
    -- A new stream that chose a mode and subscribed.
    pub opened : DispatchMode → Text → (Text → List E) → Option Text → Socket → MarketStream E
    unfolding make_market_stream set_dispatch_mode subscribe
    opened mode name dispatch outcome ws =
        (subscribe cfg int_text name dispatch outcome
          (set_dispatch_mode mode (make_market_stream ws)).1).1
