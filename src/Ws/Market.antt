-- ===== src/Ws/Market.antt =====
-- src/ws/market_stream.cpp: the public streams, from a subscription to the callback of the user, in
-- both dispatch modes. `outcome` is the error of the first connection.
pub mod Dispatch
pub mod Modes
pub mod Resubscribe
use bintrade.Prelude.{
  map, ℕ, Bool, true, false, List, [], ◌∷◌, ◌++◌, Option, none, some, Text, str, text_eq, lower,
  if◌then◌else◌,
}
use bintrade.Core.Error.{
  Result, ok, err, terminated, validation, exception_of_message, logged, ◌>>=◌,
}
use bintrade.Core.Spsc.{SpscQueue, init, try_pop}
use bintrade.Json.{JsonLib}
use bintrade.Models.{Ticker, OrderBook, Kline, Trade}
use bintrade.Ws.Parse.{
  parse_trade_stream, parse_kline_stream, parse_ticker_stream, parse_depth_stream,
}
use bintrade.Ws.Queue.{
  DispatchMode, is_queued, enqueue, turn, drain, drained, enough_turns, queue_exponent,
}
use bintrade.Ws.Socket.{Config, Socket}
use bintrade.Ws.Client
use bintrade.Ws.Client.{Client, make_client, deliver_message, set_message_callback}

-- The message callback of either mode. What it captures is the queue.
unfoldable pub inline_callback {ℓ} :
    {E : Type ℓ} {S : Type 0} → (Text → List E) → Text → S → List E × S
inline_callback dispatch_fn msg captured = (dispatch_fn msg, captured)

unfoldable pub queued_callback : {E : Type 0} → Text → SpscQueue Text → List E × SpscQueue Text
unfolding enqueue
queued_callback msg queue = ([], enqueue msg queue)

-- `MarketStream`, over its base. `consumer` is the dispatch of the consumer thread that runs.
pub record MarketStream (E : Type 0) : Type 0 where
  pub client : Client E (SpscQueue Text)
  pub dispatch_mode : DispatchMode
  pub subscribed : Bool
  pub queue : SpscQueue Text
  pub consumer : Option (Text → List E)

-- A message of the connection, or a round of the consumer thread.
pub data Happening : Type 0 where
  message_arrives : Text → Happening
  consumer_takes : Happening

module _ {E : Type 0} where
  unfoldable pub make_market_stream : Socket → MarketStream E
  unfolding make_client
  make_market_stream ws = record {
    client = make_client ws;
    dispatch_mode = DispatchMode.inline;
    subscribed = false;
    queue = init queue_exponent [];
    consumer = none;
  }

  pub set_dispatch_mode : DispatchMode → MarketStream E → Result (Unit {0}) × MarketStream E
  set_dispatch_mode mode s =
      if s.subscribed
      then (
        err (
            validation
              (exception_of_message (str "set_dispatch_mode must be called before subscribe"))),
        s,
      )
      else (ok tt, record s { dispatch_mode = mode })

  -- `std::thread` ends the program when it is assigned to while it is joinable.
  start_consumer : (Text → List E) → MarketStream E → Result (Unit {0}) × MarketStream E
  start_consumer dispatch s = elim s.consumer [
    | none ↦ (ok tt, record s { consumer = some dispatch })
    | some running ↦ (err terminated, s)
  ]

  -- The consumer is told to stop, dispatches what is left, and is joined.
  pub stop_consumer : MarketStream E → List E × MarketStream E
  stop_consumer s = elim s.consumer [
    | none ↦ ([], s)
    | some dispatch ↦ (
      drain dispatch enough_turns s.queue,
      record s { queue = drained enough_turns s.queue; consumer = none },
    )
  ]

  unfoldable pub install_dispatch :
      (Text → List E) → MarketStream E → Result (Unit {0}) × MarketStream E
  unfolding start_consumer set_message_callback
  install_dispatch dispatch s = elim s.dispatch_mode [
    | DispatchMode.inline ↦
        (ok tt, record s { client = set_message_callback (inline_callback dispatch) s.client })
    | DispatchMode.queued ↦
        start_consumer dispatch
          (record s { client = set_message_callback queued_callback s.client })
  ]

  module _ (cfg : Config) (int_text : ℕ → Text) where
    unfoldable pub connect_to :
        Text → Option Text → Result (Unit {0}) × MarketStream E → Result (Unit {0}) × MarketStream E
    unfolding Client.connect
    connect_to stream_name outcome (err e, s) = (err e, s)
    connect_to stream_name outcome (ok _, s) =
        let (answer, client) =
          Client.connect cfg int_text (str "/ws/" ++ stream_name) outcome s.client in
        (answer, record s { client = client })

    -- What the four methods share.
    unfoldable pub subscribe :
        Text → (Text → List E) → Option Text → MarketStream E → Result (Unit {0}) × MarketStream E
    unfolding install_dispatch connect_to
    subscribe stream_name dispatch outcome s =
        connect_to stream_name outcome (install_dispatch dispatch (record s { subscribed = true }))

  -- A message of the connection.
  unfoldable pub receive : Text → MarketStream E → List E × MarketStream E
  unfolding deliver_message
  receive msg s =
      let (events, queue) = deliver_message msg s.queue s.client in
      (events, record s { queue = queue })

  -- A round of the loop of the consumer thread, where one runs.
  pub consumer_round : MarketStream E → List E × MarketStream E
  unfolding turn
  consumer_round s = elim s.consumer [
    | none ↦ ([], s)
    | some dispatch ↦ (
      turn dispatch (try_pop queue_exponent s.queue).0 [],
      record s { queue = (try_pop queue_exponent s.queue).1 },
    )
  ]

  -- The two threads, in any order.
  pub happens : Happening → MarketStream E → List E × MarketStream E
  unfolding receive consumer_round
  happens (message_arrives msg) s = receive msg s
  happens consumer_takes s = consumer_round s

  pub feed : List Happening → MarketStream E → List E × MarketStream E
  unfolding happens
  feed [] s = ([], s)
  feed (h ∷ hs) s =
      let (now, s') = happens h s in let (later, s'') = feed hs s' in (now ++ later, s'')

  -- The destructor: the consumer, and then the base with the connection, which is open until then:
  -- `late` are the messages that arrive in between. The queue is freed in between too. In the queued
  -- mode `late` are those that arrive before that; what follows then writes to freed memory.
  pub destroy : List Text → MarketStream E → List E × Client E (SpscQueue Text)
  unfolding feed Client.disconnect
  destroy late s =
      let (events, stopped) = stop_consumer s in
      let (behind, s') = feed (map message_arrives late) stopped in
      (events ++ behind, Client.disconnect s'.client)

module _ (L : JsonLib) {E : Type 0} where
  open L use {Json, Double, parse, value_text}

  -- The dispatch of a message whose "e" is `name`.
  unfoldable pub dispatch_fn :
      {M : Type 0} → Text → (Json → Result M) → (M → List E) → Text → List E
  dispatch_fn name parse_model callback msg = logged (do
    j ← parse msg
    event ← value_text j (str "e") []
    if text_eq event name then (parse_model j >>= λ m. ok (callback m)) else ok [])

  module _ (cfg : Config) (int_text : ℕ → Text) where
    unfoldable pub subscribe_trades :
        Text
        → (Trade Double → List E)
        → Option Text
        → MarketStream E
        → Result (Unit {0}) × MarketStream E
    unfolding subscribe
    subscribe_trades symbol callback =
        subscribe cfg int_text (lower symbol ++ str "@trade")
          (dispatch_fn (str "trade") (parse_trade_stream L) callback)

    unfoldable pub subscribe_klines :
        Text
        → Text
        → (Kline Double → List E)
        → Option Text
        → MarketStream E
        → Result (Unit {0}) × MarketStream E
    unfolding subscribe
    subscribe_klines symbol interval callback =
        subscribe cfg int_text (lower symbol ++ (str "@kline_" ++ interval))
          (dispatch_fn (str "kline") (parse_kline_stream L) callback)

    unfoldable pub subscribe_ticker :
        Text
        → (Ticker Double → List E)
        → Option Text
        → MarketStream E
        → Result (Unit {0}) × MarketStream E
    unfolding subscribe
    subscribe_ticker symbol callback =
        subscribe cfg int_text (lower symbol ++ str "@ticker")
          (dispatch_fn (str "24hrTicker") (parse_ticker_stream L) callback)

    unfoldable pub subscribe_depth :
        Text
        → (OrderBook Double → List E)
        → Option Text
        → MarketStream E
        → Result (Unit {0}) × MarketStream E
    unfolding subscribe
    subscribe_depth symbol callback =
        subscribe cfg int_text (lower symbol ++ str "@depth")
          (dispatch_fn (str "depthUpdate") (parse_depth_stream L) callback)
