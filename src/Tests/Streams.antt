-- ===== src/Tests/Streams.antt =====
-- Examples for the public streams, the typed streams, and the threads behind them.
use bintrade.Prelude.{
  ◌+◌, ℕ, suc, ◌≡◌, ◌↔◌, refl, pos, true, false, List, [], ◌∷◌, ◌++◌, replicate, none, some, str,
  Text, length, Reach, here, next, arith,
}
use bintrade.Core.Error.{ok, err, terminated}
use bintrade.Models.{Trade}
use bintrade.Auth.Credentials.{make_credentials}
use bintrade.Ws.Parse.{parse_trade_stream}
use bintrade.Ws.Queue.{inline}
use bintrade.Ws.Socket.{Config, Socket, connect, disconnect, make_socket, read_error, text_frame}
use bintrade.Ws.Socket.Stopped.{Event, read_event, retry_event, handle_all}
use bintrade.Ws.Socket.Paths.{handle_all-connect}
use bintrade.Ws.Socket.Reuse.{deliver_all, connect-disconnect}
use bintrade.Ws.Socket.DoubleLoss.{lost, replace_all, first_retry, replace_all-lost}
use bintrade.Ws.Socket.DoubleLoss
use bintrade.Ws.Market.{
  Happening, message_arrives, consumer_takes, MarketStream, make_market_stream, subscribe,
  subscribe_trades, subscribe_klines, subscribe_ticker, subscribe_depth,
}
use bintrade.Ws.Parse.{parse_kline_stream, parse_ticker_stream, parse_depth_stream}
use bintrade.Models.{Kline, Ticker, OrderBook}
use bintrade.Ws.Market.Dispatch.{IsMessage, delivered, receive-subscribe_all}
use bintrade.Ws.Market.Modes.{opened}
use bintrade.Ws.Market.Resubscribe.{subscribe-subscribe}
use bintrade.Ws.Typed.{FunctionalMarketHandler, functional_user, typed_do_dispatch}
use bintrade.Ws.Typed.Agree.{callbacks, typed_do_dispatch-functional}
use bintrade.Ws.User.{UserStream, do_dispatch}
use bintrade.Ws.Consumer.{System, Step, start, arrive, stop_signal, consume_for, arrives, stops}
use bintrade.Ws.Consumer.Lossless.{IsLossless, Reach-IsLossless}
use bintrade.Ws.Consumer.Lossless.Ending.{IsDrained, steps_to_end, stopped-IsDrained}
use bintrade.Tests.Sample.{flat_json, calm}

abbrev settings : Config
settings = record { reconnect_interval = 5; max_reconnect_attempts = 3 }

abbrev int_text : ℕ → Text
int_text n = str "1"

-- A connection that is up.
abbrev open_socket : Socket
open_socket = record {
  connected = true;
  should_stop = false;
  path = str "/ws";
  upgrades = [];
  reads = 1;
  pings = 1;
  retries = [];
  writes = [];
  notices = [];
  joinable = true;
  stopped = false;
  close_posted = false;
}

abbrev arrivals : List (Event settings int_text)
arrivals = read_event (text_frame (str "{}")) ∷ read_event (read_error (str "eof")) ∷ []

connect-disconnect_example :
    let (answer, again) = connect settings int_text (str "/ws/x") none (disconnect open_socket) in
    (answer ≡ ok tt)
    × (again.connected ≡ true)
    × (deliver_all settings int_text arrivals again ≡ again)
connect-disconnect_example = connect-disconnect settings int_text (str "/ws/x") open_socket arrivals

-- A new connection is lost and comes back.
abbrev lost_and_back : List (Event settings int_text)
lost_and_back =
    read_event (read_error (str "eof"))
    ∷ retry_event false none (record { attempt = 0; delay = 5 })
    ∷ []

handle_all-connect_example :
    let later =
      handle_all settings int_text lost_and_back
        (connect settings int_text (str "/ws/x") none make_socket).1 in
    (later.path ≡ str "/ws/x")
    × (n : ℕ) × (later.upgrades ≡ replicate (suc n) (str "/ws/x") ++ make_socket.upgrades)
unfolding connect make_socket
handle_all-connect_example =
    handle_all-connect settings int_text (str "/ws/x") none make_socket lost_and_back refl

replace_all-lost_example :
    let down =
      lost settings int_text
        (str "p")
        (str "r")
        (DoubleLoss.opened settings int_text open_socket) in
    let later = (replace_all settings int_text 5 (str "aborted") down).socket in
    (down.socket.retries ≡ first_retry settings int_text ∷ first_retry settings int_text ∷ [])
    × (later.retries ≡ first_retry settings int_text ∷ [])
    × (later.connected ≡ false)
    × (later.reads ≡ open_socket.reads + (3 + 2))
replace_all-lost_example =
    replace_all-lost settings int_text 3 (str "p") (str "r") (str "aborted") open_socket
      (omega arith)

abbrev one_trade : Trade ℕ
one_trade = record {
  id = 0;
  order_id = 0;
  price = 1;
  qty = 1;
  quote_qty = 1;
  time = pos 0;
  is_buyer = true;
  is_maker = false;
}

receive-subscribe_all_example :
    ((m : Trade ℕ)
      → (delivered flat_json
            (str "{}")
            (subscribe_trades flat_json settings int_text
              (str "btcusdt")
              (λ x. x ∷ [])
              none
              (make_market_stream make_socket)).1
          ≡ m ∷ [])
        ↔ IsMessage flat_json (str "trade") (parse_trade_stream flat_json) (str "{}") m)
    × ((m : Kline ℕ)
        → (delivered flat_json
              (str "{}")
              (subscribe_klines flat_json settings int_text
                (str "btcusdt")
                (str "1m")
                (λ x. x ∷ [])
                none
                (make_market_stream make_socket)).1
            ≡ m ∷ [])
          ↔ IsMessage flat_json (str "kline") (parse_kline_stream flat_json) (str "{}") m)
    × ((m : Ticker ℕ)
        → (delivered flat_json
              (str "{}")
              (subscribe_ticker flat_json settings int_text
                (str "btcusdt")
                (λ x. x ∷ [])
                none
                (make_market_stream make_socket)).1
            ≡ m ∷ [])
          ↔ IsMessage flat_json (str "24hrTicker") (parse_ticker_stream flat_json) (str "{}") m)
    × ((m : OrderBook ℕ)
        → (delivered flat_json
              (str "{}")
              (subscribe_depth flat_json settings int_text
                (str "btcusdt")
                (λ x. x ∷ [])
                none
                (make_market_stream make_socket)).1
            ≡ m ∷ [])
          ↔ IsMessage flat_json (str "depthUpdate") (parse_depth_stream flat_json) (str "{}") m)
receive-subscribe_all_example =
    receive-subscribe_all flat_json settings int_text (str "btcusdt") (str "1m") (str "{}") none
      make_socket

abbrev count_bytes : Text → List ℕ
count_bytes t = length t ∷ []

abbrev two_texts : List Text
two_texts = str "ab" ∷ str "c" ∷ []

abbrev two_arrivals : List Happening
two_arrivals = message_arrives (str "ab") ∷ consumer_takes ∷ message_arrives (str "c") ∷ []

abbrev late_texts : List Text
late_texts = str "def" ∷ []

abbrev unused : MarketStream ℕ
unused = make_market_stream make_socket

subscribe-subscribe_example :
    (subscribe settings int_text
      (str "b")
      count_bytes
      none
      (subscribe settings int_text (str "a") count_bytes none unused).1).0
    ≡ err terminated
unfolding make_market_stream subscribe make_socket
subscribe-subscribe_example =
    subscribe-subscribe settings int_text (str "a") (str "b") count_bytes count_bytes none none
      unused refl

abbrev trade_handler : FunctionalMarketHandler ℕ ℕ
trade_handler = record {
  on_trade_fn = some (λ t. t.id ∷ []);
  on_kline_fn = none;
  on_ticker_fn = none;
  on_order_book_fn = none;
}

abbrev orders_only : UserStream
orders_only = record {
  credentials = make_credentials (str "key") (str "secret");
  dispatch_mode = inline;
  started = true;
  listen_key = str "k";
  consumer_running = false;
  stop_keep_alive = false;
  keep_alive_joinable = false;
  has_order_callback = true;
  has_account_callback = false;
  socket = open_socket;
  transport_key = [];
  requests = [];
}

typed_do_dispatch-functional_example :
    typed_do_dispatch flat_json (functional_user (callbacks calm orders_only)) (str "{}")
    ≡ do_dispatch calm orders_only (str "{}")
typed_do_dispatch-functional_example = typed_do_dispatch-functional calm orders_only (str "{}")

-- A message came, and the consumer was told to stop before it took a step.
abbrev told : System count_bytes
told = stop_signal count_bytes (arrive count_bytes (str "ab") (start count_bytes))

told-reached : Reach (Step count_bytes) (start count_bytes) told
told-reached = next (next here (arrives (str "ab") (start count_bytes))) (stops _)

Reach-IsLossless_example : IsLossless count_bytes told
Reach-IsLossless_example = Reach-IsLossless count_bytes told-reached

stopped-IsDrained_example :
    IsDrained count_bytes told.accepted (consume_for count_bytes steps_to_end told)
unfolding stop_signal arrive start
stopped-IsDrained_example = stopped-IsDrained count_bytes told-reached refl (λ e. cc)
