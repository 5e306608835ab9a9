-- ===== src/Tests/Ws.antt =====
-- Examples for the streams.
use bintrade.Prelude.{
  ℕ, ◌≡◌, refl, pos, true, false, List, [], ◌∷◌, ◌++◌, none, some, str, ◌+◌, ◌*◌, ◌/◌, ◌≤◌, Text,
  arith, text_eq, lookup,
}
use bintrade.Core.Config.{default_web_socket_config}
use bintrade.Core.Types.{sell, limit, gtc, new}
use bintrade.Models.{Order}
use bintrade.Auth.Credentials.{make_credentials, has_credentials}
use bintrade.Rest.Parse.{parse_response}
use bintrade.Ws.Socket.{Config, config_of, Socket, read_error, handle_read, handle_retry, connect}
use bintrade.Ws.Socket.Stopped.{Event, Flight, read_event, retry_event}
use bintrade.Ws.Socket.Backoff.{IsDown, outage, outage-handle_read}
use bintrade.Ws.Socket.Backoff.Outage.{JitterLib, outage_ms, backoffs, outage_ms-handle_read}
use bintrade.Ws.Queue.{inline}
use bintrade.Ws.User.{UserStream, start, stop}
use bintrade.Ws.User.Lifecycle.{deletions, stop-all, IsStarted, start-eq-ok}
use bintrade.Tests.Sample.{calm}

abbrev sold : Order ℕ
sold = record {
  symbol = [];
  order_id = 0;
  client_order_id = [];
  price = 1;
  orig_qty = 1;
  executed_qty = 1;
  cummulative_quote_qty = 1;
  status = new;
  time_in_force = gtc;
  type = limit;
  side = sell;
  time = pos 0;
  update_time = pos 0;
}

abbrev sale : List (Text × Text)
sale = (str "S", str "SELL") ∷ []

abbrev config : Config
config = config_of default_web_socket_config

abbrev number_text : ℕ → Text
number_text n = str "1"

-- A connection that is up.
abbrev up : Socket
up = record {
  connected = true;
  should_stop = false;
  path = str "/ws";
  upgrades = [];
  reads = 0;
  pings = 1;
  retries = [];
  writes = [];
  notices = [];
  joinable = false;
  stopped = false;
  close_posted = false;
}

outage-handle_read_example : IsDown config number_text 2 (
    outage config number_text
      (str "a" ∷ str "b" ∷ [])
      (handle_read config number_text (read_error (str "eof")) up))
outage-handle_read_example =
    outage-handle_read config number_text (str "eof") (str "a" ∷ str "b" ∷ []) up refl refl
      (omega arith)

slowest-fits : (s : ℕ) → 4 * (5 * (1000 * s / 4)) ≤ 5000 * s
slowest-fits s = omega arith

slowest-late : (s : ℕ) → 3000 * s ≤ 4 * (5 * (1000 * s / 4))
slowest-late s = omega arith

-- A jitter that draws 1.25 each time.
abbrev slowest : JitterLib
slowest = record {
  scaled = λ n ms. 5 * (ms / 4);
  scaled-le = λ n s. slowest-fits s;
  le-scaled = λ n s. slowest-late s;
}

outage_ms-handle_read_example :
    let ms =
      outage_ms slowest config number_text 0
        (str "a" ∷ str "b" ∷ [])
        (handle_read config number_text (read_error (str "eof")) up) in
    (3000 * backoffs slowest config number_text 0 2 ≤ 4 * ms)
    × (4 * ms ≤ 5000 * backoffs slowest config number_text 0 2)
    × (4 * ms ≤ 5000 * (5 + 60 * 1))
outage_ms-handle_read_example =
    outage_ms-handle_read slowest config number_text 0 (str "eof") (str "a") (str "b" ∷ []) up refl
      refl (omega arith)

-- Two timers for one lost connection.
abbrev doubled : Socket
doubled = record up {
  connected = false;
  retries = record { attempt = 0; delay = 5 } ∷ record { attempt = 2; delay = 20 } ∷ [];
}

-- What is left behind the failure of the second one.
abbrev after_second : Socket
after_second =
    handle_retry config number_text false (some (str "refused"))
      (record { attempt = 2; delay = 20 })
      (record doubled { retries = record { attempt = 0; delay = 5 } ∷ [] })

abbrev late : List (Event config number_text)
late =
    read_event (read_error (str "eof"))
    ∷ retry_event false none (record { attempt = 0; delay = 5 })
    ∷ []

-- A reconnect that opens behind `disconnect`.
abbrev in_flight : Flight config number_text
in_flight = some (none, record { attempt = 0; delay = 5 })

abbrev stream : UserStream
stream = record {
  credentials = make_credentials (str "key") (str "secret");
  dispatch_mode = inline;
  started = false;
  listen_key = str "k";
  consumer_running = false;
  stop_keep_alive = false;
  keep_alive_joinable = false;
  has_order_callback = true;
  has_account_callback = false;
  socket = up;
  transport_key = [];
  requests = [];
}

stop-all_example :
    ((stop calm stream).listen_key ≡ [])
    × ((stop calm stream).consumer_running ≡ false)
    × ((stop calm stream).stop_keep_alive ≡ true)
    × ((stop calm stream).socket.should_stop ≡ true)
    × ((stop calm stream).requests ≡ deletions calm (str "k") ++ [])
stop-all_example = stop-all calm stream

start-eq-ok_example :
    (has_credentials stream.credentials ≡ true)
    × IsStarted calm (start calm config number_text none stream).1
unfolding start connect parse_response str text_eq lookup
start-eq-ok_example = start-eq-ok calm config number_text none stream refl
