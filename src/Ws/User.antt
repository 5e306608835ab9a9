-- ===== src/Ws/User.antt =====
-- src/ws/user_stream.cpp: the user data stream, from its listen key to the callbacks. The REST calls
-- go over the transport of the platform; the connection is the one of Ws/Socket.antt.
pub mod Lifecycle
pub mod KeepAlive
pub mod ListenKey
use bintrade.Prelude.{
  ℕ, ℤ, pos, Bool, true, false, not, ◌&&◌, List, [], ◌∷◌, ◌++◌, Option, none, some, Text, str,
  text_eq, leb, if◌then◌else◌,
}
use bintrade.Core.Error.{
  Result, ok, err, Error, authentication, validation, exception_of_message, api_exception,
  terminated, logged, ◌>>=◌,
}
use bintrade.Models.{Order, AccountInfo}
use bintrade.Auth.Credentials.{Credentials, has_credentials, api_key}
use bintrade.Rest.Response.{HttpResponse}
use bintrade.Rest.Parse.{parse_response}
use bintrade.Rest.Query.{is_empty}
use bintrade.Rest.Client.{Platform, Request, post, del, checked}
use bintrade.Ws.Parse.{parse_order_update, parse_account_update}
use bintrade.Ws.Queue.{DispatchMode, inline, is_queued}
use bintrade.Ws.Socket.{Config, Socket, make_socket, connect, disconnect}

pub record UserStream : Type 0 where
  pub credentials : Credentials
  pub dispatch_mode : DispatchMode
  pub started : Bool
  pub listen_key : Text
  -- the consumer thread runs; the keep-alive thread was told to stop, and is joinable
  pub consumer_running : Bool
  pub stop_keep_alive : Bool
  pub keep_alive_joinable : Bool
  -- whether the two callbacks are set
  pub has_order_callback : Bool
  pub has_account_callback : Bool
  pub socket : Socket
  -- the transport: its API key, and its requests, newest first
  pub transport_key : Text
  pub requests : List Request

-- `UserStream(credentials, http, ws_config)`
unfoldable pub make_user_stream : Credentials → UserStream
make_user_stream credentials = record {
  credentials = credentials;
  dispatch_mode = inline;
  started = false;
  listen_key = [];
  consumer_running = false;
  stop_keep_alive = false;
  keep_alive_joinable = false;
  has_order_callback = false;
  has_account_callback = false;
  socket = make_socket;
  transport_key = [];
  requests = [];
}

-- The two setters, by whether the function that they get is empty.
pub set_account_update_callback : Bool → UserStream → UserStream
set_account_update_callback callback u = record u { has_account_callback = callback }

pub set_order_update_callback : Bool → UserStream → UserStream
set_order_update_callback callback u = record u { has_order_callback = callback }

unfoldable pub set_dispatch_mode : DispatchMode → UserStream → Result (Unit {0}) × UserStream
set_dispatch_mode mode u =
    if u.started
    then (
      err (validation (exception_of_message (str "set_dispatch_mode must be called before start"))),
      u,
    )
    else (ok tt, record u { dispatch_mode = mode })

start_consumer : UserStream → UserStream
start_consumer u = record u { consumer_running = true }

stop_consumer : UserStream → UserStream
stop_consumer u = if u.consumer_running then record u { consumer_running = false } else u

-- A wake of the keep-alive thread: 25 minutes are over, or it was told to stop.
pub data Wake : Type 0 where
  timed_out told_to_stop : Wake

module _ (P : Platform) where
  open P use {json, http}
  open json use {Json, Double, parse, value_text}

  -- `set_api_key`, and then one request.
  request : Request → UserStream → Result HttpResponse × UserStream
  request r u = (
    http (r ∷ u.requests),
    record u { transport_key = api_key u.credentials; requests = r ∷ u.requests },
  )

  -- `if (resp.status_code >= 400) { parse_response(...); }`
  unfoldable pub check_status : HttpResponse → Result (Unit {0})
  check_status resp =
      if leb 400 resp.status_code
      then (parse_response json resp.status_code resp.body >>= λ _. ok tt)
      else ok tt

  create_listen_key : UserStream → Result Text × UserStream
  unfolding request
  create_listen_key u =
      let (answer, u') = request (post (str "/api/v3/userDataStream") []) u in
      (
        (do
          resp ← answer
          j ← parse_response json resp.status_code resp.body
          value_text j (str "listenKey") []),
        u',
      )

  renew_listen_key : Text → UserStream → Result (Unit {0}) × UserStream
  unfolding request check_status
  renew_listen_key key u =
      let (answer, u') = request (post (str "/api/v3/userDataStream?listenKey=" ++ key) []) u in
      (answer >>= check_status, u')

  delete_listen_key : Text → UserStream → Result (Unit {0}) × UserStream
  unfolding request check_status
  delete_listen_key key u =
      let (answer, u') =
        request (del (str "/api/v3/userDataStream") ((str "listenKey", key) ∷ [])) u in
      (answer >>= check_status, u')

  -- A call of one of the two callbacks.
  pub data Delivery : Type 0 where
    order_update : Order Double → Delivery
    account_update : AccountInfo Double → Delivery

  -- The callback of an event.
  unfoldable pub routed : UserStream → Json → Text → Result (List Delivery)
  routed u j event_type =
      if text_eq event_type (str "executionReport")
      then (if u.has_order_callback
          then (parse_order_update json j >>= λ o. ok (order_update o ∷ []))
          else ok [])
      else if text_eq event_type (str "outboundAccountPosition")
      then (if u.has_account_callback
          then (parse_account_update json j >>= λ a. ok (account_update a ∷ []))
          else ok [])
      else ok []

  -- The body of the `try` block of `do_dispatch`.
  unfoldable pub dispatched : UserStream → Text → Result (List Delivery)
  unfolding routed
  dispatched u raw_json = do
    j ← parse raw_json
    event_type ← value_text j (str "e") []
    routed u j event_type

  unfoldable pub do_dispatch : UserStream → Text → List Delivery
  unfolding dispatched
  do_dispatch u raw_json = logged (dispatched u raw_json)

  module _ (cfg : Config) (int_text : ℕ → Text) where
    -- `start` behind the listen key. `outcome` is the error of the first connection. A consumer thread
    -- that still runs cannot be replaced: `std::thread` ends the program.
    pub connected : Option Text → UserStream → Result (Unit {0}) × UserStream
    unfolding start_consumer
    connected outcome u =
        let ready = if is_queued u.dispatch_mode then start_consumer u else u in
        let (answer, socket) = connect cfg int_text (str "/ws/" ++ u.listen_key) outcome u.socket in
        if is_queued u.dispatch_mode && u.consumer_running
        then (err terminated, u)
        else (answer, record ready { socket = socket })

    -- The keep-alive thread is started behind a connection; one that is joinable cannot be replaced.
    pub kept_alive : Result (Unit {0}) × UserStream → Result (Unit {0}) × UserStream
    kept_alive (ok _, u) =
        if u.keep_alive_joinable
        then (err terminated, record u { stop_keep_alive = false })
        else (ok tt, record u { stop_keep_alive = false; keep_alive_joinable = true })
    kept_alive (err e, u) = (err e, u)

    with_key : Option Text → Result Text × UserStream → Result (Unit {0}) × UserStream
    unfolding connected kept_alive
    with_key outcome (err e, u) = (err e, u)
    with_key outcome (ok [], u) = (
      err (api_exception (pos 0) (str "Empty listenKey returned by Binance")),
      record u { listen_key = [] },
    )
    with_key outcome (ok (b ∷ key), u) =
        kept_alive (connected outcome (record u { listen_key = b ∷ key }))

    unfoldable pub start : Option Text → UserStream → Result (Unit {0}) × UserStream
    unfolding with_key create_listen_key
    start outcome u =
        if not (has_credentials u.credentials)
        then (
          err (
              authentication
                (exception_of_message (str "UserStream::start requires valid credentials"))),
          u,
        )
        else with_key outcome (create_listen_key (record u { started = true }))

  unfoldable pub keep_alive : UserStream → Result (Unit {0}) × UserStream
  unfolding renew_listen_key
  keep_alive u = if is_empty u.listen_key then (ok tt, u) else renew_listen_key u.listen_key u

  keep_alive_turn :
      Result (Unit {0}) × UserStream
      → Result (Unit {0}) × UserStream
      → Result (Unit {0}) × UserStream
  keep_alive_turn (ok _, u) later = later
  keep_alive_turn (err e, u) later = (err terminated, u)

  -- The keep-alive thread, by its wakes. Nothing in the thread catches what `keep_alive` throws, and
  -- an exception that leaves the function of a `std::thread` ends the program.
  pub keep_alive_thread : List Wake → UserStream → Result (Unit {0}) × UserStream
  unfolding keep_alive keep_alive_turn
  keep_alive_thread [] u = (ok tt, u)
  keep_alive_thread (told_to_stop ∷ wakes) u = (ok tt, record u { stop_keep_alive = true })
  keep_alive_thread (timed_out ∷ wakes) u =
      keep_alive_turn (keep_alive u) (keep_alive_thread wakes (keep_alive u).1)

  -- What a failing `delete_listen_key` throws is logged.
  drop_listen_key : Text → UserStream → UserStream
  unfolding delete_listen_key
  drop_listen_key [] u = u
  drop_listen_key (b ∷ key) u = record ((delete_listen_key (b ∷ key) u).1) { listen_key = [] }

  pub stop : UserStream → UserStream
  unfolding stop_consumer drop_listen_key
  stop u =
      let told = record (stop_consumer u) { stop_keep_alive = true; keep_alive_joinable = false } in
      let dropped = drop_listen_key told.listen_key told in
      record dropped { socket = disconnect dropped.socket }
