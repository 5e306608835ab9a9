-- ===== src/Ws/Socket.antt =====
-- src/ws/detail/websocket_client.cpp: the connection of the streams, as the handlers that its I/O
-- thread runs. What the network and the timers report is an argument of the handler: a failed
-- operation is the text of its error. Log lines and the settings of the sockets are left out.
pub mod Backoff
pub mod Stopped
pub mod Reuse
pub mod DoubleLoss
pub mod Attempts
pub mod Paths
use bintrade.Prelude.{
  ℕ, ℤ, pos, negsuc, suc, ◌+◌, ◌*◌, ◌-◌, min, Bool, true, false, not, ◌&&◌, ◌||◌, List, [], ◌∷◌,
  ◌++◌, Option, none, some, Text, str, leb, if◌then◌else◌,
}
use bintrade.Core.Config.{WebSocketConfig}
use bintrade.Core.Error.{Result, ok, err, terminated, network_exception}

-- The fields of `WebSocketConfig` that the handlers read, in seconds and in attempts.
pub record Config : Type 0 where
  pub reconnect_interval : ℕ
  pub max_reconnect_attempts : ℕ

-- An attempt is never below a negative maximum, as it is never below 0.
abbrev pub config_of : WebSocketConfig → Config
config_of config = record {
  reconnect_interval = config.reconnect_interval;
  max_reconnect_attempts = elim config.max_reconnect_attempts [ pos n ↦ n | negsuc n ↦ 0 ];
}

-- An armed timer of `attempt_reconnect`: its attempt and its delay before the jitter.
pub record Retry : Type 0 where
  pub attempt : ℕ
  pub delay : ℕ

-- What leaves the client: a call of `on_message`, a call of `on_error`, and a written frame.
pub data Notice : Type 0 where
  message : Text → Notice
  error : Text → Notice
  written : Text → Notice

-- The state of `WebSocketClient::Impl`: its flags, how many reads and ping timers were started, the
-- reconnect timers and posted writes that wait, and what left the client, newest first. Both
-- callbacks are set. `upgrades` are the paths of the handshakes that opened a connection, newest first.
-- `joinable` is that of the I/O thread; `stopped` is that of the `io_context`,
-- which the code never restarts; `close_posted` is the job of a `disconnect` that no thread has run.
pub record Socket : Type 0 where
  pub connected : Bool
  pub should_stop : Bool
  pub path : Text
  pub upgrades : List Text
  pub reads : ℕ
  pub pings : ℕ
  pub retries : List Retry
  pub writes : List Text
  pub notices : List Notice
  pub joinable : Bool
  pub stopped : Bool
  pub close_posted : Bool

abbrev pub notify : Notice → Socket → Socket
notify n s = record s { notices = n ∷ s.notices }

pub do_read : Socket → Socket
do_read s = if s.should_stop then s else record s { reads = suc s.reads }

-- The handshake for `current_path` was answered.
abbrev pub upgraded : Socket → Socket
upgraded s = record s { connected = true; upgrades = s.path ∷ s.upgrades }

pub do_ping_timer : Socket → Socket
do_ping_timer s = record s { pings = suc s.pings }

module _ (cfg : Config) (int_text : ℕ → Text) where
  pub attempt_reconnect : ℕ → ℕ → Socket → Socket
  attempt_reconnect attempt delay s =
      if s.should_stop
      then s
      else if leb cfg.max_reconnect_attempts attempt
      then notify (error (str "Max reconnect attempts reached -- giving up")) s
      else record s { retries = s.retries ++ record { attempt = attempt; delay = delay } ∷ [] }

  -- `do_connect`, by the error of its one `try` block.
  pub do_connect : Option Text → Socket → Socket
  unfolding do_read do_ping_timer
  do_connect (some what) s = record s { connected = false }
  do_connect none s = do_ping_timer (do_read (upgraded s))

  -- How a read ends: an error, a text message, or another frame.
  pub data ReadEnd : Type 0 where
    read_error : Text → ReadEnd
    text_frame : Text → ReadEnd
    other_frame : ReadEnd

  read_ended : ReadEnd → Socket → Socket
  unfolding do_read attempt_reconnect
  read_ended (read_error ec) s =
      attempt_reconnect 0 cfg.reconnect_interval
        (notify (error (str "Read error: " ++ ec)) (record s { connected = false }))
  read_ended (text_frame msg) s = do_read (notify (message msg) s)
  read_ended other_frame s = do_read s

  pub handle_read : ReadEnd → Socket → Socket
  unfolding read_ended
  handle_read end s = if s.should_stop then s else read_ended end s

  -- The ping timer: whether its wait was cancelled, and the error of the ping.
  pinged : Option Text → Socket → Socket
  unfolding do_ping_timer attempt_reconnect
  pinged none s = do_ping_timer s
  pinged (some ec) s =
      attempt_reconnect 0 cfg.reconnect_interval
        (notify (error (str "Ping failed: " ++ ec)) (record s { connected = false }))

  pub handle_ping : Bool → Option Text → Socket → Socket
  unfolding pinged do_ping_timer
  handle_ping cancelled ping s =
      if cancelled || s.should_stop
      then s
      else if s.connected
      then pinged ping s
      else do_ping_timer s

  -- The reconnect timer behind its check, by the error of the new connection. The stream that `ws` held
  -- is destroyed here, which aborts a read that is pending on it; DoubleLoss has what follows.
  reconnected : Option Text → Retry → Socket → Socket
  unfolding do_read do_ping_timer attempt_reconnect
  reconnected none r s = do_ping_timer (do_read (upgraded s))
  reconnected (some what) r s =
      attempt_reconnect (r.attempt + 1) (min (r.delay * 2) 60)
        (notify (error (str "Reconnect attempt failed: " ++ what)) (record s { connected = false }))

  -- The handler as one piece; Stopped lets `disconnect` fall between its check and its end.
  pub handle_retry : Bool → Option Text → Retry → Socket → Socket
  unfolding reconnected
  handle_retry cancelled outcome r s =
      if cancelled || s.should_stop
      then s
      else reconnected outcome r (
          notify (error (str "Reconnecting (attempt " ++ (int_text (r.attempt + 1) ++ str ")...")))
            s)

-- `send`: the frame is posted to the I/O thread, which looks at the connection again.
unfoldable pub send : Text → Socket → Result (Unit {0}) × Socket
send msg s =
    if s.connected
    then (ok tt, record s { writes = s.writes ++ msg ∷ [] })
    else (err (network_exception (str "WebSocket send failed: not connected")), s)

write_ended : Option Text → Text → Socket → Socket
write_ended none msg s = notify (written msg) s
write_ended (some ec) msg s = notify (error (str "Send error: " ++ ec)) s

pub handle_write : Option Text → Text → Socket → Socket
unfolding write_ended
handle_write ec msg s = if s.connected then write_ended ec msg s else s

-- The job that `disconnect` posts closes the stream and stops the `io_context`. The I/O thread runs
-- it and is joined; without an I/O thread the job stays in the `io_context`.
pub post_close : Socket → Socket
post_close s = record s {
  joinable = false;
  stopped = s.joinable || s.stopped;
  close_posted = s.close_posted || not s.joinable;
}

-- `disconnect`, called from another thread than the I/O thread. A reconnect handler that is past its
-- check of `should_stop` finishes behind the two stores; Stopped has that.
unfoldable pub disconnect : Socket → Socket
unfolding post_close
disconnect s = post_close (record s { should_stop = true; connected = false })

-- The I/O thread enters `ioc.run()` behind the first attempt to connect. It returns at once where the
-- `io_context` is stopped, and leaves the jobs; a posted close stops it; and without work, as behind a
-- failed attempt, it stops too.
pub enter_run : Option Text → Socket → Socket
enter_run (some what) s = record s { stopped = true; close_posted = s.stopped && s.close_posted }
enter_run none s = record s {
  stopped = s.stopped || s.close_posted;
  close_posted = s.stopped && s.close_posted;
}

-- `connect`: the first attempt runs on the new I/O thread, and the caller waits for its end. The text
-- of an exception is taken not to be empty, which `connect` would read as a success.
after_connect : Option Text → Socket → Result (Unit {0}) × Socket
after_connect none s = (ok tt, s)
after_connect (some what) s = (
  err (network_exception (str "WebSocket connect failed: " ++ what)),
  record s { should_stop = true; joinable = false },
)

-- `std::thread` ends the program when it is assigned to while it is joinable.
module _ (cfg : Config) (int_text : ℕ → Text) where
  unfoldable pub connect : Text → Option Text → Socket → Result (Unit {0}) × Socket
  unfolding do_connect enter_run after_connect
  connect stream_path outcome s =
      if s.joinable
      then (err terminated, s)
      else after_connect outcome (
          enter_run outcome (
            do_connect cfg int_text outcome
              (record s { should_stop = false; path = stream_path; joinable = true })))

-- `Impl()`
unfoldable pub make_socket : Socket
make_socket = record {
  connected = false;
  should_stop = false;
  path = [];
  upgrades = [];
  reads = 0;
  pings = 0;
  retries = [];
  writes = [];
  notices = [];
  joinable = false;
  stopped = false;
  close_posted = false;
}
