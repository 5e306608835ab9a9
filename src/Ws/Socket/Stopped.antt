-- ===== src/Ws/Socket/Stopped.antt =====
-- What still happens to a connection after `disconnect`.
use bintrade.Prelude.{none, some, str, ◌++◌, ◌≡◌, Bool, true, List, [], ◌∷◌, Option, Text, ℕ}
use bintrade.Ws.Socket.{
  notify, error, reconnected, Config, Retry, ReadEnd, Socket, handle_read, handle_ping,
  handle_retry, handle_write, disconnect,
}

module _ (cfg : Config) (int_text : ℕ → Text) where
  -- Any handler, with what the network and the timers can tell it.
  pub data Event : Type 0 where
    read_event : ReadEnd cfg int_text → Event
    ping_event : Bool → Option Text → Event
    retry_event : Bool → Option Text → Retry → Event
    write_event : Option Text → Text → Event

  unfoldable pub handle : Event → Socket → Socket
  handle (read_event end) s = handle_read cfg int_text end s
  handle (ping_event cancelled ec) s = handle_ping cfg int_text cancelled ec s
  handle (retry_event cancelled ec r) s = handle_retry cfg int_text cancelled ec r s
  handle (write_event ec msg) s = handle_write ec msg s

  unfoldable pub handle_all : List Event → Socket → Socket
  handle_all [] s = s
  handle_all (e ∷ es) s = handle_all es (handle e s)

  -- A reconnect handler that passed its check before `disconnect` and is still connecting then, by the
  -- error of its connection: the rest of that handler runs behind the stores of `disconnect`.
  abbrev pub Flight : Type 0
  Flight = Option (Option Text × Retry)

  pub land : Flight → Socket → Socket
  land none s = s
  land (some (outcome, r)) s = reconnected cfg int_text outcome r s

  abbrev failed : Text → Socket → Socket
  failed what s = notify (error (str "Reconnect attempt failed: " ++ what)) (disconnect s)

  -- What is left of the connection when a reconnect went through behind `disconnect`.
  record Undead (reads : ℕ) (retries : List Retry) (s : Socket) : Type 0 where
    up : s.connected ≡ true
    told : s.should_stop ≡ true
    no_read : s.reads ≡ reads
    no_retry : s.retries ≡ retries

  -- What handlers in any number and order do after `disconnect`, before and after the end of a
  -- reconnect handler that was still connecting when `disconnect` was called.
  abbrev pub Ends : Flight → Socket → Socket → Type 0
  Ends none s end = end ≡ disconnect s
  Ends (some (some what, r)) s end =
      end ≡ notify (error (str "Reconnect attempt failed: " ++ what)) (disconnect s)
  Ends (some (none, r)) s end =
      (end.connected ≡ true) × (end.reads ≡ s.reads) × (end.retries ≡ s.retries)
