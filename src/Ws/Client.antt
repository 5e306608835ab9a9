-- ===== src/Ws/Client.antt =====
-- src/ws/client.cpp: the base of the streams, which keeps the callbacks beside the connection of
-- Ws/Socket.antt.
use bintrade.Prelude.{ℕ, Bool, List, [], Option, none, some, Text}
use bintrade.Core.Error.{Result}
use bintrade.Ws.Socket.{Config, Notice, message, error, written, Socket}
use bintrade.Ws.Socket

-- `Client::Impl`. A message callback may change what it captured, a value of `S`; what a callback
-- hands to the user of the stream is a value of `E`.
pub record Client (E S : Type 0) : Type 0 where
  pub ws : Socket
  pub on_message : Option (Text → S → List E × S)
  pub on_error : Option (Text → List E)

module _ {E S : Type 0} where
  unfoldable pub make_client : Socket → Client E S
  make_client ws = record { ws = ws; on_message = none; on_error = none }

  -- `deliver_message`, and the handler that `set_message_callback` sets.
  unfoldable pub deliver_message : Text → S → Client E S → List E × S
  deliver_message msg captured c = elim c.on_message [
    | none ↦ ([], captured)
    | some callback ↦ callback msg captured
  ]

  pub deliver_error : Text → Client E S → List E
  deliver_error msg c = elim c.on_error [ none ↦ [] | some callback ↦ callback msg ]

  unfoldable pub set_message_callback : (Text → S → List E × S) → Client E S → Client E S
  set_message_callback callback c = record c { on_message = some callback }

  pub set_error_callback : (Text → List E) → Client E S → Client E S
  set_error_callback callback c = record c { on_error = some callback }

  pub is_connected : Client E S → Bool
  is_connected c = c.ws.connected

  unfoldable pub disconnect : Client E S → Client E S
  unfolding Socket.disconnect
  disconnect c = record c { ws = Socket.disconnect c.ws }

  pub send : Text → Client E S → Result (Unit {0}) × Client E S
  unfolding Socket.send
  send msg c = let (sent, ws) = Socket.send msg c.ws in (sent, record c { ws = ws })

  module _ (cfg : Config) (int_text : ℕ → Text) where
    -- `connect`, which calls `do_connect`.
    unfoldable pub connect : Text → Option Text → Client E S → Result (Unit {0}) × Client E S
    unfolding Socket.connect
    connect stream_name outcome c =
        let (answer, ws) = Socket.connect cfg int_text stream_name outcome c.ws in
        (answer, record c { ws = ws })
