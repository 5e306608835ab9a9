-- ===== src/Ws/Market/Resubscribe.antt =====
-- A second subscription on one public stream.
use bintrade.Prelude.{ℕ, ◌≡◌, refl, Bool, List, Option, none, some, Text}
use bintrade.Core.Error.{ok, err, terminated}
use bintrade.Core.Spsc.{SpscQueue}
use bintrade.Ws.Queue.{DispatchMode}
use bintrade.Ws.Socket.{Config}
use bintrade.Ws.Socket.Reuse.{connect-eq-ok, connect-joinable}
use bintrade.Ws.Client
use bintrade.Ws.Client.{Client, set_message_callback}
use bintrade.Ws.Market.{MarketStream, subscribe, connect_to, install_dispatch, start_consumer}

module _ (cfg : Config) (int_text : ℕ → Text) {E : Type 0} where
  stream_again :
      (mode : DispatchMode) (consumer : Option (Text → List E)) (c : Client E (SpscQueue Text))
      (subscribed : Bool) (queue : SpscQueue Text) (name name' : Text)
      (dispatch dispatch' : Text → List E) (outcome outcome' : Option Text)
      → let s : MarketStream E = record {
        client = c;
        dispatch_mode = mode;
        subscribed = subscribed;
        queue = queue;
        consumer = consumer;
      } in
        let (answer, once) = subscribe cfg int_text name dispatch outcome s in
        answer ≡ ok tt → (subscribe cfg int_text name' dispatch' outcome' once).0 ≡ err terminated
  unfolding subscribe connect_to install_dispatch start_consumer Client.connect set_message_callback
  stream_again DispatchMode.inline consumer c subscribed queue name name' dispatch dispatch' outcome
        outcome' h =
      let (_, busy, _) = connect-eq-ok cfg int_text _ outcome c.ws h in
      connect-joinable cfg int_text _ outcome' _ busy
  stream_again DispatchMode.queued none c subscribed queue name name' dispatch dispatch' outcome
        outcome' h =
      refl
  stream_again DispatchMode.queued (some running) c subscribed queue name name' dispatch dispatch'
        outcome outcome' h =
      cc

  -- A stream takes one subscription: behind one that returned, the next one ends the program, in
  -- either mode and for every stream name.
  pub subscribe-subscribe :
      (name name' : Text) (dispatch dispatch' : Text → List E) (outcome outcome' : Option Text)
      (s : MarketStream E)
      → (subscribe cfg int_text name dispatch outcome s).0 ≡ ok tt
      → (subscribe cfg int_text name' dispatch' outcome'
          (subscribe cfg int_text name dispatch outcome s).1).0
        ≡ err terminated
  subscribe-subscribe name name' dispatch dispatch' outcome outcome' s h =
      stream_again s.dispatch_mode s.consumer s.client s.subscribed s.queue name name' dispatch
        dispatch' outcome outcome' h
