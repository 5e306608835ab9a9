-- ===== src/Ws/Typed/Agree.antt =====
-- Typed streams with functional handlers against the streams of callbacks.
use bintrade.Prelude.{
  ℕ, ◌≡◌, refl, Bool, true, false, Bool-cases, List, [], ◌∷◌, Option, none, some, Text, str,
  text_eq, if◌then◌else◌, inl, inr,
}
use bintrade.Core.Error.{logged, Result, ok, err, ◌>>=◌, Result-cases}
use bintrade.Json.{JsonLib}
use bintrade.Ws.Client
use bintrade.Ws.Client.{Client, deliver_message, make_client, set_message_callback}
use bintrade.Ws.Market
use bintrade.Ws.Market.{
  MarketStream, make_market_stream, receive, dispatch_fn, inline_callback, subscribe, connect_to,
  install_dispatch,
}
use bintrade.Ws.Socket.{Config, Socket}
use bintrade.Ws.User.{
  UserStream, Delivery, order_update, account_update, do_dispatch, dispatched, routed,
}
use bintrade.Rest.Client.{Platform}
use bintrade.Ws.Typed.{
  FunctionalUserHandler, functional_user, typed_do_dispatch, typed_routed, FunctionalMarketHandler,
  functional_market, TypedMarketStream, call_set, typed_dispatch, required, typed_subscribe,
  typed_subscribe_trades, typed_subscribe_klines, typed_subscribe_ticker, typed_subscribe_depth,
}

module _ (L : JsonLib) {E : Type 0} where
  open L use {Json, Double}

  -- Two calls of a subscription went alike: they return or throw alike, leave connections in the same
  -- state, and a message delivers the same behind them.
  pub Alike : Result (Unit {0}) × MarketStream E → Result (Unit {0}) × TypedMarketStream E → Type 0
  Alike (a, s) (b, t) =
      (a ≡ b)
      × (s.client.ws ≡ t.ws)
      × ((msg : Text) → (receive msg s).0 ≡ (deliver_message msg tt t).0)

  module _ (cfg : Config) (int_text : ℕ → Text) where
    -- A typed stream with a functional handler and a callback stream in the inline mode, both new and
    -- with a connection in the same state, are alike in each of their four subscriptions, where the
    -- callback stream is given the handler's functions, set or not.
    pub subscriptions-Alike :
        (h : FunctionalMarketHandler Double E) (symbol interval : Text) (outcome : Option Text)
        (ws : Socket)
        → let s : MarketStream E = make_market_stream ws in
          let t : TypedMarketStream E = make_client ws in
          let m = functional_market h in
          Alike
            (Market.subscribe_trades L cfg int_text symbol (call_set h.on_trade_fn) outcome s)
            (typed_subscribe_trades L cfg int_text m symbol outcome t)
          × Alike
              (Market.subscribe_klines L cfg int_text symbol interval
                (call_set h.on_kline_fn)
                outcome
                s)
              (typed_subscribe_klines L cfg int_text m symbol interval outcome t)
          × Alike
              (Market.subscribe_ticker L cfg int_text symbol (call_set h.on_ticker_fn) outcome s)
              (typed_subscribe_ticker L cfg int_text m symbol outcome t)
          × Alike
              (Market.subscribe_depth L cfg int_text symbol (call_set h.on_order_book_fn) outcome s)
              (typed_subscribe_depth L cfg int_text m symbol outcome t)
    unfolding Alike Market.subscribe_trades Market.subscribe_klines Market.subscribe_ticker
        Market.subscribe_depth typed_subscribe_trades typed_subscribe_klines typed_subscribe_ticker
        typed_subscribe_depth functional_market typed_subscribe typed_dispatch required dispatch_fn
        subscribe connect_to install_dispatch make_market_stream receive deliver_message
        Client.connect make_client set_message_callback inline_callback
    subscriptions-Alike h symbol interval outcome ws = (
      (refl, refl, λ msg. refl),
      (refl, refl, λ msg. refl),
      (refl, refl, λ msg. refl),
      (refl, refl, λ msg. refl),
    )

module _ (P : Platform) where
  open P use {json}
  open json use {Json, Double, parse, value_text}

  -- The functions that stand for the callbacks of a user stream.
  pub callbacks : UserStream → FunctionalUserHandler Double (Delivery P)
  callbacks u = record {
    on_order_update_fn = if u.has_order_callback then some (λ o. order_update o ∷ []) else none;
    on_account_update_fn =
        if u.has_account_callback then some (λ a. account_update a ∷ []) else none;
  }

  -- The logged end of an event: a handler without a function reads the model all the same.
  logged-required :
      {M : Type 0} (set : Bool) (read : Result M) (deliver : M → List (Delivery P))
      → logged (read >>= λ m. ok (call_set (if set then some deliver else none) m))
        ≡ logged (if set then (read >>= λ m. ok (deliver m)) else ok [])
  logged-required true (ok m) deliver = refl
  logged-required true (err e) deliver = refl
  logged-required false (ok m) deliver = refl
  logged-required false (err e) deliver = refl

  -- A typed user stream with a functional handler delivers for every message what a user stream
  -- delivers to the same functions as its callbacks, whichever of them are set: also where a model
  -- cannot be read.
  pub typed_do_dispatch-functional :
      (u : UserStream) (raw_json : Text)
      → typed_do_dispatch json (functional_user (callbacks u)) raw_json ≡ do_dispatch P u raw_json
  unfolding typed_do_dispatch typed_routed required functional_user callbacks do_dispatch dispatched
      routed
  typed_do_dispatch-functional u raw_json = elim (Result-cases (parse raw_json)) [
    | inr (e, bad) ↦ rw bad refl
    | inl (j, good) ↦ elim (Result-cases (value_text j (str "e") [])) [
      | inr (e, bad) ↦ rw (good, bad) refl
      | inl (event, named) ↦ elim (Bool-cases (text_eq event (str "executionReport"))) [
        | inl order ↦ rw (good, named, order) (logged-required u.has_order_callback _ _)
        | inr other ↦ elim (Bool-cases (text_eq event (str "outboundAccountPosition"))) [
          | inl account ↦
              rw (good, named, other, account) (logged-required u.has_account_callback _ _)
          | inr unknown ↦ rw (good, named, other, unknown) refl
        ]
      ]
    ]
  ]
