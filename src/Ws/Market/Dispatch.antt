-- ===== src/Ws/Market/Dispatch.antt =====
-- Which messages reach the callback of a public stream.
use bintrade.Prelude.{
  ℕ, Option, ◌≡◌, ◌↔◌, refl, ◌∙◌, ap, List, [], ◌∷◌, Text, str, text_eq, eq_of_text_eq,
  text_eq_refl, Bool-cases, inl, inr,
}
use bintrade.Core.Error.{logged, Result, ok, err, ◌>>=◌, >>=-eq-ok}
use bintrade.Json.{JsonLib}
use bintrade.Models.{Ticker, OrderBook, Kline, Trade}
use bintrade.Ws.Parse.{
  parse_trade_stream, parse_kline_stream, parse_ticker_stream, parse_depth_stream,
}
use bintrade.Ws.Socket.{Config, Socket}
use bintrade.Ws.Client
use bintrade.Ws.Client.{make_client, deliver_message, set_message_callback}
use bintrade.Ws.Market.{
  MarketStream, dispatch_fn, receive, subscribe, install_dispatch, connect_to, make_market_stream,
  inline_callback, subscribe_trades, subscribe_klines, subscribe_ticker, subscribe_depth,
}

logged-eq-cons {ℓ} :
    {A : Type ℓ} (r : Result (List A)) (x : A) (xs : List A) → logged r ≡ x ∷ xs → r ≡ ok (x ∷ xs)
logged-eq-cons (ok ys) x xs h = ap ok h
logged-eq-cons (err e) x xs h = cc

module _ (L : JsonLib) {M : Type 0} where
  open L use {Json, parse, value_text}

  -- A message that stands for a value: it is JSON, it names the event of the stream, and the parser of
  -- the stream reads the value.
  pub IsMessage : Text → (Json → Result M) → Text → M → Type 0
  IsMessage name parse_model msg m =
      (j : Json) × (parse msg ≡ ok j)
      × (value_text j (str "e") [] ≡ ok name)
      × (parse_model j ≡ ok m)

  read-eq-one : (r : Result M) (m : M) → (r >>= λ x. ok (x ∷ [])) ≡ ok (m ∷ []) → r ≡ ok m
  read-eq-one (ok x) m h = cc
  read-eq-one (err e) m h = cc

  dispatch_fn-eq-one :
      (name : Text) (parse_model : Json → Result M) (msg : Text) (m : M)
      → (dispatch_fn L name parse_model (λ x. x ∷ []) msg ≡ m ∷ [])
        ↔ IsMessage name parse_model msg m
  unfolding dispatch_fn IsMessage
  dispatch_fn-eq-one name parse_model msg m = (to, from)
    where
      to :
          dispatch_fn L name parse_model (λ x. x ∷ []) msg ≡ m ∷ []
          → IsMessage name parse_model msg m
      to h =
          let (j, a, called) = >>=-eq-ok (parse msg) _ (logged-eq-cons _ m [] h) in
          let (event, b, taken) = >>=-eq-ok (value_text j (str "e") []) _ called in
          elim (Bool-cases (text_eq event name)) [
            | inl same ↦ (
              j,
              a,
              b ∙ ap ok (eq_of_text_eq event name same),
              read-eq-one (parse_model j) m (rw same at taken),
            )
            | inr other ↦ cc (rw other at taken)
          ]

      from :
          IsMessage name parse_model msg m
          → dispatch_fn L name parse_model (λ x. x ∷ []) msg ≡ m ∷ []
      from (j, a, b, c) = rw (a, b, text_eq_refl name, c) refl

  -- What a stream hands to its callback when it receives this message.
  abbrev pub delivered : Text → MarketStream M → List M
  delivered msg s = (receive msg s).0

  receive-subscribe :
      (cfg : Config) (int_text : ℕ → Text) (name msg : Text) (dispatch : Text → List M)
      (outcome : Option Text) (ws : Socket)
      → delivered msg (subscribe cfg int_text name dispatch outcome (make_market_stream ws)).1
        ≡ dispatch msg
  unfolding receive deliver_message subscribe install_dispatch connect_to Client.connect
      set_message_callback make_market_stream make_client inline_callback
  receive-subscribe cfg int_text name msg dispatch outcome ws = refl

-- A new stream of each kind, in the mode that it has without a choice, on any symbol and whatever the
-- outcome of its connection, calls its callback for a message once and with a value exactly if the
-- message is JSON, its "e" is "trade", "kline", "24hrTicker" or "depthUpdate" respectively, and the
-- parser for that event reads this value from it.
pub receive-subscribe_all :
    (L : JsonLib) (cfg : Config) (int_text : ℕ → Text) (symbol interval msg : Text)
    (outcome : Option Text) (ws : Socket)
    → ((m : Trade L.Double)
        → (delivered L msg
              (subscribe_trades L cfg int_text symbol
                (λ x. x ∷ [])
                outcome
                (make_market_stream ws)).1
            ≡ m ∷ [])
          ↔ IsMessage L (str "trade") (parse_trade_stream L) msg m)
      × ((m : Kline L.Double)
          → (delivered L msg
                (subscribe_klines L cfg int_text symbol interval
                  (λ x. x ∷ [])
                  outcome
                  (make_market_stream ws)).1
              ≡ m ∷ [])
            ↔ IsMessage L (str "kline") (parse_kline_stream L) msg m)
      × ((m : Ticker L.Double)
          → (delivered L msg
                (subscribe_ticker L cfg int_text symbol
                  (λ x. x ∷ [])
                  outcome
                  (make_market_stream ws)).1
              ≡ m ∷ [])
            ↔ IsMessage L (str "24hrTicker") (parse_ticker_stream L) msg m)
      × ((m : OrderBook L.Double)
          → (delivered L msg
                (subscribe_depth L cfg int_text symbol
                  (λ x. x ∷ [])
                  outcome
                  (make_market_stream ws)).1
              ≡ m ∷ [])
            ↔ IsMessage L (str "depthUpdate") (parse_depth_stream L) msg m)
unfolding subscribe_trades subscribe_klines subscribe_ticker subscribe_depth
receive-subscribe_all L cfg int_text symbol interval msg outcome ws = (
  λ m. rw (receive-subscribe L cfg int_text _ msg _ outcome ws) (dispatch_fn-eq-one L _ _ msg m),
  λ m. rw (receive-subscribe L cfg int_text _ msg _ outcome ws) (dispatch_fn-eq-one L _ _ msg m),
  λ m. rw (receive-subscribe L cfg int_text _ msg _ outcome ws) (dispatch_fn-eq-one L _ _ msg m),
  λ m. rw (receive-subscribe L cfg int_text _ msg _ outcome ws) (dispatch_fn-eq-one L _ _ msg m),
)
