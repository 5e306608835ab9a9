-- ===== src/Ws/Typed.antt =====
-- include/bintrade/ws/typed_market_stream.hpp, typed_user_stream.hpp and handler_traits.hpp: the
-- streams that call the methods of a handler. A method that the handler's type lacks is `none`; what
-- a call hands to the user is a value of `E`.
pub mod Agree
use bintrade.Prelude.{
  ℕ, List, [], ◌∷◌, ◌++◌, Option, none, some, Text, str, text_eq, lower, if◌then◌else◌,
}
use bintrade.Core.Error.{logged, Result, ok, ◌>>=◌}
use bintrade.Json.{JsonLib}
use bintrade.Models.{Ticker, OrderBook, Kline, Trade, Order, AccountInfo}
use bintrade.Ws.Parse.{
  parse_trade_stream, parse_kline_stream, parse_ticker_stream, parse_depth_stream,
  parse_order_update, parse_account_update,
}
use bintrade.Ws.Socket.{Config, Socket}
use bintrade.Ws.Client
use bintrade.Ws.Client.{Client, set_message_callback}
use bintrade.Ws.Market.{inline_callback}

-- A method of a functional handler calls its `std::function` if there is one.
abbrev pub call_set : {M E : Type 0} → Option (M → List E) → M → List E
call_set none m = []
call_set (some fn) m = fn m

-- The market methods of a handler's type.
pub record MarketHandler (D E : Type 0) : Type 0 where
  pub on_trade : Option (Trade D → List E)
  pub on_kline : Option (Kline D → List E)
  pub on_ticker : Option (Ticker D → List E)
  pub on_order_book : Option (OrderBook D → List E)

pub record FunctionalMarketHandler (D E : Type 0) : Type 0 where
  pub on_trade_fn : Option (Trade D → List E)
  pub on_kline_fn : Option (Kline D → List E)
  pub on_ticker_fn : Option (Ticker D → List E)
  pub on_order_book_fn : Option (OrderBook D → List E)

-- `FunctionalMarketHandler` has every method.
pub functional_market : {D E : Type 0} → FunctionalMarketHandler D E → MarketHandler D E
functional_market h = record {
  on_trade = some (call_set h.on_trade_fn);
  on_kline = some (call_set h.on_kline_fn);
  on_ticker = some (call_set h.on_ticker_fn);
  on_order_book = some (call_set h.on_order_book_fn);
}

-- The user methods of a handler's type.
pub record UserHandler (D E : Type 0) : Type 0 where
  pub on_order_update : Option (Order D → List E)
  pub on_account_update : Option (AccountInfo D → List E)

pub record FunctionalUserHandler (D E : Type 0) : Type 0 where
  pub on_order_update_fn : Option (Order D → List E)
  pub on_account_update_fn : Option (AccountInfo D → List E)

pub functional_user : {D E : Type 0} → FunctionalUserHandler D E → UserHandler D E
functional_user h = record {
  on_order_update = some (call_set h.on_order_update_fn);
  on_account_update = some (call_set h.on_account_update_fn);
}

-- The state of a typed market stream besides its handler: its base. Its callback captures nothing
-- that it changes.
abbrev pub TypedMarketStream : Type 0 → Type 0
TypedMarketStream E = Client E (Unit {0})

module _ (L : JsonLib) {E : Type 0} where
  open L use {Json, Double, parse, value_text}

  -- `if constexpr (requires ...)`: without the method the model is not parsed.
  required : {M : Type 0} → Option (M → List E) → (Json → Result M) → Json → Result (List E)
  required none parse_model j = ok []
  required (some method) parse_model j = parse_model j >>= λ m. ok (method m)

  -- The message callback of a typed market stream. An exception is swallowed.
  typed_dispatch : {M : Type 0} → Text → (Json → Result M) → Option (M → List E) → Text → List E
  unfolding required
  typed_dispatch name parse_model method msg = logged (do
    j ← parse msg
    event ← value_text j (str "e") []
    if text_eq event name then required method parse_model j else ok [])

  module _ (cfg : Config) (int_text : ℕ → Text) where
    -- What the four methods share.
    typed_subscribe :
        Text
        → (Text → List E)
        → Option Text
        → TypedMarketStream E
        → Result (Unit {0}) × TypedMarketStream E
    unfolding Client.connect set_message_callback inline_callback
    typed_subscribe stream_name dispatch outcome s =
        Client.connect cfg int_text (str "/ws/" ++ stream_name) outcome
          (set_message_callback (inline_callback dispatch) s)

    module _ (h : MarketHandler Double E) where
      pub typed_subscribe_trades :
          Text → Option Text → TypedMarketStream E → Result (Unit {0}) × TypedMarketStream E
      unfolding typed_subscribe typed_dispatch
      typed_subscribe_trades symbol =
          typed_subscribe (lower symbol ++ str "@trade")
            (typed_dispatch (str "trade") (parse_trade_stream L) h.on_trade)

      pub typed_subscribe_klines :
          Text → Text → Option Text → TypedMarketStream E → Result (Unit {0}) × TypedMarketStream E
      unfolding typed_subscribe typed_dispatch
      typed_subscribe_klines symbol interval =
          typed_subscribe (lower symbol ++ (str "@kline_" ++ interval))
            (typed_dispatch (str "kline") (parse_kline_stream L) h.on_kline)

      pub typed_subscribe_ticker :
          Text → Option Text → TypedMarketStream E → Result (Unit {0}) × TypedMarketStream E
      unfolding typed_subscribe typed_dispatch
      typed_subscribe_ticker symbol =
          typed_subscribe (lower symbol ++ str "@ticker")
            (typed_dispatch (str "24hrTicker") (parse_ticker_stream L) h.on_ticker)

      pub typed_subscribe_depth :
          Text → Option Text → TypedMarketStream E → Result (Unit {0}) × TypedMarketStream E
      unfolding typed_subscribe typed_dispatch
      typed_subscribe_depth symbol =
          typed_subscribe (lower symbol ++ str "@depth")
            (typed_dispatch (str "depthUpdate") (parse_depth_stream L) h.on_order_book)

  -- `do_dispatch` of a typed user stream.
  typed_routed : UserHandler Double E → Json → Text → Result (List E)
  unfolding required
  typed_routed h j event_type =
      if text_eq event_type (str "executionReport")
      then required h.on_order_update (parse_order_update L) j
      else if text_eq event_type (str "outboundAccountPosition")
      then required h.on_account_update (parse_account_update L) j
      else ok []

  pub typed_do_dispatch : UserHandler Double E → Text → List E
  unfolding typed_routed
  typed_do_dispatch h raw_json =
      logged
        (do j ← parse raw_json; event_type ← value_text j (str "e") []; typed_routed h j event_type)
