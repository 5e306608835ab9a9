-- ===== src/Models.antt =====
-- include/bintrade/models: the values that the clients and the streams hand to their callers. `D` is
-- `double`. A `Timestamp` is its count of milliseconds since the epoch.
use bintrade.Prelude.{ℕ, ℤ, Bool, List, Option, Text}
use bintrade.Core.Types.{Side, OrderType, TimeInForce, OrderStatus}

pub record Balance {ℓ} (D : Type ℓ) : Type ℓ where
  pub asset : Text
  pub free : D
  pub locked : D

pub record AccountInfo {ℓ} (D : Type ℓ) : Type ℓ where
  pub can_trade : Bool
  pub can_withdraw : Bool
  pub can_deposit : Bool
  pub update_time : ℤ
  pub account_type : Text
  pub balances : List (Balance D)

pub record Ticker {ℓ} (D : Type ℓ) : Type ℓ where
  pub symbol : Text
  pub price : D
  pub time : ℤ

pub record Ticker24h {ℓ} (D : Type ℓ) : Type ℓ where
  pub symbol : Text
  pub open_price : D
  pub high : D
  pub low : D
  pub close : D
  pub volume : D
  pub quote_volume : D
  pub open_time : ℤ
  pub close_time : ℤ
  pub num_trades : ℕ
  pub price_change : D
  pub price_change_percent : D

pub record OrderBookEntry {ℓ} (D : Type ℓ) : Type ℓ where
  pub price : D
  pub quantity : D

pub record OrderBook {ℓ} (D : Type ℓ) : Type ℓ where
  pub symbol : Text
  pub last_update_id : ℕ
  pub bids : List (OrderBookEntry D)
  pub asks : List (OrderBookEntry D)

pub record Kline {ℓ} (D : Type ℓ) : Type ℓ where
  pub open_time : ℤ
  pub open_price : D
  pub high : D
  pub low : D
  pub close : D
  pub volume : D
  pub close_time : ℤ
  pub quote_volume : D
  pub num_trades : ℕ

pub record NewOrderRequest {ℓ} (D : Type ℓ) : Type ℓ where
  pub symbol : Text
  pub side : Side
  pub type : OrderType
  pub time_in_force : TimeInForce
  pub quantity : D
  pub price : Option D
  pub client_order_id : Option Text
  pub stop_price : Option D

pub record Order {ℓ} (D : Type ℓ) : Type ℓ where
  pub symbol : Text
  pub order_id : ℕ
  pub client_order_id : Text
  pub price : D
  pub orig_qty : D
  pub executed_qty : D
  pub cummulative_quote_qty : D
  pub status : OrderStatus
  pub time_in_force : TimeInForce
  pub type : OrderType
  pub side : Side
  pub time : ℤ
  pub update_time : ℤ

pub record CancelOrderRequest : Type 0 where
  pub symbol : Text
  pub order_id : Option ℕ
  pub client_order_id : Option Text

-- `order_id` keeps its default 0 where a parser does not set it.
pub record Trade {ℓ} (D : Type ℓ) : Type ℓ where
  pub id : ℕ
  pub order_id : ℕ
  pub price : D
  pub qty : D
  pub quote_qty : D
  pub time : ℤ
  pub is_buyer : Bool
  pub is_maker : Bool

pub record AccountTrade {ℓ} (D : Type ℓ) : Type ℓ where
  pub symbol : Text
  pub id : ℕ
  pub order_id : ℕ
  pub price : D
  pub qty : D
  pub quote_qty : D
  pub commission : D
  pub commission_asset : Text
  pub time : ℤ
  pub is_buyer : Bool
  pub is_maker : Bool
