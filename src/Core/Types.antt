-- ===== src/Core/Types.antt =====
-- include/bintrade/core/types.hpp and src/core/types.cpp: the enumerations of orders and their
-- wire names. `to_string` is total on a value of the enumeration, so its last line is not reached.
pub mod WireNames
use bintrade.Prelude.{Text, str, text_eq, if◌then◌else◌, ◌++◌}
use bintrade.Core.Error.{Result, ok, err, invalid_argument}

pub data Side : Type 0 where
  buy sell : Side

pub data OrderType : Type 0 where
  limit market stop_loss stop_loss_limit take_profit take_profit_limit limit_maker : OrderType

pub data TimeInForce : Type 0 where
  gtc ioc fok : TimeInForce

pub data OrderStatus : Type 0 where
  new partially_filled filled canceled pending_cancel rejected expired : OrderStatus

pub side_to_string : Side → Text
side_to_string buy = str "BUY"
side_to_string sell = str "SELL"

pub order_type_to_string : OrderType → Text
order_type_to_string limit = str "LIMIT"
order_type_to_string market = str "MARKET"
order_type_to_string stop_loss = str "STOP_LOSS"
order_type_to_string stop_loss_limit = str "STOP_LOSS_LIMIT"
order_type_to_string take_profit = str "TAKE_PROFIT"
order_type_to_string take_profit_limit = str "TAKE_PROFIT_LIMIT"
order_type_to_string limit_maker = str "LIMIT_MAKER"

pub time_in_force_to_string : TimeInForce → Text
time_in_force_to_string gtc = str "GTC"
time_in_force_to_string ioc = str "IOC"
time_in_force_to_string fok = str "FOK"

pub order_status_to_string : OrderStatus → Text
order_status_to_string new = str "NEW"
order_status_to_string partially_filled = str "PARTIALLY_FILLED"
order_status_to_string filled = str "FILLED"
order_status_to_string canceled = str "CANCELED"
order_status_to_string pending_cancel = str "PENDING_CANCEL"
order_status_to_string rejected = str "REJECTED"
order_status_to_string expired = str "EXPIRED"

unfoldable pub side_from_string : Text → Result Side
side_from_string s =
    if text_eq s (str "BUY")
    then ok buy
    else if text_eq s (str "SELL")
    then ok sell
    else err (invalid_argument (str "Unknown side: " ++ s))

unfoldable pub order_type_from_string : Text → Result OrderType
order_type_from_string s =
    if text_eq s (str "LIMIT")
    then ok limit
    else if text_eq s (str "MARKET")
    then ok market
    else if text_eq s (str "STOP_LOSS")
    then ok stop_loss
    else if text_eq s (str "STOP_LOSS_LIMIT")
    then ok stop_loss_limit
    else if text_eq s (str "TAKE_PROFIT")
    then ok take_profit
    else if text_eq s (str "TAKE_PROFIT_LIMIT")
    then ok take_profit_limit
    else if text_eq s (str "LIMIT_MAKER")
    then ok limit_maker
    else err (invalid_argument (str "Unknown order type: " ++ s))

unfoldable pub time_in_force_from_string : Text → Result TimeInForce
time_in_force_from_string s =
    if text_eq s (str "GTC")
    then ok gtc
    else if text_eq s (str "IOC")
    then ok ioc
    else if text_eq s (str "FOK")
    then ok fok
    else err (invalid_argument (str "Unknown time in force: " ++ s))

unfoldable pub order_status_from_string : Text → Result OrderStatus
order_status_from_string s =
    if text_eq s (str "NEW")
    then ok new
    else if text_eq s (str "PARTIALLY_FILLED")
    then ok partially_filled
    else if text_eq s (str "FILLED")
    then ok filled
    else if text_eq s (str "CANCELED")
    then ok canceled
    else if text_eq s (str "PENDING_CANCEL")
    then ok pending_cancel
    else if text_eq s (str "REJECTED")
    then ok rejected
    else if text_eq s (str "EXPIRED")
    then ok expired
    else err (invalid_argument (str "Unknown order status: " ++ s))
