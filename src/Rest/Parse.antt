-- ===== src/Rest/Parse.antt =====
-- src/rest/detail/json_parse.hpp: the response check, and the models out of Binance's REST JSON.
pub mod Errors
pub mod Facts
pub mod Orders
use bintrade.Prelude.{
  ℕ, ℤ, pos, ◌≤◌, Bool, true, false, ◌&&◌, ◌||◌, List, [], ◌∷◌, Text, str, leb, if◌then◌else◌,
}
use bintrade.Core.Error.{Result, ok, err, api_exception, ◌>>=◌, ◌>>◌}
use bintrade.Core.Types.{
  side_from_string, order_type_from_string, time_in_force_from_string, order_status_from_string,
}
use bintrade.Json.{JsonLib}
use bintrade.Models.{
  Balance, AccountInfo, Ticker, Ticker24h, OrderBookEntry, OrderBook, Kline, Order, Trade,
  AccountTrade,
}

-- `for (const auto& item : json) out.push_back(parse(item));`
pub collect {ℓ κ} : {A : Type ℓ} {B : Type κ} → (A → Result B) → List A → Result (List B)
collect parse [] = ok []
collect parse (x ∷ xs) = do y ← parse x; ys ← collect parse xs; ok (y ∷ ys)

module _ (L : JsonLib) where
  open L use {
    Json, Double, parse, null_json, contains, subscript, element, value_text, value_int, value_uint,
    value_bool, get_text, get_int, get_uint, items, stod, is_positive,
  }

  -- A value that is read as text and then as a number.
  unfoldable pub number : Json → Text → Result Double
  number json key = do text ← value_text json key (str "0"); stod text

  -- `throw ApiException(json["code"].get<int>(), json["msg"].get<std::string>());`
  pub throw_api_error : Json → Result (Unit {0})
  throw_api_error json = do
    code_json ← subscript json (str "code")
    code ← get_int code_json
    msg_json ← subscript json (str "msg")
    msg ← get_text msg_json
    err (api_exception code msg)

  pub check_api_error : ℕ → Json → Result (Unit {0})
  check_api_error status_code json =
      if leb 400 status_code && (contains json (str "code") && contains json (str "msg"))
      then throw_api_error json
      else ok tt

  unfoldable pub parse_response : ℕ → Text → Result Json
  unfolding check_api_error
  parse_response status_code [] =
      if leb 400 status_code
      then err (api_exception (pos status_code) (str "Empty error response"))
      else ok null_json
  parse_response status_code (b ∷ body) = do
    json ← parse (b ∷ body)
    check_api_error status_code json
    ok json

  pub parse_ticker : Json → Result (Ticker Double)
  unfolding number
  parse_ticker json = do
    symbol ← value_text json (str "symbol") []
    price ← number json (str "price")
    ok (record { symbol = symbol; price = price; time = pos 0 })

  pub parse_ticker_24h : Json → Result (Ticker24h Double)
  unfolding number
  parse_ticker_24h json = do
    symbol ← value_text json (str "symbol") []
    price_change ← number json (str "priceChange")
    price_change_percent ← number json (str "priceChangePercent")
    open_price ← number json (str "openPrice")
    high ← number json (str "highPrice")
    low ← number json (str "lowPrice")
    close ← number json (str "lastPrice")
    volume ← number json (str "volume")
    quote_volume ← number json (str "quoteVolume")
    open_time ← value_int json (str "openTime") (pos 0)
    close_time ← value_int json (str "closeTime") (pos 0)
    num_trades ← value_uint json (str "count") 0
    ok (record {
      symbol = symbol;
      open_price = open_price;
      high = high;
      low = low;
      close = close;
      volume = volume;
      quote_volume = quote_volume;
      open_time = open_time;
      close_time = close_time;
      num_trades = num_trades;
      price_change = price_change;
      price_change_percent = price_change_percent;
    })

  -- `std::stod(json[i].get<std::string>())`
  pub number_at : Json → ℕ → Result Double
  number_at json i = do item ← element json i; text ← get_text item; stod text

  pub int_at : Json → ℕ → Result ℤ
  int_at json i = do item ← element json i; get_int item

  pub parse_order_book_entry : Json → Result (OrderBookEntry Double)
  unfolding number_at
  parse_order_book_entry json = do
    price ← number_at json 0
    quantity ← number_at json 1
    ok (record { price = price; quantity = quantity })

  pub parse_order_book : Json → Text → Result (OrderBook Double)
  parse_order_book json symbol = do
    last_update_id ← value_uint json (str "lastUpdateId") 0
    bids_json ← subscript json (str "bids")
    bids ← collect parse_order_book_entry (items bids_json)
    asks_json ← subscript json (str "asks")
    asks ← collect parse_order_book_entry (items asks_json)
    ok (record { symbol = symbol; last_update_id = last_update_id; bids = bids; asks = asks })

  pub parse_trade : Json → Result (Trade Double)
  unfolding number
  parse_trade json = do
    id ← value_uint json (str "id") 0
    price ← number json (str "price")
    qty ← number json (str "qty")
    quote_qty ← number json (str "quoteQty")
    time ← value_int json (str "time") (pos 0)
    is_buyer ← value_bool json (str "isBuyerMaker") false
    is_maker ← value_bool json (str "isBuyerMaker") false
    ok (record {
      id = id;
      order_id = 0;
      price = price;
      qty = qty;
      quote_qty = quote_qty;
      time = time;
      is_buyer = is_buyer;
      is_maker = is_maker;
    })

  pub parse_kline : Json → Result (Kline Double)
  unfolding number_at int_at
  parse_kline json = do
    open_time ← int_at json 0
    open_price ← number_at json 1
    high ← number_at json 2
    low ← number_at json 3
    close ← number_at json 4
    volume ← number_at json 5
    close_time ← int_at json 6
    quote_volume ← number_at json 7
    trades_json ← element json 8
    num_trades ← get_uint trades_json
    ok (record {
      open_time = open_time;
      open_price = open_price;
      high = high;
      low = low;
      close = close;
      volume = volume;
      close_time = close_time;
      quote_volume = quote_volume;
      num_trades = num_trades;
    })
