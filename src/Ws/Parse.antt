-- ===== src/Ws/Parse.antt =====
-- include/bintrade/ws/detail/ws_parse.hpp: the models out of the messages of the streams.
pub mod Facts
use bintrade.Prelude.{ℕ, ℤ, pos, Bool, true, false, not, List, [], ◌∷◌, Text, str, if◌then◌else◌}
use bintrade.Core.Error.{Result, ok, err, ◌>>=◌}
use bintrade.Core.Types.{
  side_from_string, order_type_from_string, time_in_force_from_string, order_status_from_string,
}
use bintrade.Json.{JsonLib}
use bintrade.Models.{Balance, AccountInfo, Ticker, OrderBookEntry, OrderBook, Kline, Order, Trade}
use bintrade.Rest.Parse.{collect, number, number_at}

module _ (L : JsonLib) where
  open L use {
    Json, Double, contains, subscript, at, value_text, value_int, value_uint, value_bool, items,
    multiply,
  }

  unfoldable pub parse_trade_stream : Json → Result (Trade Double)
  parse_trade_stream j = do
    id ← value_uint j (str "t") 0
    price ← number L j (str "p")
    qty ← number L j (str "q")
    time ← value_int j (str "T") (pos 0)
    is_maker ← value_bool j (str "m") false
    ok (record {
      id = id;
      order_id = 0;
      price = price;
      qty = qty;
      quote_qty = multiply price qty;
      time = time;
      is_buyer = not is_maker;
      is_maker = is_maker;
    })

  pub parse_kline_stream : Json → Result (Kline Double)
  parse_kline_stream j = do
    k ← at j (str "k")
    open_time ← value_int k (str "t") (pos 0)
    close_time ← value_int k (str "T") (pos 0)
    open_price ← number L k (str "o")
    high ← number L k (str "h")
    low ← number L k (str "l")
    close ← number L k (str "c")
    volume ← number L k (str "v")
    quote_volume ← number L k (str "q")
    num_trades ← value_uint k (str "n") 0
    ok (record {
      open_time = open_time;
      open_price = open_price;
      high = high;
      low = low;
      close = close;
      volume = volume;
      close_time = close_time;
      quote_volume = quote_volume;
      num_trades = num_trades;
    })

  pub parse_ticker_stream : Json → Result (Ticker Double)
  parse_ticker_stream j = do
    symbol ← value_text j (str "s") []
    price ← number L j (str "c")
    time ← value_int j (str "E") (pos 0)
    ok (record { symbol = symbol; price = price; time = time })

  pub parse_level : Json → Result (OrderBookEntry Double)
  parse_level level = do
    price ← number_at L level 0
    quantity ← number_at L level 1
    ok (record { price = price; quantity = quantity })

  -- `if (j.contains(key)) for (const auto& x : j[key]) out.push_back(parse(x));`
  pub collect_at {ℓ} : {A : Type ℓ} → (Json → Result A) → Json → Text → Result (List A)
  collect_at parse j key =
      if contains j key then (do xs ← subscript j key; collect parse (items xs)) else ok []

  pub parse_depth_stream : Json → Result (OrderBook Double)
  unfolding collect_at parse_level
  parse_depth_stream j = do
    symbol ← value_text j (str "s") []
    last_update_id ← value_uint j (str "u") 0
    bids ← collect_at parse_level j (str "b")
    asks ← collect_at parse_level j (str "a")
    ok (record { symbol = symbol; last_update_id = last_update_id; bids = bids; asks = asks })

  unfoldable pub parse_order_update : Json → Result (Order Double)
  parse_order_update j = do
    symbol ← value_text j (str "s") []
    order_id ← value_uint j (str "i") 0
    client_order_id ← value_text j (str "c") []
    side_text ← value_text j (str "S") (str "BUY")
    side ← side_from_string side_text
    type_text ← value_text j (str "o") (str "LIMIT")
    type ← order_type_from_string type_text
    tif_text ← value_text j (str "f") (str "GTC")
    tif ← time_in_force_from_string tif_text
    orig_qty ← number L j (str "q")
    price ← number L j (str "p")
    executed_qty ← number L j (str "z")
    cummulative_quote_qty ← number L j (str "Z")
    status_text ← value_text j (str "X") (str "NEW")
    status ← order_status_from_string status_text
    time ← value_int j (str "O") (pos 0)
    update_time ← value_int j (str "T") (pos 0)
    ok (record {
      symbol = symbol;
      order_id = order_id;
      client_order_id = client_order_id;
      price = price;
      orig_qty = orig_qty;
      executed_qty = executed_qty;
      cummulative_quote_qty = cummulative_quote_qty;
      status = status;
      time_in_force = tif;
      type = type;
      side = side;
      time = time;
      update_time = update_time;
    })

  pub parse_update_balance : Json → Result (Balance Double)
  parse_update_balance b = do
    asset ← value_text b (str "a") []
    free ← number L b (str "f")
    locked ← number L b (str "l")
    ok (record { asset = asset; free = free; locked = locked })

  -- The fields that the message does not give keep their defaults.
  pub parse_account_update : Json → Result (AccountInfo Double)
  unfolding collect_at parse_update_balance
  parse_account_update j = do
    update_time ← value_int j (str "u") (pos 0)
    balances ← collect_at parse_update_balance j (str "B")
    ok (record {
      can_trade = false;
      can_withdraw = false;
      can_deposit = false;
      update_time = update_time;
      account_type = [];
      balances = balances;
    })
