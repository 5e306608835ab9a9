-- ===== src/Rest/Parse/Orders.antt =====
-- Orders, balances and the trades of an account: src/rest/detail/json_parse.hpp.
use bintrade.Prelude.{pos, Bool, false, ◌||◌, List, [], ◌∷◌, str, if◌then◌else◌}
use bintrade.Core.Error.{Result, ok, ◌>>=◌}
use bintrade.Core.Types.{
  side_from_string, order_type_from_string, time_in_force_from_string, order_status_from_string,
}
use bintrade.Json.{JsonLib}
use bintrade.Models.{Balance, AccountInfo, Order, AccountTrade}
use bintrade.Rest.Parse.{number}

module _ (L : JsonLib) where
  open L use {
    Json, Double, contains, subscript, value_text, value_int, value_uint, value_bool, items,
    is_positive,
  }

  unfoldable pub parse_order : Json → Result (Order Double)
  unfolding number
  parse_order json = do
    symbol ← value_text json (str "symbol") []
    order_id ← value_uint json (str "orderId") 0
    client_order_id ← value_text json (str "clientOrderId") []
    price ← number L json (str "price")
    orig_qty ← number L json (str "origQty")
    executed_qty ← number L json (str "executedQty")
    cummulative_quote_qty ← number L json (str "cummulativeQuoteQty")
    status_text ← value_text json (str "status") (str "NEW")
    status ← order_status_from_string status_text
    type_text ← value_text json (str "type") (str "LIMIT")
    type ← order_type_from_string type_text
    side_text ← value_text json (str "side") (str "BUY")
    side ← side_from_string side_text
    tif_text ← value_text json (str "timeInForce") (str "GTC")
    tif ← time_in_force_from_string tif_text
    time ← value_int json (str "time") (pos 0)
    update_time ← value_int json (str "updateTime") (pos 0)
    ok (record {
      symbol = symbol;
      order_id = order_id;
      client_order_id = client_order_id;
      price = price;
      orig_qty = orig_qty;
      executed_qty = executed_qty;
      cummulative_quote_qty = cummulative_quote_qty;
      status = status;
      time_in_force = tif;
      type = type;
      side = side;
      time = time;
      update_time = update_time;
    })

  unfoldable pub parse_balance : Json → Result (Balance Double)
  unfolding number
  parse_balance json = do
    asset ← value_text json (str "asset") []
    free ← number L json (str "free")
    locked ← number L json (str "locked")
    ok (record { asset = asset; free = free; locked = locked })

  -- `balance.free > 0.0 || balance.locked > 0.0`
  abbrev pub is_held : Balance Double → Bool
  is_held balance = is_positive balance.free || is_positive balance.locked

  -- The loop over `json["balances"]`.
  unfoldable pub held_balances : List Json → Result (List (Balance Double))
  held_balances [] = ok []
  held_balances (b ∷ bs) = do
    balance ← parse_balance b
    rest ← held_balances bs
    ok (if is_held balance then balance ∷ rest else rest)

  unfoldable pub parse_account_info : Json → Result (AccountInfo Double)
  parse_account_info json = do
    can_trade ← value_bool json (str "canTrade") false
    can_withdraw ← value_bool json (str "canWithdraw") false
    can_deposit ← value_bool json (str "canDeposit") false
    account_type ← value_text json (str "accountType") []
    update_time ← value_int json (str "updateTime") (pos 0)
    balances_json ← subscript json (str "balances")
    balances ← held_balances (items balances_json)
    ok (record {
      can_trade = can_trade;
      can_withdraw = can_withdraw;
      can_deposit = can_deposit;
      update_time = update_time;
      account_type = account_type;
      balances = balances;
    })

  unfoldable pub parse_account_trade : Json → Result (AccountTrade Double)
  unfolding number
  parse_account_trade json = do
    symbol ← value_text json (str "symbol") []
    id ← value_uint json (str "id") 0
    order_id ← value_uint json (str "orderId") 0
    price ← number L json (str "price")
    qty ← number L json (str "qty")
    quote_qty ← number L json (str "quoteQty")
    commission ← number L json (str "commission")
    commission_asset ← value_text json (str "commissionAsset") []
    time ← value_int json (str "time") (pos 0)
    is_buyer ← value_bool json (str "isBuyer") false
    is_maker ← value_bool json (str "isMaker") false
    ok (record {
      symbol = symbol;
      id = id;
      order_id = order_id;
      price = price;
      qty = qty;
      quote_qty = quote_qty;
      commission = commission;
      commission_asset = commission_asset;
      time = time;
      is_buyer = is_buyer;
      is_maker = is_maker;
    })
