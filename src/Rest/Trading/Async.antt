-- ===== src/Rest/Trading/Async.antt =====
-- The coroutines of src/rest/trading_client.cpp, and that they do what the blocking calls do.
use bintrade.Prelude.{ℕ, ℤ, pos, ◌≡◌, List, Text, str}
use bintrade.Core.Error.{Result, ok, bound}
use bintrade.Models.{NewOrderRequest, CancelOrderRequest, Order}
use bintrade.Rest.Parse.{parse_response, collect}
use bintrade.Rest.Parse.Orders.{parse_order}
use bintrade.Rest.Client.{Platform, Client, ◌>>=◌, signed_post}
use bintrade.Rest.Client.Async.{Coroutine, co_await}
use bintrade.Rest.Client.Async.Calls.{async_signed_get, async_signed_post, async_signed_delete}
use bintrade.Rest.Client.Async.Blocking.{
  signed_get-parsed, signed_post-parsed, signed_delete-parsed, run_blocking, run_blocking-awaited,
  signed_post-blocking,
}
use bintrade.Rest.Trading.{
  build_new_order_params, build_cancel_params, order_of, orders_of, new_order, test_new_order,
  query_order, query_client_order, cancel_order, cancel_all_orders, get_open_orders,
  get_all_open_orders, get_all_orders,
}

module _ (P : Platform) where
  open P use {json, map, int_text}
  open map use {Map, empty, assign}
  open json use {Double, items}

  -- What runs behind `co_await`: `parse_response(200, body)`, and then one order or every order.
  pub read_order : Text → Result (Order Double)
  read_order body = bound (parse_response json 200 body) (parse_order json)

  pub read_orders : Text → Result (List (Order Double))
  read_orders body =
      bound (parse_response json 200 body) (λ j. collect (parse_order json) (items j))

  pub async_new_order : NewOrderRequest Double → Coroutine (Order Double)
  unfolding read_order
  async_new_order request =
      co_await (async_signed_post P (str "/api/v3/order") (build_new_order_params P request))
        read_order

  pub async_query_order : Text → ℕ → Coroutine (Order Double)
  unfolding read_order
  async_query_order symbol order_id =
      co_await
        (async_signed_get P (str "/api/v3/order")
          (assign (assign empty (str "symbol") symbol) (str "orderId") (int_text (pos order_id))))
        read_order

  pub async_query_order_by_client_id : Text → Text → Coroutine (Order Double)
  unfolding read_order
  async_query_order_by_client_id symbol client_order_id =
      co_await
        (async_signed_get P (str "/api/v3/order")
          (assign (assign empty (str "symbol") symbol) (str "origClientOrderId") client_order_id))
        read_order

  pub async_cancel_order : CancelOrderRequest → Coroutine (Order Double)
  unfolding read_order
  async_cancel_order request =
      co_await (async_signed_delete P (str "/api/v3/order") (build_cancel_params P request))
        read_order

  pub async_cancel_all_orders : Text → Coroutine (List (Order Double))
  unfolding read_orders
  async_cancel_all_orders symbol =
      co_await
        (async_signed_delete P (str "/api/v3/openOrders") (assign empty (str "symbol") symbol))
        read_orders

  pub async_get_open_orders : Text → Coroutine (List (Order Double))
  unfolding read_orders
  async_get_open_orders symbol =
      co_await (async_signed_get P (str "/api/v3/openOrders") (assign empty (str "symbol") symbol))
        read_orders

  pub async_get_all_open_orders : Coroutine (List (Order Double))
  unfolding read_orders
  async_get_all_open_orders =
      co_await (async_signed_get P (str "/api/v3/openOrders") empty) read_orders

  pub async_get_all_orders : Text → ℤ → Coroutine (List (Order Double))
  unfolding read_orders
  async_get_all_orders symbol count =
      co_await
        (async_signed_get P (str "/api/v3/allOrders")
          (assign (assign empty (str "symbol") symbol) (str "limit") (int_text count)))
        read_orders

  pub async_test_new_order : NewOrderRequest Double → Coroutine (Unit {0})
  async_test_new_order request =
      co_await (async_signed_post P (str "/api/v3/order/test") (build_new_order_params P request))
        (λ body. ok tt)

  -- Where nothing runs during the wait, the coroutines of the trading client that send an order
  -- request give the result and leave the client behind that the blocking calls do.
  pub run_blocking-order :
      (request : NewOrderRequest Double) (cancelled : CancelOrderRequest) (symbol client_id : Text)
      (order_id : ℕ) (c : Client)
      → (run_blocking P (async_new_order request) c ≡ new_order P request c)
        × (run_blocking P (async_test_new_order request) c ≡ test_new_order P request c)
        × (run_blocking P (async_query_order symbol order_id) c ≡ query_order P symbol order_id c)
        × (run_blocking P (async_query_order_by_client_id symbol client_id) c
            ≡ query_client_order P symbol client_id c)
        × (run_blocking P (async_cancel_order cancelled) c ≡ cancel_order P cancelled c)
  unfolding async_new_order async_test_new_order async_query_order async_query_order_by_client_id
      async_cancel_order new_order test_new_order query_order query_client_order cancel_order
      order_of read_order ◌>>=◌
  run_blocking-order request cancelled symbol client_id order_id c = (
    signed_post-parsed P (str "/api/v3/order") _ (parse_order json) c,
    run_blocking-awaited P _
        (signed_post P (str "/api/v3/order/test") (build_new_order_params P request))
        (λ body. ok tt) c
        (signed_post-blocking P (str "/api/v3/order/test") (build_new_order_params P request) c),
    signed_get-parsed P (str "/api/v3/order") _ (parse_order json) c,
    signed_get-parsed P (str "/api/v3/order") _ (parse_order json) c,
    signed_delete-parsed P (str "/api/v3/order") _ (parse_order json) c,
  )

  -- The same for the coroutines that answer with a list of orders.
  pub run_blocking-orders :
      (symbol : Text) (count : ℤ) (c : Client)
      → (run_blocking P (async_cancel_all_orders symbol) c ≡ cancel_all_orders P symbol c)
        × (run_blocking P (async_get_open_orders symbol) c ≡ get_open_orders P symbol c)
        × (run_blocking P async_get_all_open_orders c ≡ get_all_open_orders P c)
        × (run_blocking P (async_get_all_orders symbol count) c ≡ get_all_orders P symbol count c)
  unfolding async_cancel_all_orders async_get_open_orders async_get_all_open_orders
      async_get_all_orders cancel_all_orders get_open_orders get_all_open_orders get_all_orders
      orders_of read_orders ◌>>=◌
  run_blocking-orders symbol count c = (
    signed_delete-parsed P (str "/api/v3/openOrders") _ (λ j. collect (parse_order json) (items j))
        c,
    signed_get-parsed P (str "/api/v3/openOrders") _ (λ j. collect (parse_order json) (items j)) c,
    signed_get-parsed P (str "/api/v3/openOrders") _ (λ j. collect (parse_order json) (items j)) c,
    signed_get-parsed P (str "/api/v3/allOrders") _ (λ j. collect (parse_order json) (items j)) c,
  )
