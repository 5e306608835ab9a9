-- ===== src/Rest/Trading.antt =====
-- src/rest/trading_client.cpp: orders.
pub mod Params
pub mod Async
use bintrade.Prelude.{
  ℕ, ℤ, pos, Bool, true, false, not, ◌||◌, List, [], Option, none, some, Text, str, if◌then◌else◌,
}
use bintrade.Core.Types.{
  Side, OrderType, limit, TimeInForce, gtc, side_to_string, order_type_to_string,
  time_in_force_to_string,
}
use bintrade.Models.{NewOrderRequest, CancelOrderRequest, Order}
use bintrade.Rest.Parse.{parse_response, collect}
use bintrade.Rest.Parse.Orders.{parse_order}
use bintrade.Rest.Client.{
  Platform, Act, ◌>>=◌, ◌>>◌, lift, return, signed_get, signed_post, signed_delete,
}

abbrev pub is_gtc : TimeInForce → Bool
is_gtc gtc = true
is_gtc _ = false

abbrev pub is_limit : OrderType → Bool
is_limit limit = true
is_limit _ = false

module _ (P : Platform) where
  open P use {json, map, int_text}
  open map use {Map, empty, assign}
  open json use {Double, to_string, items}

  -- `if (value.has_value()) params[key] = value.value();`
  pub assign_some : Text → Option Text → Map → Map
  assign_some key none params = params
  assign_some key (some value) params = assign params key value

  abbrev pub text_of : Option Double → Option Text
  text_of none = none
  text_of (some d) = some (to_string d)

  pub build_new_order_params : NewOrderRequest Double → Map
  unfolding assign_some
  build_new_order_params request =
      let named = assign empty (str "symbol") request.symbol in
      let sided = assign named (str "side") (side_to_string request.side) in
      let typed = assign sided (str "type") (order_type_to_string request.type) in
      let sized = assign typed (str "quantity") (to_string request.quantity) in
      let timed =
        if not (is_gtc request.time_in_force) || is_limit request.type
        then assign sized (str "timeInForce") (time_in_force_to_string request.time_in_force)
        else sized in
      let priced = assign_some (str "price") (text_of request.price) timed in
      let tagged = assign_some (str "newClientOrderId") request.client_order_id priced in
      assign_some (str "stopPrice") (text_of request.stop_price) tagged

  unfoldable pub build_cancel_params : CancelOrderRequest → Map
  unfolding assign_some
  build_cancel_params request =
      let named = assign empty (str "symbol") request.symbol in
      let numbered = assign_some (str "orderId") (id_text request.order_id) named in
      assign_some (str "origClientOrderId") request.client_order_id numbered
    where
      id_text : Option ℕ → Option Text
      id_text none = none
      id_text (some n) = some (int_text (pos n))

  -- `parse_response(200, body)` and then one order of the answer, or every order of a list.
  pub order_of : Text → Act (Order Double)
  unfolding ◌>>=◌
  order_of body = do j ← lift (parse_response json 200 body); lift (parse_order json j)

  pub orders_of : Text → Act (List (Order Double))
  unfolding ◌>>=◌
  orders_of body = do
    j ← lift (parse_response json 200 body)
    lift (collect (parse_order json) (items j))

  pub new_order : NewOrderRequest Double → Act (Order Double)
  unfolding ◌>>=◌
  new_order request = do
    body ← signed_post P (str "/api/v3/order") (build_new_order_params request)
    order_of body

  pub test_new_order : NewOrderRequest Double → Act (Unit {0})
  unfolding ◌>>=◌
  test_new_order request = do
    body ← signed_post P (str "/api/v3/order/test") (build_new_order_params request)
    return tt

  pub query_order : Text → ℕ → Act (Order Double)
  unfolding ◌>>=◌
  query_order symbol order_id = do
    body ←
        signed_get P (str "/api/v3/order")
          (assign (assign empty (str "symbol") symbol) (str "orderId") (int_text (pos order_id)))
    order_of body

  pub query_client_order : Text → Text → Act (Order Double)
  unfolding ◌>>=◌
  query_client_order symbol client_order_id = do
    body ←
        signed_get P (str "/api/v3/order")
          (assign (assign empty (str "symbol") symbol) (str "origClientOrderId") client_order_id)
    order_of body

  unfoldable pub cancel_order : CancelOrderRequest → Act (Order Double)
  unfolding ◌>>=◌ order_of
  cancel_order request = do
    body ← signed_delete P (str "/api/v3/order") (build_cancel_params request)
    order_of body

  pub cancel_all_orders : Text → Act (List (Order Double))
  unfolding ◌>>=◌
  cancel_all_orders symbol = do
    body ← signed_delete P (str "/api/v3/openOrders") (assign empty (str "symbol") symbol)
    orders_of body

  pub get_open_orders : Text → Act (List (Order Double))
  unfolding ◌>>=◌
  get_open_orders symbol = do
    body ← signed_get P (str "/api/v3/openOrders") (assign empty (str "symbol") symbol)
    orders_of body

  pub get_all_open_orders : Act (List (Order Double))
  unfolding ◌>>=◌
  get_all_open_orders = do body ← signed_get P (str "/api/v3/openOrders") empty; orders_of body

  -- `limit` is an `int`.
  pub get_all_orders : Text → ℤ → Act (List (Order Double))
  unfolding ◌>>=◌
  get_all_orders symbol count = do
    body ←
        signed_get P (str "/api/v3/allOrders")
          (assign (assign empty (str "symbol") symbol) (str "limit") (int_text count))
    orders_of body
