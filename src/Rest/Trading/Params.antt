-- ===== src/Rest/Trading/Params.antt =====
-- What an order request carries.
use bintrade.Prelude.{
  ◌≡◌, ◌∙◌, refl, ap, Bool, true, false, not, ◌||◌, List, [], ◌++◌, ◌∷◌, Option, none, some, Text,
  str, lookup, if◌then◌else◌,
}
use bintrade.Core.Types.{
  OrderType, limit, market, stop_loss, stop_loss_limit, take_profit, take_profit_limit, limit_maker,
  TimeInForce, gtc, ioc, fok, side_to_string, order_type_to_string, time_in_force_to_string,
}
use bintrade.Models.{NewOrderRequest}
use bintrade.Rest.Client.{Platform}
use bintrade.Rest.Trading.{assign_some, text_of, build_new_order_params, is_gtc, is_limit}

module _ (P : Platform) where
  open P use {json, map}
  open map use {Map, empty, assign, entries, lookup-assign, lookup-empty}
  open json use {Double, to_string}

  -- A field that is there only with a value.
  abbrev pub optional : Text → Option Text → List (Text × Text)
  optional k none = []
  optional k (some v) = (k, v) ∷ []

  -- The time in force is left out where it is GTC, unless the order is a plain limit order.
  abbrev pub sent_time_in_force : OrderType → TimeInForce → Option Text
  sent_time_in_force type ioc = some (time_in_force_to_string ioc)
  sent_time_in_force type fok = some (time_in_force_to_string fok)
  sent_time_in_force limit gtc = some (time_in_force_to_string gtc)
  sent_time_in_force type gtc = none

  sent_time_in_force-eq :
      (type : OrderType) (t : TimeInForce)
      → (if not (is_gtc t) || is_limit type then some (time_in_force_to_string t) else none)
        ≡ sent_time_in_force type t
  sent_time_in_force-eq type ioc = refl
  sent_time_in_force-eq type fok = refl
  sent_time_in_force-eq limit gtc = refl
  sent_time_in_force-eq market gtc = refl
  sent_time_in_force-eq stop_loss gtc = refl
  sent_time_in_force-eq stop_loss_limit gtc = refl
  sent_time_in_force-eq take_profit gtc = refl
  sent_time_in_force-eq take_profit_limit gtc = refl
  sent_time_in_force-eq limit_maker gtc = refl

  -- The fields of a request, as the API names them.
  pub order_fields : NewOrderRequest Double → List (Text × Text)
  order_fields r =
      optional (str "stopPrice") (text_of P r.stop_price)
      ++ (optional (str "newClientOrderId") r.client_order_id
          ++ (optional (str "price") (text_of P r.price)
              ++ (optional (str "timeInForce") (sent_time_in_force r.type r.time_in_force)
                  ++ ((str "quantity", to_string r.quantity)
                      ∷ (str "type", order_type_to_string r.type)
                      ∷ (str "side", side_to_string r.side)
                      ∷ (str "symbol", r.symbol)
                      ∷ []))))

  lookup-assign_next :
      (k v : Text) (m : Map) (fields : List (Text × Text)) (key : Text)
      → lookup key (entries m) ≡ lookup key fields
      → lookup key (entries (assign m k v)) ≡ lookup key ((k, v) ∷ fields)
  unfolding lookup
  lookup-assign_next k v m fields key h = lookup-assign m k v key ∙ rw h refl

  lookup-assign_some :
      (k : Text) (v : Option Text) (m : Map) (fields : List (Text × Text)) (key : Text)
      → lookup key (entries m) ≡ lookup key fields
      → lookup key (entries (assign_some P k v m)) ≡ lookup key (optional k v ++ fields)
  unfolding assign_some
  lookup-assign_some k none m fields key h = h
  lookup-assign_some k (some v) m fields key h = lookup-assign_next k v m fields key h

  -- The four fields that are always sent, first as the code assigns them.
  sized : NewOrderRequest Double → Map
  sized r =
      assign
        (assign (assign (assign empty (str "symbol") r.symbol) (str "side") (side_to_string r.side))
          (str "type") (order_type_to_string r.type))
        (str "quantity") (to_string r.quantity)

  base : NewOrderRequest Double → List (Text × Text)
  base r =
      (str "quantity", to_string r.quantity)
      ∷ (str "type", order_type_to_string r.type)
      ∷ (str "side", side_to_string r.side)
      ∷ (str "symbol", r.symbol)
      ∷ []

  empty_lookup : (key : Text) → lookup key (entries empty) ≡ lookup key []
  unfolding lookup
  empty_lookup key = lookup-empty key

  lookup-sized :
      (r : NewOrderRequest Double) (key : Text)
      → lookup key (entries (sized r)) ≡ lookup key (base r)
  unfolding sized base
  lookup-sized r key = lookup-assign_next _ _ _ _ key (
      lookup-assign_next _ _ _ _ key
        (lookup-assign_next _ _ _ _ key (lookup-assign_next _ _ _ [] key (empty_lookup key))))

  timed_lookup :
      (r : NewOrderRequest Double) (key : Text) (sent : Bool)
      → lookup key (
          entries (
            if sent
            then assign (sized r) (str "timeInForce") (time_in_force_to_string r.time_in_force)
            else sized r))
        ≡ lookup key (
            optional
              (str "timeInForce")
              (if sent then some (time_in_force_to_string r.time_in_force) else none)
            ++ base r)
  timed_lookup r key true = lookup-assign_next _ _ _ _ key (lookup-sized r key)
  timed_lookup r key false = lookup-sized r key

  -- The parameters of a new order hold the fields of the request and nothing else, whatever order the
  -- map keeps them in: the four that are always sent, the time in force unless it is GTC on an order
  -- that is no plain limit order, and the price, client id and stop price that the request has.
  pub build_new_order_params-lookup :
      (r : NewOrderRequest Double) (key : Text)
      → lookup key (entries (build_new_order_params P r)) ≡ lookup key (order_fields r)
  unfolding build_new_order_params order_fields sized base
  build_new_order_params-lookup r key = lookup-assign_some _ (text_of P r.stop_price) _ _ key (
      lookup-assign_some _ r.client_order_id _ _ key (
        lookup-assign_some _ (text_of P r.price) _ _ key (
          timed_lookup r key (not (is_gtc r.time_in_force) || is_limit r.type)
          ∙ ap (λ t. lookup key (optional (str "timeInForce") t ++ base r))
              (sent_time_in_force-eq r.type r.time_in_force))))
