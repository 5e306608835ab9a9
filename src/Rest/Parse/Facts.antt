-- ===== src/Rest/Parse/Facts.antt =====
-- What the parsed models say of the JSON that they came from.
use bintrade.Prelude.{◌≡◌, ◌∙◌, refl, ap, pos, List, [], ◌∷◌, str, if◌then◌else◌, arith}
use bintrade.Core.Error.{ok, ◌>>=◌, Ensures-ok, >>=-Ensures}
use bintrade.Core.Types.{
  side_to_string, order_type_to_string, time_in_force_to_string, order_status_to_string,
  side_from_string, order_type_from_string, time_in_force_from_string, order_status_from_string,
}
use bintrade.Core.Types.WireNames.{
  side_sound, order_type_sound, time_in_force_sound, order_status_sound,
}
use bintrade.Json.{JsonLib}
use bintrade.Models.{Order, Balance}
use bintrade.Rest.Parse.{number, collect}
use bintrade.Rest.Parse.Orders.{parse_order, parse_balance, is_held, held_balances}

module _ (L : JsonLib) where
  open L use {Json, Double, value_text, value_uint, value_int}

  -- The enumerations of an order are those that its JSON names.
  abbrev pub IsNamed : Json → Order Double → Type 0
  IsNamed j o =
      (value_text j (str "side") (str "BUY") ≡ ok (side_to_string o.side))
      × (value_text j (str "type") (str "LIMIT") ≡ ok (order_type_to_string o.type))
      × (value_text j (str "timeInForce") (str "GTC")
          ≡ ok (time_in_force_to_string o.time_in_force))
      × (value_text j (str "status") (str "NEW") ≡ ok (order_status_to_string o.status))

  -- The side, type, time in force and status of a parsed order are those whose wire names its JSON
  -- holds, or the defaults of the absent ones; any other name makes the parser throw.
  pub parse_order-eq-ok : (j : Json) (o : Order Double) → parse_order L j ≡ ok o → IsNamed j o
  unfolding parse_order
  parse_order-eq-ok j o e =
      Ensures-ok (IsNamed j)
        (>>=-Ensures (IsNamed j) (value_text j (str "symbol") []) _ λ symbol _.
          >>=-Ensures (IsNamed j) (value_uint j (str "orderId") 0) _ λ order_id _.
            >>=-Ensures (IsNamed j) (value_text j (str "clientOrderId") []) _ λ client _.
              >>=-Ensures (IsNamed j) (number L j (str "price")) _ λ price _.
                >>=-Ensures (IsNamed j) (number L j (str "origQty")) _ λ orig_qty _.
                  >>=-Ensures (IsNamed j) (number L j (str "executedQty")) _ λ executed_qty _.
                    >>=-Ensures (IsNamed j) (number L j (str "cummulativeQuoteQty")) _
                      λ quote_qty _.
                        >>=-Ensures (IsNamed j) (value_text j (str "status") (str "NEW")) _
                          λ status_text h.
                            >>=-Ensures (IsNamed j) (order_status_from_string status_text) _
                              λ status i.
                                >>=-Ensures (IsNamed j) (value_text j (str "type") (str "LIMIT")) _
                                  λ type_text c.
                                    >>=-Ensures (IsNamed j) (order_type_from_string type_text) _
                                      λ type d.
                                        >>=-Ensures (IsNamed j)
                                          (value_text j (str "side") (str "BUY")) _
                                          λ side_text a.
                                            >>=-Ensures (IsNamed j) (side_from_string side_text) _
                                              λ side b.
                                                >>=-Ensures (IsNamed j)
                                                  (value_text j (str "timeInForce") (str "GTC")) _
                                                  λ tif_text f.
                                                    >>=-Ensures (IsNamed j)
                                                      (time_in_force_from_string tif_text) _
                                                      λ tif g.
                                                        >>=-Ensures (IsNamed j)
                                                          (value_int j (str "time") (pos 0)) _
                                                          λ time _.
                                                            >>=-Ensures (IsNamed j)
                                                            (value_int j (str "updateTime") (pos 0))
                                                            _
                                                            λ update_time _. (
                                                            a ∙ ap ok (side_sound side_text side b),
                                                            c
                                                            ∙ ap ok
                                                            (order_type_sound type_text type d),
                                                            f
                                                            ∙ ap ok
                                                            (time_in_force_sound tif_text tif g),
                                                            h
                                                            ∙ ap ok (
                                                            order_status_sound status_text status
                                                            i),
                                                            ))
        e

  -- The balances of which something is free or locked, in their order.
  pub held : List (Balance Double) → List (Balance Double)
  held [] = []
  held (b ∷ bs) = if is_held L b then b ∷ held bs else held bs

  -- The loop over the balances parses every one of them, also those that it drops, throws as the
  -- first that does not parse, and keeps those of which something is held.
  pub held_balances-eq :
      (bs : List Json) → held_balances L bs ≡ (collect (parse_balance L) bs >>= λ xs. ok (held xs))
  unfolding held_balances held collect
  held_balances-eq [] = refl
  held_balances-eq (b ∷ bs) = ground (arith, held_balances-eq bs)
