-- ===== src/Ws/Parse/Facts.antt =====
-- How the order messages of the two interfaces agree with the enumerations.
use bintrade.Prelude.{◌≡◌, refl, not, pos, false, str, [], ◌∙◌, ap}
use bintrade.Core.Error.{ok, Ensures-ok, >>=-Ensures}
use bintrade.Core.Types.{
  side_to_string, order_type_to_string, time_in_force_to_string, order_status_to_string,
  side_from_string, order_type_from_string, time_in_force_from_string, order_status_from_string,
}
use bintrade.Core.Types.WireNames.{
  side_sound, order_type_sound, time_in_force_sound, order_status_sound,
}
use bintrade.Json.{JsonLib}
use bintrade.Models.{Trade, Order}
use bintrade.Rest.Parse.{number}
use bintrade.Ws.Parse.{parse_trade_stream, parse_order_update}

module _ (L : JsonLib) where
  open L use {Json, Double, value_bool, value_uint, value_int, value_text, multiply}

  -- One of the two sides is the maker, and the quote quantity is a product.
  abbrev pub IsOneSided : Trade Double → Type 0
  IsOneSided t = (t.is_buyer ≡ not t.is_maker) × (t.quote_qty ≡ multiply t.price t.qty)

  -- A trade of the stream has exactly one of the two sides as maker, and its quote quantity is the
  -- product of its price and its quantity.
  pub parse_trade_stream-eq-ok :
      (j : Json) (t : Trade Double) → parse_trade_stream L j ≡ ok t → IsOneSided t
  unfolding parse_trade_stream
  parse_trade_stream-eq-ok j t e =
      Ensures-ok IsOneSided
        (>>=-Ensures IsOneSided (value_uint j (str "t") 0) _ λ id _.
          >>=-Ensures IsOneSided (number L j (str "p")) _ λ price _.
            >>=-Ensures IsOneSided (number L j (str "q")) _ λ qty _.
              >>=-Ensures IsOneSided (value_int j (str "T") (pos 0)) _ λ time _.
                >>=-Ensures IsOneSided (value_bool j (str "m") false) _ λ maker _. (refl, refl))
        e

  -- The enumerations of an order are those that its message names.
  abbrev pub IsNamed : Json → Order Double → Type 0
  IsNamed j o =
      (value_text j (str "S") (str "BUY") ≡ ok (side_to_string o.side))
      × (value_text j (str "o") (str "LIMIT") ≡ ok (order_type_to_string o.type))
      × (value_text j (str "f") (str "GTC") ≡ ok (time_in_force_to_string o.time_in_force))
      × (value_text j (str "X") (str "NEW") ≡ ok (order_status_to_string o.status))

  -- The side, type, time in force and status of a parsed order update are those whose wire names the
  -- message holds under `S`, `o`, `f` and `X`, or the defaults of the absent ones.
  pub parse_order_update-eq-ok :
      (j : Json) (o : Order Double) → parse_order_update L j ≡ ok o → IsNamed j o
  unfolding parse_order_update
  parse_order_update-eq-ok j o e =
      Ensures-ok (IsNamed j)
        (>>=-Ensures (IsNamed j) (value_text j (str "s") []) _ λ symbol _.
          >>=-Ensures (IsNamed j) (value_uint j (str "i") 0) _ λ order_id _.
            >>=-Ensures (IsNamed j) (value_text j (str "c") []) _ λ client _.
              >>=-Ensures (IsNamed j) (value_text j (str "S") (str "BUY")) _ λ side_text a.
                >>=-Ensures (IsNamed j) (side_from_string side_text) _ λ side b.
                  >>=-Ensures (IsNamed j) (value_text j (str "o") (str "LIMIT")) _ λ type_text c.
                    >>=-Ensures (IsNamed j) (order_type_from_string type_text) _ λ type d.
                      >>=-Ensures (IsNamed j) (value_text j (str "f") (str "GTC")) _ λ tif_text f.
                        >>=-Ensures (IsNamed j) (time_in_force_from_string tif_text) _ λ tif g.
                          >>=-Ensures (IsNamed j) (number L j (str "q")) _ λ orig_qty _.
                            >>=-Ensures (IsNamed j) (number L j (str "p")) _ λ price _.
                              >>=-Ensures (IsNamed j) (number L j (str "z")) _ λ executed_qty _.
                                >>=-Ensures (IsNamed j) (number L j (str "Z")) _ λ quote_qty _.
                                  >>=-Ensures (IsNamed j) (value_text j (str "X") (str "NEW")) _
                                    λ status_text h.
                                      >>=-Ensures (IsNamed j) (order_status_from_string status_text)
                                        _
                                        λ status i.
                                          >>=-Ensures (IsNamed j) (value_int j (str "O") (pos 0)) _
                                            λ time _.
                                              >>=-Ensures (IsNamed j)
                                                (value_int j (str "T") (pos 0)) _
                                                λ update_time _. (
                                                  a ∙ ap ok (side_sound side_text side b),
                                                  c ∙ ap ok (order_type_sound type_text type d),
                                                  f ∙ ap ok (time_in_force_sound tif_text tif g),
                                                  h
                                                      ∙ ap ok
                                                          (order_status_sound status_text status i),
                                                ))
        e
