-- ===== src/Tests/Calls.antt =====
-- Examples for the clients and the parsers.
use bintrade.Prelude.{ℕ, ◌≡◌, ◌↔◌, refl, pos, List, [], ◌∷◌, none, some, str, Text, lookup}
use bintrade.Core.Error.{ok}
use bintrade.Core.Types.{
  buy, sell, market, gtc, new, limit, side_to_string, order_type_to_string, time_in_force_to_string,
  order_status_to_string, side_from_string, order_type_from_string, time_in_force_from_string,
  order_status_from_string,
}
use bintrade.Core.Types.WireNames.{from_string-eq-ok}
use bintrade.Models.{NewOrderRequest, Order}
use bintrade.Auth.Credentials.{make_credentials}
use bintrade.Rest.Response.{HttpResponse}
use bintrade.Rest.Client.{Client, make_client, get, public_get, signed_get}
use bintrade.Rest.Client.Status.{IsReturned, public_get-eq-ok}
use bintrade.Rest.Client.Status.Signed.{carried, signed_get-requests}
use bintrade.Rest.Client.Limits.{
  ping_call, public_get_call, Tracks, perform_all, perform_all-make_client,
}
use bintrade.Rest.Trading.{build_new_order_params}
use bintrade.Rest.Trading.Params.{order_fields, build_new_order_params-lookup}
use bintrade.Tests.Sample.{calm}

from_string-eq-ok_example :
    ((side_from_string (str "SELL") ≡ ok sell) ↔ (str "SELL" ≡ side_to_string sell))
    × ((order_type_from_string (str "SELL") ≡ ok limit) ↔ (str "SELL" ≡ order_type_to_string limit))
    × ((time_in_force_from_string (str "SELL") ≡ ok gtc)
        ↔ (str "SELL" ≡ time_in_force_to_string gtc))
    × ((order_status_from_string (str "SELL") ≡ ok new) ↔ (str "SELL" ≡ order_status_to_string new))
from_string-eq-ok_example = from_string-eq-ok (str "SELL") sell limit gtc new

-- The one client of the examples: it holds a key.
abbrev caller : Client
caller = make_client (some (make_credentials (str "key") (str "secret")))

public_get-eq-ok_example : ((public_get calm (str "/p") [] caller).0 ≡ ok (str "{}")) ↔ (
    (resp : HttpResponse) × (calm.http (get (str "/p") [] ∷ caller.requests) ≡ ok resp)
    × (str "{}" ≡ resp.body)
    × IsReturned calm resp)
public_get-eq-ok_example = public_get-eq-ok calm (str "/p") [] caller (str "{}")

signed_get-requests_example :
    (sent : List (Text × Text)) × ((signed_get calm (str "/p") [] caller).1.requests
      ≡ get (str "/p") sent ∷ caller.requests)
    × ((key : Text)
        → lookup key sent
          ≡ carried calm (make_credentials (str "key") (str "secret")) [] caller key)
unfolding make_client
signed_get-requests_example =
    signed_get-requests calm (str "/p") [] (make_credentials (str "key") (str "secret")) caller refl

perform_all-make_client_example :
    Tracks calm
      (perform_all calm (make_client none) (ping_call ∷ public_get_call (str "/p") [] ∷ []))
perform_all-make_client_example =
    perform_all-make_client calm none (ping_call ∷ public_get_call (str "/p") [] ∷ [])

abbrev market_order : NewOrderRequest ℕ
market_order = record {
  symbol = str "BTCUSDT";
  side = buy;
  type = market;
  time_in_force = gtc;
  quantity = 1;
  price = none;
  client_order_id = some (str "mine");
  stop_price = none;
}

build_new_order_params-lookup_example :
    lookup (str "side") (build_new_order_params calm market_order)
    ≡ lookup (str "side") (order_fields calm market_order)
build_new_order_params-lookup_example = build_new_order_params-lookup calm market_order (str "side")

abbrev sold : Order ℕ
sold = record {
  symbol = [];
  order_id = 0;
  client_order_id = [];
  price = 1;
  orig_qty = 1;
  executed_qty = 1;
  cummulative_quote_qty = 1;
  status = new;
  time_in_force = gtc;
  type = limit;
  side = sell;
  time = pos 0;
  update_time = pos 0;
}

abbrev sale : List (Text × Text)
sale = (str "S", str "SELL") ∷ (str "side", str "SELL") ∷ []
