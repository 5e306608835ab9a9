-- ===== src/Tests/Async.antt =====
-- Examples for the coroutines of the REST clients.
use bintrade.Prelude.{ℕ, ◌≡◌, [], none, some, str, Reach, here, next}
use bintrade.Core.Types.{sell, limit, gtc}
use bintrade.Models.{NewOrderRequest, CancelOrderRequest}
use bintrade.Auth.Credentials.{make_credentials}
use bintrade.Rest.Response.{HttpResponse}
use bintrade.Rest.Client.{
  Client, Act, make_client, ping, server_time, public_get, signed_get, signed_post, signed_delete,
}
use bintrade.Rest.Client.Async.Calls.{
  async_ping, async_server_time, async_public_get, async_signed_get, async_signed_post,
  async_signed_delete,
}
use bintrade.Rest.Client.Async.Blocking.{run_blocking, run_blocking-eq}
use bintrade.Rest.Client.Limits.{public_get_call}
use bintrade.Rest.Client.Async.Coroutines.{Answer, coroutine_of}
use bintrade.Rest.Client.Async.Interleaved.{
  System, Step, start, begins, launch, newest, Reach-limits,
}
use bintrade.Tests.Sample.{calm}

-- A client that holds a key.
abbrev holder : Client
holder = make_client (some (make_credentials (str "key") (str "secret")))

run_blocking-eq_example :
    (run_blocking calm (async_ping calm) holder ≡ ping calm holder)
    × (run_blocking calm (async_server_time calm) holder ≡ server_time calm holder)
    × (run_blocking calm (async_public_get calm (str "/p") []) holder
        ≡ public_get calm (str "/p") [] holder)
    × (run_blocking calm (async_signed_get calm (str "/p") []) holder
        ≡ signed_get calm (str "/p") [] holder)
    × (run_blocking calm (async_signed_post calm (str "/p") []) holder
        ≡ signed_post calm (str "/p") [] holder)
    × (run_blocking calm (async_signed_delete calm (str "/p") []) holder
        ≡ signed_delete calm (str "/p") [] holder)
run_blocking-eq_example = run_blocking-eq calm (str "/p") [] holder

-- One coroutine of a new client began.
abbrev one_begun : System calm
one_begun =
    launch calm (coroutine_of calm (public_get_call (str "/p") []) (start calm none).client)
      (start calm none)

one_begun-reached : Reach (Step calm) (start calm none) one_begun
one_begun-reached = next here (begins (start calm none) (public_get_call (str "/p") []))

Reach-limits_example :
    (one_begun.client.used_weight_1m ≡ newest calm (str "x-mbx-used-weight-1m") one_begun.answered)
    × (one_begun.client.order_count_10s
        ≡ newest calm (str "x-mbx-order-count-10s") one_begun.answered)
    × (one_begun.client.order_count_1d
        ≡ newest calm (str "x-mbx-order-count-1d") one_begun.answered)
    × ((i : ℕ) (k : HttpResponse → Act Answer) (resp : HttpResponse) (d : Client)
        → one_begun.suspended i ≡ some k
        → (k resp one_begun.client).0 ≡ (k resp d).0)
Reach-limits_example = Reach-limits calm none {s = one_begun} one_begun-reached

abbrev selling : NewOrderRequest ℕ
selling = record {
  symbol = str "BTCUSDT";
  side = sell;
  type = limit;
  time_in_force = gtc;
  quantity = 1;
  price = some 2;
  client_order_id = none;
  stop_price = none;
}

abbrev cancelled : CancelOrderRequest
cancelled = record { symbol = str "BTCUSDT"; order_id = some 7; client_order_id = none }
