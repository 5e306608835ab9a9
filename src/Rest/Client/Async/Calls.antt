-- ===== src/Rest/Client/Async/Calls.antt =====
-- The six coroutines of src/rest/client.cpp.
use bintrade.Prelude.{ℤ, pos, Bool, [], Text, str, ◌==◌}
use bintrade.Core.Error.{Result, ok, err}
use bintrade.Rest.Response.{HttpResponse}
use bintrade.Rest.Query.{append_params}
use bintrade.Rest.Parse.{parse_response}
use bintrade.Rest.Client.{
  Platform, Request, get, post, del, Act, ◌>>=◌, ◌>>◌, lift, return, update_rate_limits, body_of,
  sign_params,
}
use bintrade.Rest.Client.Async.{Started, done, waiting, Coroutine}

module _ (P : Platform) where
  open P use {json, map}
  open map use {Map, empty, entries}
  open json use {value_int}

  -- Behind the wait of the four helpers.
  unfoldable pub served : HttpResponse → Act Text
  unfolding ◌>>◌
  served resp = do update_rate_limits P resp; lift (body_of P resp)

  unfoldable pub async_ping : Coroutine Bool
  unfolding ◌>>◌
  async_ping c =
      waiting (get (str "/api/v3/ping") (entries empty))
        λ resp. do update_rate_limits P resp; return (resp.status_code == 200)

  unfoldable pub async_server_time : Coroutine ℤ
  unfolding ◌>>◌ ◌>>=◌
  async_server_time c = waiting (get (str "/api/v3/time") (entries empty)) λ resp. do
    update_rate_limits P resp
    j ← lift (parse_response json resp.status_code resp.body)
    lift (value_int j (str "serverTime") (pos 0))

  unfoldable pub async_public_get : Text → Map → Coroutine Text
  unfolding served
  async_public_get path params c = waiting (get path (entries params)) served

  -- What `sign_params` throws leaves the coroutine before its wait.
  unfoldable pub start_signed : (Map → Request) → Result Map → Started Text
  unfolding served
  start_signed request_of (err e) = done (err e)
  start_signed request_of (ok params) = waiting (request_of params) served

  unfoldable pub async_signed_get : Text → Map → Coroutine Text
  unfolding sign_params start_signed
  async_signed_get path params c =
      start_signed (λ ps. get path (entries ps)) (sign_params P params c).0

  unfoldable pub async_signed_post : Text → Map → Coroutine Text
  unfolding sign_params start_signed
  async_signed_post path params c =
      start_signed (λ ps. post path (append_params [] (entries ps))) (sign_params P params c).0

  unfoldable pub async_signed_delete : Text → Map → Coroutine Text
  unfolding sign_params start_signed
  async_signed_delete path params c =
      start_signed (λ ps. del path (entries ps)) (sign_params P params c).0
