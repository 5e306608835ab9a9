-- ===== src/Rest/Client.antt =====
-- src/rest/client.cpp: the base of the three typed clients. It signs requests, sends them over a
-- transport, keeps the rate-limit counters, and turns error responses into exceptions.
pub mod Async
pub mod Limits
pub mod Status
use bintrade.Prelude.{
  ℕ, ℤ, pos, negsuc, Bool, true, false, List, [], ◌∷◌, Option, none, some, Text, str, lookup, leb,
  ◌==◌, if◌then◌else◌,
}
use bintrade.Core.Error.{Result, ok, err, Error, authentication, exception_of_message}
use bintrade.Json.{JsonLib}
use bintrade.Auth.Credentials.{Credentials, api_key, api_secret}
use bintrade.Auth.Signer.{sign_parameters}
use bintrade.Rest.Query.{append_params}
use bintrade.Rest.Response.{HttpResponse}
use bintrade.Rest.ParamMap.{UnorderedMap}
use bintrade.Rest.Parse.{parse_response}

-- What a client asks of its `HttpTransport`, with the map's pairs in their order.
pub data Request : Type 0 where
  get : Text → List (Text × Text) → Request
  post : Text → Text → Request
  del : Text → List (Text × Text) → Request

-- What the code calls. The transport answers the newest request of the list of all requests;
-- `now` is the system clock at the time of the next one.
pub record Platform : Type 1 where
  pub json : JsonLib
  pub map : UnorderedMap
  pub hmac_sha256 : Text → Text → List ℕ
  -- `std::stoi`, which throws outside `int`
  pub stoi : Text → Option ℤ
  pub int_text : ℤ → Text
  pub http : List Request → Result HttpResponse
  pub now : List Request → ℤ

-- `Client::Impl`. The signer exists exactly when the credentials do, and refers to them.
pub record Client : Type 0 where
  pub credentials : Option Credentials
  -- what `set_api_key` told the transport
  pub transport_key : Text
  pub requests : List Request
  pub used_weight_1m : ℤ
  pub order_count_10s : ℤ
  pub order_count_1d : ℤ

-- `Impl(transport)` and `Impl(transport, creds)`
unfoldable pub make_client : Option Credentials → Client
make_client c = record {
  credentials = c;
  transport_key = key c;
  requests = [];
  used_weight_1m = pos 0;
  order_count_10s = pos 0;
  order_count_1d = pos 0;
}
  where
    key : Option Credentials → Text
    key none = []
    key (some creds) = api_key creds

-- A call on a client: what it returns or throws, and the client behind it.
abbrev pub Act {ℓ} : Type ℓ → Type ℓ
Act A = Client → Result A × Client

infixl 5 ◌>>=◌ ◌>>◌
unfoldable pub after {ℓ κ} :
    {A : Type ℓ} {B : Type κ} → Result A × Client → (A → Act B) → Result B × Client
after (ok a, c) f = f a c
after (err e, c) f = (err e, c)

unfoldable pub ◌>>=◌ {ℓ κ} : {A : Type ℓ} {B : Type κ} → Act A → (A → Act B) → Act B
unfolding after
(m >>= f) c = after (m c) f

unfoldable pub ◌>>◌ {ℓ κ} : {A : Type ℓ} {B : Type κ} → Act A → Act B → Act B
unfolding ◌>>=◌
m >> k = m >>= λ _. k

abbrev pub lift {ℓ} : {A : Type ℓ} → Result A → Act A
lift r c = (r, c)

abbrev pub return {ℓ} : {A : Type ℓ} → A → Act A
return a c = (ok a, c)

-- `try_parse` of `update_rate_limits`
abbrev pub limit_of : Option ℤ → ℤ
limit_of none = negsuc 0
limit_of (some n) = n

module _ (P : Platform) where
  open P use {json, map, hmac_sha256, stoi, int_text, http, now}
  open map use {Map, empty, entries}
  open json use {value_int}

  -- The counter after a response that carries the header, or not.
  pub counter : Option Text → ℤ → ℤ
  counter none old = old
  counter (some text) old = limit_of (stoi text)

  unfoldable pub update_rate_limits : HttpResponse → Act (Unit {0})
  unfolding counter
  update_rate_limits resp c = (
    ok tt,
    record c {
      used_weight_1m = counter (lookup (str "x-mbx-used-weight-1m") resp.headers) c.used_weight_1m;
      order_count_10s =
          counter (lookup (str "x-mbx-order-count-10s") resp.headers) c.order_count_10s;
      order_count_1d = counter (lookup (str "x-mbx-order-count-1d") resp.headers) c.order_count_1d;
    },
  )

  unfoldable pub signed : Option Credentials → Map → ℤ → Result Map
  signed none params time =
      err (authentication (exception_of_message (str "No credentials provided for signed request")))
  signed (some creds) params time =
      ok (sign_parameters map hmac_sha256 int_text (api_secret creds) time params)

  unfoldable pub sign_params : Map → Act Map
  unfolding signed
  sign_params params c = (signed c.credentials params (now c.requests), c)

  unfoldable pub transport : Request → Act HttpResponse
  transport r c = (http (r ∷ c.requests), record c { requests = r ∷ c.requests })

  -- A value that is computed only for what it throws, in front of `return text;`.
  abbrev pub checked {ℓ} : {A : Type ℓ} → Result A → Text → Result Text
  checked (ok a) text = ok text
  checked (err e) text = err e

  -- `if (resp.status_code >= 400) detail::parse_response(...); return resp.body;`
  unfoldable pub body_of : HttpResponse → Result Text
  body_of resp =
      if leb 400 resp.status_code
      then checked (parse_response json resp.status_code resp.body) resp.body
      else ok resp.body

  pub ping : Act Bool
  unfolding ◌>>=◌ ◌>>◌
  ping = do
    resp ← transport (get (str "/api/v3/ping") (entries empty))
    update_rate_limits resp
    return (resp.status_code == 200)

  pub server_time : Act ℤ
  unfolding ◌>>=◌ ◌>>◌
  server_time = do
    resp ← transport (get (str "/api/v3/time") (entries empty))
    update_rate_limits resp
    j ← lift (parse_response json resp.status_code resp.body)
    lift (value_int j (str "serverTime") (pos 0))

  unfoldable pub public_get : Text → Map → Act Text
  unfolding ◌>>=◌ ◌>>◌
  public_get path params = do
    resp ← transport (get path (entries params))
    update_rate_limits resp
    lift (body_of resp)

  unfoldable pub signed_get : Text → Map → Act Text
  unfolding ◌>>=◌ ◌>>◌
  signed_get path params = do
    params ← sign_params params
    resp ← transport (get path (entries params))
    update_rate_limits resp
    lift (body_of resp)

  pub signed_post : Text → Map → Act Text
  unfolding ◌>>=◌ ◌>>◌
  signed_post path params = do
    params ← sign_params params
    resp ← transport (post path (append_params [] (entries params)))
    update_rate_limits resp
    lift (body_of resp)

  pub signed_delete : Text → Map → Act Text
  unfolding ◌>>=◌ ◌>>◌
  signed_delete path params = do
    params ← sign_params params
    resp ← transport (del path (entries params))
    update_rate_limits resp
    lift (body_of resp)
