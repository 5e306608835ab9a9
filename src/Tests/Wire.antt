-- ===== src/Tests/Wire.antt =====
-- Examples for what the HTTP client puts on the wire and reads from it.
use bintrade.Prelude.{
  ◌≡◌, refl, false, List, [], ◌∷◌, none, some, str, Text, text_eq, lower, Option, if◌then◌else◌,
}
use bintrade.Rest.Client.{Client, counter, make_client, post, update_rate_limits}
use bintrade.Rest.Query.{Params}
use bintrade.Rest.Url.{ParsedUrl}
use bintrade.Rest.Http.{
  BeastFields, HttpRequest, WireResponse, build_response, ConnectEnd, handshaken, sni_refused, Tls,
  sync_call, build_request, offered,
}
use bintrade.Rest.Http.Limits.{update_rate_limits-build_response}
use bintrade.Auth.Credentials.{make_credentials}
use bintrade.Rest.Http.Headers.{Says, last_field, build_request-Says}
use bintrade.Rest.Http.Sessions.{connect_all, last_session, offered-connect_all}
use bintrade.Tests.Sample.{calm, newest_first}

abbrev one_param : Params
one_param = (str "symbol", str "BTCUSDT") ∷ []

abbrev sent_twice : WireResponse
sent_twice = record {
  result_int = 200;
  fields = (str "X-MBX-USED-WEIGHT-1M", str "1") ∷ (str "x-mbx-used-weight-1m", str "2") ∷ [];
  body = [];
}

-- Fields as a function from the lower-case name.
abbrev pub set_value : (Text → Option Text) → Text → Text → Text → Option Text
set_value f name value key = if text_eq (lower name) key then some value else f key

abbrev pub set_length : (Text → Option Text) → Text → Text → Option Text
set_length f body key =
    if text_eq key (str "content-length")
    then some (str "1")
    else if text_eq key (str "transfer-encoding")
    then none
    else f key

pub set_length-other :
    (f : Text → Option Text) (body key : Text)
    → text_eq (lower key) (str "content-length") ≡ false
    → text_eq (lower key) (str "transfer-encoding") ≡ false
    → set_length f body (lower key) ≡ f (lower key)
set_length-other f body key h k = rw (h, k) refl

abbrev pub plain_fields : BeastFields
plain_fields = record {
  Fields = Text → Option Text;
  fresh = λ key. none;
  set_field = set_value;
  prepare_payload = set_length;
  find_field = λ f key. f (lower key);
  find-fresh = λ key. refl;
  find-set = λ f name value key. refl;
  find-prepare = set_length-other;
}

abbrev base_url : ParsedUrl
base_url = record { scheme = str "https"; host = str "api.binance.com"; port = str "443" }

abbrev order_request : HttpRequest plain_fields
order_request =
    build_request plain_fields base_url (str "key") (sync_call (post (str "/p") (str "a=b")))

build_request-Says_example :
    Says plain_fields base_url (str "key") order_request.body order_request.fields
build_request-Says_example =
    build_request-Says plain_fields base_url (str "key") (post (str "/p") (str "a=b"))

abbrev empty_tls : Tls Text
empty_tls = record { ssl_session_cache = []; connected = false }

abbrev ends : List (ConnectEnd Text)
ends = handshaken (some (str "s")) ∷ sni_refused ∷ handshaken none ∷ []

offered-connect_all_example :
    offered base_url (connect_all base_url ends empty_tls)
    ≡ last_session base_url ends (offered base_url empty_tls)
offered-connect_all_example = offered-connect_all base_url ends empty_tls

abbrev key_holder : Client
key_holder = make_client (some (make_credentials (str "key") (str "secret")))

update_rate_limits-build_response_example :
    let after = (update_rate_limits calm (build_response newest_first sent_twice) key_holder).1 in
    (after.used_weight_1m
      ≡ counter calm
          (last_field (str "x-mbx-used-weight-1m") sent_twice.fields)
          key_holder.used_weight_1m)
    × (after.order_count_10s
        ≡ counter calm
            (last_field (str "x-mbx-order-count-10s") sent_twice.fields)
            key_holder.order_count_10s)
    × (after.order_count_1d
        ≡ counter calm
            (last_field (str "x-mbx-order-count-1d") sent_twice.fields)
            key_holder.order_count_1d)
update_rate_limits-build_response_example =
    update_rate_limits-build_response calm sent_twice key_holder
