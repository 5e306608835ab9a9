-- ===== src/Rest/Http.antt =====
-- src/rest/detail/http_client.cpp: what the HTTP client puts on the wire for a call of its transport
-- interface, what it makes of an answer, and the TLS sessions that it keeps. Rest/Pool.antt is about
-- the connections and the attempts.
pub mod Headers
pub mod Sessions
pub mod Limits
pub mod Transport
use bintrade.Prelude.{
  ℕ, ◌≡◌, Bool, true, false, List, [], ◌∷◌, ◌++◌, Option, none, some, Text, str, text_eq, lower,
  lookup, if◌then◌else◌,
}
use bintrade.Core.Error.{Result, ok, err, Error, network_exception, foreign}
use bintrade.Rest.Client.{Request, get, post, del}
use bintrade.Rest.ParamMap.{UnorderedMap}
use bintrade.Rest.Query.{Params, is_empty, build_query_string}
use bintrade.Rest.Response.{HttpResponse}
use bintrade.Rest.Url.{ParsedUrl}

-- What the code uses of `boost::beast::http::fields`, which is not part of the repository. The laws
-- are its documented behaviour: `set` replaces every field of that name, in any case, and
-- `prepare_payload` changes the fields that tell the length of the body.
pub record BeastFields : Type 1 where
  pub Fields : Type 0
  pub fresh : Fields
  pub set_field : Fields → Text → Text → Fields
  pub prepare_payload : Fields → Text → Fields
  pub find_field : Fields → Text → Option Text
  pub find-fresh : (key : Text) → find_field fresh key ≡ none
  pub find-set :
      (f : Fields) (name value key : Text)
      → find_field (set_field f name value) key
        ≡ (if text_eq (lower name) (lower key) then some value else find_field f key)
  pub find-prepare :
      (f : Fields) (body key : Text)
      → text_eq (lower key) (str "content-length") ≡ false
      → text_eq (lower key) (str "transfer-encoding") ≡ false
      → find_field (prepare_payload f body) key ≡ find_field f key

pub data Verb : Type 0 where
  verb_get verb_post verb_delete : Verb

-- The arguments of `execute`.
pub record Call : Type 0 where
  pub method : Verb
  pub target : Text
  pub body : Text
  pub extra_headers : Params

-- The target of `async_get` and `async_del`.
pub query_target : Text → Params → Text
query_target path params =
    let query = build_query_string params in if is_empty query then path else path ++ (b'?' ∷ query)

pub async_get : Text → Params → Call
unfolding query_target
async_get path params = record {
  method = verb_get;
  target = query_target path params;
  body = [];
  extra_headers = [];
}

pub async_post : Text → Text → Params → Call
async_post path body headers = record {
  method = verb_post;
  target = path;
  body = body;
  extra_headers = headers;
}

pub async_del : Text → Params → Call
unfolding query_target
async_del path params = record {
  method = verb_delete;
  target = query_target path params;
  body = [];
  extra_headers = [];
}

-- `get`, `post` and `del` wait for the coroutine of the same name. The clients pass no headers.
pub sync_call : Request → Call
unfolding async_get async_post async_del
sync_call (get path params) = async_get path params
sync_call (post path body) = async_post path body []
sync_call (del path params) = async_del path params

module _ (B : BeastFields) where
  open B use {Fields, fresh, set_field, prepare_payload}

  pub record HttpRequest : Type 0 where
    pub method : Verb
    pub target : Text
    pub fields : Fields
    pub body : Text

  set_all : Fields → Params → Fields
  set_all f [] = f
  set_all f ((key, value) ∷ headers) = set_all (set_field f key value) headers

  set_api_key_field : Text → Fields → Fields
  set_api_key_field api_key f =
      if is_empty api_key then f else set_field f (str "X-MBX-APIKEY") api_key

  with_body : Text → Fields → Fields
  with_body body f =
      if is_empty body
      then f
      else prepare_payload
          (set_field f (str "Content-Type") (str "application/x-www-form-urlencoded")) body

  base_fields : ParsedUrl → Fields
  base_fields url =
      let f1 = set_field fresh (str "Host") url.host in
      let f2 = set_field f1 (str "User-Agent") (str "bintrade/0.1.0") in
      let f3 = set_field f2 (str "Accept") (str "application/json") in
      set_field f3 (str "Connection") (str "keep-alive")

  -- The request that `do_request` writes.
  pub build_request : ParsedUrl → Text → Call → HttpRequest
  unfolding set_all set_api_key_field with_body base_fields
  build_request url api_key c = record {
    method = c.method;
    target = c.target;
    fields =
        with_body c.body (set_all (set_api_key_field api_key (base_fields url)) c.extra_headers);
    body = c.body;
  }

-- A response as Beast reads it: its fields in their order.
pub record WireResponse : Type 0 where
  pub result_int : ℕ
  pub fields : List (Text × Text)
  pub body : Text

module _ (M : UnorderedMap) where
  open M use {Map, empty, assign, entries}

  -- `for (const auto& field : res) ... response.headers[std::move(name)] = ...`
  pub lower_headers : Map → List (Text × Text) → Map
  lower_headers m [] = m
  lower_headers m ((name, value) ∷ fields) = lower_headers (assign m (lower name) value) fields

  unfoldable pub build_response : WireResponse → HttpResponse
  unfolding lower_headers
  build_response res = record {
    status_code = res.result_int;
    body = res.body;
    headers = entries (lower_headers empty res.fields);
  }

-- How `do_connect` ends: at one of its steps, or with a handshake and the session that it gives.
pub data ConnectEnd (Session : Type 0) : Type 0 where
  sni_refused : ConnectEnd Session
  step_failed : Error → ConnectEnd Session
  handshaken : Option Session → ConnectEnd Session

-- `ssl_session_cache_`, its newest entry first, and the `connected` of the connection.
pub record Tls (Session : Type 0) : Type 0 where
  pub ssl_session_cache : List (Text × Session)
  pub connected : Bool

-- `parsed_url_.host + ":" + parsed_url_.port`
pub cache_key : ParsedUrl → Text
cache_key url = url.host ++ (b':' ∷ url.port)

module _ {Session : Type 0} where
  -- The session that the handshake of a connection offers.
  pub offered : ParsedUrl → Tls Session → Option Session
  unfolding cache_key
  offered url t = lookup (cache_key url) t.ssl_session_cache

  keep_session : Text → Option Session → List (Text × Session) → List (Text × Session)
  keep_session key none cache = cache
  keep_session key (some session) cache = (key, session) ∷ cache

  pub do_connect : ParsedUrl → ConnectEnd Session → Tls Session → Result (Unit {0}) × Tls Session
  unfolding cache_key keep_session
  do_connect url sni_refused t = (err (network_exception (str "Failed to set SNI hostname")), t)
  do_connect url (step_failed e) t = (err e, t)
  do_connect url (handshaken session) t = (
    ok tt,
    record {
      ssl_session_cache = keep_session (cache_key url) session t.ssl_session_cache;
      connected = true;
    },
  )
