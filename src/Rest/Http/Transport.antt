-- ===== src/Rest/Http/Transport.antt =====
-- `HttpClient` of src/rest/detail/http_client.cpp as a whole: the pool of Rest/Pool.antt and the bytes
-- of Rest/Http.antt behind the interface that the REST clients use, for requests one after another.
-- Attempt `k` of request `n` is one exchange with the network.
pub mod Answers
pub mod Sequential
pub mod OneConnection
pub mod Agrees
use bintrade.Prelude.{ℕ, suc, ◌+◌, List, [], ◌∷◌, Option, none, some, Text, str, if◌then◌else◌}
use bintrade.Core.Config.{RestConfig}
use bintrade.Core.Error.{Error, Result, ok, err, network_exception, undefined}
use bintrade.Rest.ParamMap.{UnorderedMap}
use bintrade.Rest.Response.{HttpResponse}
use bintrade.Rest.Url.{ParsedUrl, parse_url}
use bintrade.Rest.Client.{Platform, Request}
use bintrade.Rest.Pool.{Pool}
use bintrade.Rest.Pool.Request.{
  Outcome, response, transport_error, other_error, Attempt, Run, execute,
}
use bintrade.Rest.Http.{
  BeastFields, HttpRequest, build_request, sync_call, WireResponse, build_response,
}

-- How the exchange of a request ends: a response, a `beast::system_error`, or another exception.
pub data Exchange : Type 0 where
  answered : WireResponse → Exchange
  broken : Text → Exchange
  failed : Text → Exchange

-- The network: how `do_connect` ends, if an attempt calls it, and how the attempt's exchange does.
pub record Network (B : BeastFields) : Type 0 where
  pub connect_error : ℕ → ℕ → Option Error
  pub exchange : ℕ → ℕ → HttpRequest B → Exchange

-- `HttpClient::Impl`, with how many requests it has had.
pub record HttpClient : Type 0 where
  pub parsed_url : ParsedUrl
  pub api_key : Text
  pub pool : Pool
  pub performed : ℕ

-- `HttpClient(config, pool_size)`, and the default of its second argument.
abbrev pub default_pool_size : ℕ
default_pool_size = 4

unfoldable pub make_http_client : RestConfig → ℕ → Result HttpClient
make_http_client config pool_size = elim (parse_url config.base_url) [
  | ok url ↦ ok (record {
    parsed_url = url;
    api_key = [];
    pool = record { pool_size = pool_size; slots = []; next_id = 0 };
    performed = 0;
  })
  | err e ↦ err e
]

unfoldable pub set_api_key : Text → HttpClient → HttpClient
set_api_key api_key c = record c { api_key = api_key }

module _ (B : BeastFields) (M : UnorderedMap) (net : Network B) where
  open net use {connect_error, exchange}

  -- `do_request` from its `async_write` on.
  unfoldable pub outcome_of : Exchange → Outcome
  outcome_of (answered res) = response (build_response M res)
  outcome_of (broken what) = transport_error what
  outcome_of (failed what) = other_error what

  unfoldable pub attempt_of : HttpClient → Request → ℕ → Attempt
  unfolding outcome_of
  attempt_of c r k = record {
    connect = connect_error c.performed k;
    outcome =
        outcome_of (exchange c.performed k (build_request B c.parsed_url c.api_key (sync_call r)));
  }

  -- `get`, `post` and `del`: the caller waits for `execute`.
  unfoldable pub perform : Request → HttpClient → Result HttpResponse × HttpClient
  unfolding attempt_of
  perform r c =
      let run = execute (attempt_of c r) c.pool in
      (run.result, record c { pool = run.pool; performed = suc c.performed })

  -- The client behind these requests, newest first.
  unfoldable pub client_after : HttpClient → List Request → HttpClient
  client_after c [] = c
  client_after c (r ∷ rs) = (perform r (client_after c rs)).1

  -- The answer to the newest of these requests.
  unfoldable pub answer_of : HttpClient → List Request → Result HttpResponse
  unfolding client_after
  answer_of c [] = err undefined
  answer_of c (r ∷ rs) = (perform r (client_after c rs)).0

  -- A platform whose transport is this client.
  abbrev pub over : HttpClient → Platform → Platform
  over c P = record P { map = M; http = answer_of c }
