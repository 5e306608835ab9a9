-- ===== src/Rest/Http/Transport/Sequential.antt =====
-- A client whose requests come one after another, as a client with one connection and no retry.
use bintrade.Prelude.{
  ℕ, ◌+◌, Bool, true, false, ◌&&◌, List, [], ◌∷◌, Option, none, some, length, leb,
}
use bintrade.Core.Error.{Error, Result, ok, err, network_exception}
use bintrade.Rest.ParamMap.{UnorderedMap}
use bintrade.Rest.Response.{HttpResponse}
use bintrade.Rest.Client.{Request}
use bintrade.Rest.Pool.Request.{Outcome, response, transport_error, other_error, res_keep_alive}
use bintrade.Rest.Http.{BeastFields}
use bintrade.Rest.Http.Transport.Answers.{exchanged}
use bintrade.Rest.Http.Transport.{Network, HttpClient, outcome_of}

-- The abstract client: one exchange for a request, whose error goes to the caller, on the connection
-- that is open or on a new one. The connection stays open behind a response that keeps it alive.
abbrev pub exchange_once : ℕ → Outcome → Result HttpResponse × Bool
exchange_once pool_size (response resp) = (ok resp, res_keep_alive resp && leb 1 pool_size)
exchange_once pool_size (transport_error what) = (err (network_exception what), false)
exchange_once pool_size (other_error what) = (err (network_exception what), false)

abbrev pub request_once : ℕ → Option Error → Outcome → Bool → Result HttpResponse × Bool
request_once pool_size failure outcome true = exchange_once pool_size outcome
request_once pool_size none outcome false = exchange_once pool_size outcome
request_once pool_size (some e) outcome false = (err e, false)

module _ (B : BeastFields) (M : UnorderedMap) (net : Network B) where
  open net use {connect_error}

  -- A request of the abstract client that has had the requests `rs`.
  abbrev pub step_once : HttpClient → List Request → Request → Bool → Result HttpResponse × Bool
  step_once c rs r =
      request_once c.pool.pool_size (connect_error (length rs + c.performed) 0)
        (outcome_of B M net (exchanged B M net c rs r 0))

  -- Whether the abstract client has its connection open behind these requests, newest first.
  abbrev pub open_after : HttpClient → List Request → Bool
  open_after c [] = false
  open_after c (r ∷ rs) = (step_once c rs r (open_after c rs)).1
