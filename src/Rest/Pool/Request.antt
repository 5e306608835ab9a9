-- ===== src/Rest/Pool/Request.antt =====
-- `execute` of src/rest/detail/http_client.cpp: one request with at most one retry, while no other
-- request runs. What the network does in each attempt is given by a function of the attempt.
pub mod Retry
use bintrade.Prelude.{
  ℕ, zero, suc, ◌+◌, ◌-◌, Bool, true, false, not, ◌&&◌, ◌||◌, Option, none, some, length, ltb, ◌==◌,
  if◌then◌else◌, Text, str, text_eq, lookup,
}
use bintrade.Core.Error.{Error, Result, ok, err, network_exception}
use bintrade.Rest.Response.{HttpResponse}
use bintrade.Rest.Pool.{Pool, acquire, release}
use bintrade.Rest.Pool.Valid.{connected_at}

-- How `do_request` ends: with a response, with a `beast::system_error`, or with another exception.
pub data Outcome : Type 0 where
  response : HttpResponse → Outcome
  transport_error : Text → Outcome
  other_error : Text → Outcome

-- What the network does in one attempt: `connect` is what `do_connect` throws, if it is called.
pub record Attempt : Type 0 where
  pub connect : Option Error
  pub outcome : Outcome

-- What the caller gets, the pool afterwards, and how often a request was written.
pub record Run : Type 0 where
  pub result : Result HttpResponse
  pub pool : Pool
  pub written : ℕ

unfoldable pub res_keep_alive : HttpResponse → Bool
res_keep_alive resp = elim (lookup (str "connection") resp.headers) [
  | some value ↦ not (text_eq value (str "close"))
  | none ↦ true
]

abbrev pub max_attempts : ℕ
max_attempts = 2

abbrev stop : Result HttpResponse → Pool → ℕ → Run
stop r p n = record { result = r; pool = p; written = n }

-- The body of the loop behind `acquire_connection`; `again` is the next round.
unfoldable pub serve : ℕ → ℕ → Pool → Outcome → ℕ → (Pool → ℕ → Run) → Run
serve attempt i p (response resp) n again =
    stop (ok resp) (release i (res_keep_alive resp) p) (n + 1)
serve attempt i p (transport_error what) n again =
    let was_preconnected =
      (attempt == 0) && (ltb 1 (length p.slots) || not (connected_at i p.slots)) in
    if not was_preconnected || (attempt == max_attempts - 1)
    then stop (err (network_exception what)) (release i false p) (n + 1)
    else again (release i false p) (n + 1)
serve attempt i p (other_error what) n again =
    stop (err (network_exception what)) (release i false p) (n + 1)

-- One round, given what `acquire_connection` did: what it throws leaves the loop.
unfoldable pub round : ℕ → Outcome → ℕ → (Pool → ℕ → Run) → Result ℕ × Pool → Run
unfolding serve
round attempt outcome n again (ok i, q) = serve attempt i q outcome n again
round attempt outcome n again (err e, q) = stop (err e) q n

-- The loop, by the rounds that are left.
unfoldable pub attempts : ℕ → ℕ → (ℕ → Attempt) → Pool → ℕ → Run
unfolding round
attempts zero attempt net p n =
    stop (err (network_exception (str "Unexpected: all retry attempts exhausted"))) p n
attempts (suc left) attempt net p n =
    round attempt (net attempt).outcome n (attempts left (attempt + 1) net)
      (acquire (net attempt).connect p)

unfoldable pub execute : (ℕ → Attempt) → Pool → Run
unfolding attempts
execute net p = attempts max_attempts 0 net p 0
