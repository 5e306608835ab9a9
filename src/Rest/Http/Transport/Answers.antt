-- ===== src/Rest/Http/Transport/Answers.antt =====
-- Where the answers of the REST clients come from.
use bintrade.Prelude.{
  if◌then◌else◌, subst, leb, ap, ◌++◌, ℕ, ◌+◌, ◌≡◌, refl, sym, ◌∙◌, ◌⊎◌, inl, inr, false,
  Bool-cases, List, [], ◌∷◌, Text, length, ltb, ◌==◌, not, ◌&&◌, ◌||◌, arith, ◌-◌,
}
use bintrade.Core.Error.{Result, ok, err}
use bintrade.Rest.ParamMap.{UnorderedMap}
use bintrade.Rest.Response.{HttpResponse}
use bintrade.Rest.Client.{Platform, Client, Request, get, post, public_get}
use bintrade.Rest.Client.Status.{IsReturned, public_get-eq-ok}
use bintrade.Rest.Pool.{Pool, release}
use bintrade.Rest.Pool.Valid.{connected_at}
use bintrade.Rest.Pool.Request.{
  Outcome, response, transport_error, other_error, Attempt, Run, execute, attempts, round, serve,
  max_attempts,
}
use bintrade.Rest.Http.{
  BeastFields, HttpRequest, build_request, sync_call, WireResponse, build_response, Verb, verb_get,
  verb_post, query_target, async_get, async_post,
}
use bintrade.Rest.Http.Headers.{Says, build_request-Says}
use bintrade.Rest.Query.{Params, is_empty}
use bintrade.Rest.Query.Written.{
  written_target, is_empty-pair, more_params, build_query_string-nil, build_query_string-cons,
}
use bintrade.Rest.Parse.Errors.{IsNoError}
use bintrade.Rest.Http.Transport.{
  Exchange, answered, broken, failed, Network, HttpClient, perform, attempt_of, outcome_of,
  client_after, answer_of, over,
}

-- This attempt ended with the response, or it broke and the next rounds came to the response.
abbrev Ends : Outcome → (Pool → ℕ → Run) → HttpResponse → Type 0
Ends o again resp =
    (o ≡ response resp)
    ⊎ ((what : Text) × (o ≡ transport_error what)
        × (p : Pool) × (m : ℕ) × ((again p m).result ≡ ok resp))

serve-Ends :
    (attempt i n : ℕ) (q : Pool) (o : Outcome) (again : Pool → ℕ → Run) (resp : HttpResponse)
    → (serve attempt i q o n again).result ≡ ok resp
    → Ends o again resp
unfolding serve
serve-Ends attempt i n q (response r) again resp h = inl (cc)
serve-Ends attempt i n q (transport_error what) again resp h =
    elim (Bool-cases (
      not ((attempt == 0) && (ltb 1 (length q.slots) || not (connected_at i q.slots)))
      || (attempt == max_attempts - 1))) [
        | inl e ↦ ground (arith, e, h)
        | inr e ↦ inr (what, refl, release i false q, n + 1, ground (arith, e, h))
      ]
serve-Ends attempt i n q (other_error what) again resp h = cc

round-Ends :
    (attempt n : ℕ) (o : Outcome) (again : Pool → ℕ → Run) (a : Result ℕ × Pool)
    (resp : HttpResponse)
    → (round attempt o n again a).result ≡ ok resp
    → Ends o again resp
unfolding round
round-Ends attempt n o again (ok i, q) resp h = serve-Ends attempt i n q o again resp h
round-Ends attempt n o again (err e, q) resp h = cc

last_attempt :
    (net : ℕ → Attempt) (p : Pool) (n : ℕ) (resp : HttpResponse)
    → (attempts 1 1 net p n).result ≡ ok resp
    → (net 1).outcome ≡ response resp
unfolding attempts
last_attempt net p n resp h = elim (round-Ends 1 n (net 1).outcome (attempts 0 2 net) _ resp h) [
  | inl e ↦ e
  | inr (what, e, q, m, k) ↦ cc
]

execute-Ends :
    (net : ℕ → Attempt) (p : Pool) (resp : HttpResponse)
    → (execute net p).result ≡ ok resp
    → ((net 0).outcome ≡ response resp)
      ⊎ ((what : Text) × ((net 0).outcome ≡ transport_error what)
          × ((net 1).outcome ≡ response resp))
unfolding execute attempts
execute-Ends net p resp h = elim (round-Ends 0 0 (net 0).outcome (attempts 1 1 net) _ resp h) [
  | inl e ↦ inl e
  | inr (what, e, q, m, k) ↦ inr (what, e, last_attempt net q m resp k)
]

module _ (B : BeastFields) (M : UnorderedMap) (net : Network B) where
  open net use {exchange, connect_error}

  outcome_of-eq-response :
      (e : Exchange) (resp : HttpResponse)
      → outcome_of B M net e ≡ response resp
      → (res : WireResponse) × (e ≡ answered res) × (resp ≡ build_response M res)
  unfolding outcome_of
  outcome_of-eq-response (answered res) resp h = (res, refl, ground (arith, h))
  outcome_of-eq-response (broken what) resp h = cc
  outcome_of-eq-response (failed what) resp h = cc

  outcome_of-eq-transport_error :
      (e : Exchange) (what : Text) → outcome_of B M net e ≡ transport_error what → e ≡ broken what
  unfolding outcome_of
  outcome_of-eq-transport_error (answered res) what h = cc
  outcome_of-eq-transport_error (broken text) what h = ground (arith, h)
  outcome_of-eq-transport_error (failed text) what h = cc

  -- What attempt `k` for the request sends when the client has had `n` others.
  abbrev pub exchanged : HttpClient → List Request → Request → ℕ → Exchange
  exchanged c rs r k =
      exchange (length rs + c.performed) k (build_request B c.parsed_url c.api_key (sync_call r))

  client_after-fields :
      (c : HttpClient) (rs : List Request)
      → ((client_after B M net c rs).parsed_url ≡ c.parsed_url)
        × ((client_after B M net c rs).api_key ≡ c.api_key)
        × ((client_after B M net c rs).performed ≡ length rs + c.performed)
  unfolding client_after perform
  client_after-fields c [] = ground arith
  client_after-fields c (r ∷ rs) = ground (arith, client_after-fields c rs)

  pub attempt_of-after :
      (c : HttpClient) (rs : List Request) (r : Request) (k : ℕ)
      → ((attempt_of B M net (client_after B M net c rs) r k).connect
          ≡ connect_error (length rs + c.performed) k)
        × ((attempt_of B M net (client_after B M net c rs) r k).outcome
            ≡ outcome_of B M net (exchanged c rs r k))
  unfolding attempt_of
  attempt_of-after c rs r k =
      let (url, key, n) = client_after-fields c rs in rw (url, key, n) (refl, refl)

  -- The network answered the request with `resp`, at once or after one exchange that broke.
  abbrev pub Answered : HttpClient → List Request → Request → HttpResponse → Type 0
  Answered c rs r resp =
      (res : WireResponse) × (resp ≡ build_response M res)
      × ((exchanged c rs r 0 ≡ answered res)
          ⊎ ((what : Text) × (exchanged c rs r 0 ≡ broken what)
              × (exchanged c rs r 1 ≡ answered res)))

  -- Whatever requests the client has had and whatever its pool holds: a response that it returns is
  -- made of an answer of the network to this very request, with the client's host and API key, in
  -- the first exchange or, where that one broke, in the second.
  pub answer_of-Answered :
      (c : HttpClient) (r : Request) (rs : List Request) (resp : HttpResponse)
      → answer_of B M net c (r ∷ rs) ≡ ok resp
      → Answered c rs r resp
  unfolding answer_of perform
  answer_of-Answered c r rs resp h =
      elim (execute-Ends (attempt_of B M net (client_after B M net c rs) r) _ resp h) [
        | inl e ↦
            let (res, here, same) =
              outcome_of-eq-response _ resp (sym (attempt_of-after c rs r 0).1 ∙ e) in
            (res, same, inl here)
        | inr (what, e, e1) ↦
            let first =
              outcome_of-eq-transport_error _ what (sym (attempt_of-after c rs r 0).1 ∙ e) in
            let (res, here, same) =
              outcome_of-eq-response _ resp (sym (attempt_of-after c rs r 1).1 ∙ e1) in
            (res, same, inr (what, first, here))
      ]

  -- A request on the wire without a body: its verb, its target, and the host and the API key of the
  -- client in its fields.
  abbrev pub Requests : HttpClient → Verb → Text → HttpRequest B → Type 0
  Requests c verb target req =
      (req.method ≡ verb)
      × (req.target ≡ target)
      × (req.body ≡ [])
      × Says B c.parsed_url c.api_key [] req.fields

  -- The network answers request number `n`, at once or after one exchange that broke.
  abbrev pub AnsweredBy : ℕ → HttpRequest B → WireResponse → Type 0
  AnsweredBy n req res =
      (exchange n 0 req ≡ answered res)
      ⊎ ((what : Text) × (exchange n 0 req ≡ broken what) × (exchange n 1 req ≡ answered res))

  query_target-eq : (path : Text) (ps : Params) → query_target path ps ≡ written_target path ps
  unfolding query_target
  query_target-eq path [] =
      ap (λ q. if is_empty q then path else path ++ (b'?' ∷ q)) build_query_string-nil
  query_target-eq path ((key, value) ∷ ps) =
      ap (λ q. if is_empty q then path else path ++ (b'?' ∷ q))
        (build_query_string-cons key value ps)
      ∙ ap (λ b. if b then path else written_target path ((key, value) ∷ ps))
          (is_empty-pair key (value ++ more_params ps))

  get-Requests :
      (c : HttpClient) (path : Text) (ps : Params)
      → Requests c verb_get
          (written_target path ps)
          (build_request B c.parsed_url c.api_key (sync_call (get path ps)))
  unfolding build_request sync_call async_get
  get-Requests c path ps = (
    refl,
    query_target-eq path ps,
    refl,
    build_request-Says B c.parsed_url c.api_key (get path ps),
  )

  pub post-Requests :
      (c : HttpClient) (path : Text)
      → Requests c verb_post path
          (build_request B c.parsed_url c.api_key (sync_call (post path [])))
  unfolding build_request sync_call async_post
  post-Requests c path =
      (refl, refl, refl, build_request-Says B c.parsed_url c.api_key (post path []))

  IsReturned-build_response :
      (P : Platform) (h : HttpClient) (resp : HttpResponse) (res : WireResponse)
      → resp ≡ build_response M res
      → IsReturned (over B M net h P) resp
      → (resp.body ≡ res.body) × ((leb 400 res.result_int ≡ false) ⊎ IsNoError P.json res.body)
  unfolding build_response
  IsReturned-build_response P h resp res same fine =
      (ap (λ r. r.body) same, subst (IsReturned (over B M net h P)) same fine)

  -- A text that `public_get` returns over this HTTP client is the body of an answer of the network
  -- to a GET request without a body whose target is the path, with the parameters behind it as a
  -- query, and whose fields name the host and carry the API key of the client if it has one: an
  -- answer in its first exchange or, where that one broke, in the second. That answer has a status
  -- below 400, or a JSON body that is no error object of Binance.
  pub public_get-Answered :
      (P : Platform) (h : HttpClient) (path : Text) (params : M.Map) (c : Client) (t : Text)
      → (public_get (over B M net h P) path params c).0 ≡ ok t
      → (req : HttpRequest B) × (res : WireResponse) × Requests h verb_get
          (written_target path (M.entries params))
          req
        × AnsweredBy (length c.requests + h.performed) req res
        × (t ≡ res.body)
        × ((leb 400 res.result_int ≡ false) ⊎ IsNoError P.json res.body)
  public_get-Answered P h path params c t e =
      let (resp, p, same, fine) = (public_get-eq-ok (over B M net h P) path params c t).0 e in
      let (res, made, answer) =
        answer_of-Answered h (get path (M.entries params)) c.requests resp p in
      let (body, good) = IsReturned-build_response P h resp res made fine in
      (
        build_request B h.parsed_url h.api_key (sync_call (get path (M.entries params))),
        res,
        get-Requests h path (M.entries params),
        answer,
        same ∙ body,
        good,
      )
