-- ===== src/Ws/User/ListenKey.antt =====
-- Where the listen key of a started stream comes from, over the HTTP client.
use bintrade.Prelude.{
  ◌⊎◌, length, ◌+◌, ℕ, ◌≡◌, refl, ap, subst, sym, ◌∙◌, true, false, [], ◌∷◌, ◌++◌, ◌&&◌, Option,
  Text, str, Bool-cases, arith, inl, inr,
}
use bintrade.Core.Error.{Result, ok, err, terminated, ◌>>=◌, >>=-eq-ok}
use bintrade.Auth.Credentials.{has_credentials, api_key}
use bintrade.Rest.ParamMap.{UnorderedMap}
use bintrade.Rest.Response.{HttpResponse}
use bintrade.Rest.Parse.{check_api_error, parse_response}
use bintrade.Rest.Client.{Platform, post}
use bintrade.Rest.Http.{
  BeastFields, HttpRequest, WireResponse, build_request, sync_call, build_response, verb_post,
}
use bintrade.Rest.Http.Transport.{Network, HttpClient, over}
use bintrade.Rest.Http.Transport.Answers.{Requests, AnsweredBy, post-Requests, answer_of-Answered}
use bintrade.Ws.Socket.{Config}
use bintrade.Ws.Socket.Reuse.{guarded-eq-ok}
use bintrade.Ws.Socket.Paths.{connect-upgraded}
use bintrade.Ws.Queue.{is_queued}
use bintrade.Ws.User.{
  UserStream, start, with_key, connected, kept_alive, create_listen_key, request,
}
use bintrade.Ws.User.Lifecycle.{kept_alive-eq-ok}

-- The stream has this listen key, and its connection asks for the stream of the key.
abbrev pub Listens : Text → UserStream → Type 0
Listens key u = (u.listen_key ≡ key) × (u.socket.path ≡ str "/ws/" ++ key)

-- The listen key stands in this text, which is JSON; an empty text stands for null.
abbrev pub Names : Platform → Text → Text → Type 0
Names P body key =
    (j : P.json.Json) × (((body ≡ []) × (j ≡ P.json.null_json)) ⊎ (P.json.parse body ≡ ok j))
    × (P.json.value_text j (str "listenKey") [] ≡ ok key)

module _ (P : Platform) (cfg : Config) (int_text : ℕ → Text) where
  open P use {json, http}

  -- The stream listens, and told its transport this API key.
  abbrev Holds : Text → Text → UserStream → Type 0
  Holds k key u = Listens key u × (u.transport_key ≡ k)

  connected-Listens :
      (k : Text) (outcome : Option Text) (u : UserStream)
      → (kept_alive P cfg int_text (connected P cfg int_text outcome u)).0 ≡ ok tt
      → u.transport_key ≡ k
      → Holds k u.listen_key (kept_alive P cfg int_text (connected P cfg int_text outcome u)).1
  unfolding connected
  connected-Listens k outcome u e told =
      let (returned, same) = kept_alive-eq-ok P cfg int_text _ e in
      let (_, free) =
        guarded-eq-ok (is_queued u.dispatch_mode && u.consumer_running) terminated u _ tt
          returned in
      let (path, _) =
        connect-upgraded cfg int_text _ outcome u.socket (ap (λ r. r.0) (sym free) ∙ returned) in
      subst (λ r. Holds k u.listen_key r.1) (sym same)
        (subst
          (λ r.
            Holds k u.listen_key
              (record r.1 { stop_keep_alive = false; keep_alive_joinable = true }))
          (sym free)
          (elim (Bool-cases (is_queued u.dispatch_mode)) [
            | inl q ↦ rw q ((refl, path), told)
            | inr q ↦ rw q ((refl, path), told)
          ]))

  with_key-Listens :
      (k : Text) (outcome : Option Text) (answer : Result Text) (u : UserStream)
      → (with_key P cfg int_text outcome (answer, u)).0 ≡ ok tt
      → u.transport_key ≡ k
      → (key : Text) × (answer ≡ ok key)
        × Holds k key (with_key P cfg int_text outcome (answer, u)).1
  unfolding with_key
  with_key-Listens k outcome (err e) u h told = cc
  with_key-Listens k outcome (ok []) u h told = cc
  with_key-Listens k outcome (ok (b ∷ key)) u h told =
      (b ∷ key, refl, connected-Listens k outcome (record u { listen_key = b ∷ key }) h told)

  parse_response-parse :
      (status : ℕ) (body : Text) (j : json.Json)
      → parse_response json status body ≡ ok j
      → ((body ≡ []) × (j ≡ json.null_json)) ⊎ (json.parse body ≡ ok j)
  unfolding parse_response
  parse_response-parse status [] j h = inl (refl, ground (arith, h))
  parse_response-parse status (b ∷ body) j h =
      let (k, p, rest) = >>=-eq-ok (json.parse (b ∷ body)) _ h in
      let (_, _, same) = >>=-eq-ok (check_api_error json status k) _ rest in inr (p ∙ same)

  key_of :
      (answer : Result HttpResponse) (key : Text)
      → (answer >>= λ resp. parse_response json resp.status_code resp.body >>= λ j.
          json.value_text j (str "listenKey") [])
        ≡ ok key
      → (resp : HttpResponse) × (answer ≡ ok resp) × Names P resp.body key
  unfolding parse_response
  key_of (err e) key h = cc
  key_of (ok resp) key h =
      let (j, p, named) = >>=-eq-ok (parse_response json resp.status_code resp.body) _ h in
      (resp, refl, (j, parse_response-parse resp.status_code resp.body j p, named))

  start-Listens :
      (outcome : Option Text) (u : UserStream)
      → (start P cfg int_text outcome u).0 ≡ ok tt
      → (key : Text) × ((create_listen_key P (record u { started = true })).0 ≡ ok key)
        × Holds (api_key u.credentials) key (start P cfg int_text outcome u).1
  unfolding start create_listen_key request
  start-Listens outcome u h = elim (Bool-cases (has_credentials u.credentials)) [
    | inl there ↦ rw there (with_key-Listens _ outcome _ _ (rw there at h) refl)
    | inr missing ↦ ground (arith, h, missing)
  ]

-- If `start` returns over an HTTP client that has the API key which the stream told its transport: that
-- is the API key of the stream's credentials, and the network answered a POST request without a body to
-- the listen-key endpoint that carries it, in its first exchange or, where that one broke, in the
-- second; the listen key of the stream stands in the JSON of that answer (null, if it is empty), and
-- the connection asks for the stream of this key.
pub start-Answered :
    (B : BeastFields) (M : UnorderedMap) (net : Network B) (P : Platform) (cfg : Config)
    (int_text : ℕ → Text) (c : HttpClient) (outcome : Option Text) (u : UserStream)
    → let end = start (over B M net c P) cfg int_text outcome u in
      c.api_key ≡ end.1.transport_key
      → end.0 ≡ ok tt
      → (key : Text) × (req : HttpRequest B) × (res : WireResponse) × (c.api_key
          ≡ api_key u.credentials)
        × Requests B M net c verb_post (str "/api/v3/userDataStream") req
        × AnsweredBy B M net (length u.requests + c.performed) req res
        × Names P res.body key
        × Listens key end.1
unfolding create_listen_key request build_response
start-Answered B M net P cfg int_text c outcome u told e =
    let Q = over B M net c P in
    let sent = post (str "/api/v3/userDataStream") [] in
    let (key, created, (listens, kept)) = start-Listens Q cfg int_text outcome u e in
    let (resp, reply, names) = key_of Q cfg int_text _ key created in
    let (res, made, answer) = answer_of-Answered B M net c sent u.requests resp reply in
    (
      key,
      build_request B c.parsed_url c.api_key (sync_call sent),
      res,
      told ∙ kept,
      post-Requests B M net c (str "/api/v3/userDataStream"),
      answer,
      subst (λ r. Names P r.body key) made names,
      listens,
    )
