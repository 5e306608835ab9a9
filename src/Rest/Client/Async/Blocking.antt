-- ===== src/Rest/Client/Async/Blocking.antt =====
-- A coroutine that nothing runs beside is the blocking call.
use bintrade.Prelude.{◌≡◌, refl, ◌∙◌, ap, sym, ◌∷◌, Text, inl, inr}
use bintrade.Core.Error.{Result, ok, err, Result-cases, bound}
use bintrade.Rest.Parse.{parse_response}
use bintrade.Rest.Client.{
  Platform, Client, Request, Act, after, ◌>>=◌, ◌>>◌, lift, transport, update_rate_limits, body_of,
  ping, server_time, public_get, signed_get, signed_post, signed_delete, sign_params,
}
use bintrade.Rest.Client.Async.{
  Started, done, waiting, Coroutine, resume, awaited, passed_on, co_await,
}
use bintrade.Rest.Client.Async.Calls.{
  served, async_ping, async_server_time, async_public_get, start_signed, async_signed_get,
  async_signed_post, async_signed_delete,
}

module _ (P : Platform) where
  open P use {json, map, http}
  open json use {Json}
  open map use {Map, entries}

  -- The default `async_get`, `async_post` and `async_del` of a transport call `get`, `post` and `del`, so
  -- the wait is over with the blocking answer.
  pub finish {ℓ} : {A : Type ℓ} → Started A → Act A
  finish (done r) c = (r, c)
  finish (waiting r k) c = resume k (http (r ∷ c.requests)) (record c { requests = r ∷ c.requests })

  -- `sync_await`, where nothing else runs: the coroutine goes to its end, and the caller waits for it.
  pub run_blocking {ℓ} : {A : Type ℓ} → Coroutine A → Act A
  unfolding finish
  run_blocking co c = finish (co c) c

  finish-start_signed :
      (request_of : Map → Request) (signing : Result Map) (c : Client)
      → finish (start_signed P request_of signing) c
        ≡ after
            (signing, c)
            (λ ps. transport P (request_of ps) >>= λ resp.
              update_rate_limits P resp >> lift (body_of P resp))
  unfolding finish start_signed served ◌>>=◌ transport
  finish-start_signed request_of (ok ps) c = refl
  finish-start_signed request_of (err e) c = refl

  -- Where nothing runs during the wait, each coroutine of the client gives the result and leaves the
  -- client behind that its blocking namesake does, errors included.
  pub run_blocking-eq :
      (path : Text) (params : Map) (c : Client)
      → (run_blocking (async_ping P) c ≡ ping P c)
        × (run_blocking (async_server_time P) c ≡ server_time P c)
        × (run_blocking (async_public_get P path params) c ≡ public_get P path params c)
        × (run_blocking (async_signed_get P path params) c ≡ signed_get P path params c)
        × (run_blocking (async_signed_post P path params) c ≡ signed_post P path params c)
        × (run_blocking (async_signed_delete P path params) c ≡ signed_delete P path params c)
  unfolding run_blocking finish async_ping async_server_time async_public_get async_signed_get
      async_signed_post async_signed_delete ping server_time public_get signed_get signed_post
      signed_delete transport ◌>>=◌ served sign_params
  run_blocking-eq path params c = (
    refl,
    refl,
    refl,
    finish-start_signed _ _ c,
    finish-start_signed _ _ c,
    finish-start_signed _ _ c,
  )

  passed_on-after {ℓ κ} :
      {A : Type ℓ} {B : Type κ} (f : A → Result B) (x : Result A × Client)
      → passed_on f x ≡ after x (λ a. lift (f a))
  unfolding passed_on after
  passed_on-after f (ok a, c) = refl
  passed_on-after f (err e, c) = refl

  -- A caller that awaits a coroutine.
  finish-awaited {ℓ κ} :
      {A : Type ℓ} {B : Type κ} (f : A → Result B) (st : Started A) (c : Client)
      → finish (awaited f st) c ≡ after (finish st c) (λ a. lift (f a))
  unfolding finish awaited after passed_on
  finish-awaited f (done (ok a)) c = refl
  finish-awaited f (done (err e)) c = refl
  finish-awaited f (waiting r k) c = elim (Result-cases (http (r ∷ c.requests))) [
    | inl (resp, p) ↦ rw p (passed_on-after f (k resp (record c { requests = r ∷ c.requests })))
    | inr (e, p) ↦ rw p refl
  ]

  after-after {ℓ κ} :
      {A : Type ℓ} {B : Type κ} (r : Result A) (p : A → Result B) (c : Client)
      → after (r, c) (λ a. lift (p a)) ≡ (bound r p, c)
  unfolding after
  after-after (ok a) p c = refl
  after-after (err e) p c = refl

  -- A blocking call and its coroutine, each with the same rest behind it.
  pub run_blocking-awaited {ℓ κ} :
      {A : Type ℓ} {B : Type κ} (co : Coroutine A) (m : Act A) (f : A → Result B) (c : Client)
      → run_blocking co c ≡ m c
      → run_blocking (co_await co f) c ≡ (m >>= λ a. lift (f a)) c
  unfolding run_blocking co_await ◌>>=◌
  run_blocking-awaited co m f c e =
      finish-awaited f (co c) c ∙ ap (λ x. after x (λ a. lift (f a))) e

  -- A blocking call that parses the body that a helper returns, and the coroutine that awaits the
  -- coroutine of the same helper and parses its body.
  pub run_blocking-co_await {ℓ κ} :
      {J : Type κ} {A : Type ℓ} (co : Coroutine Text) (m : Act Text) (parse : Text → Result J)
      (read : J → Result A) (c : Client)
      → run_blocking co c ≡ m c
      → run_blocking (co_await co (λ body. bound (parse body) read)) c
        ≡ (m >>= λ body. lift (parse body) >>= λ j. lift (read j)) c
  unfolding run_blocking co_await ◌>>=◌
  run_blocking-co_await co m parse read c e =
      run_blocking-awaited co m (λ body. bound (parse body) read) c e ∙ after-parse (m c)
    where
      after-parse :
          (x : Result Text × Client)
          → after x (λ body. lift (bound (parse body) read))
            ≡ after x (λ body. lift (parse body) >>= λ j. lift (read j))
      after-parse (ok body, d) = sym (after-after (parse body) read d)
      after-parse (err e, d) = refl

  pub signed_get-blocking :
      (path : Text) (params : Map) (c : Client)
      → run_blocking (async_signed_get P path params) c ≡ signed_get P path params c
  signed_get-blocking path params c = (run_blocking-eq path params c).3

  pub signed_post-blocking :
      (path : Text) (params : Map) (c : Client)
      → run_blocking (async_signed_post P path params) c ≡ signed_post P path params c
  signed_post-blocking path params c = (run_blocking-eq path params c).4

  pub signed_delete-blocking :
      (path : Text) (params : Map) (c : Client)
      → run_blocking (async_signed_delete P path params) c ≡ signed_delete P path params c
  signed_delete-blocking path params c = (run_blocking-eq path params c).5

  pub public_get-blocking :
      (path : Text) (params : Map) (c : Client)
      → run_blocking (async_public_get P path params) c ≡ public_get P path params c
  public_get-blocking path params c = (run_blocking-eq path params c).2

  -- The calls that parse the body of an answer.
  pub public_get-parsed {ℓ} :
      {A : Type ℓ} (path : Text) (params : Map) (read : Json → Result A) (c : Client)
      → run_blocking
          (co_await
            (async_public_get P path params)
            (λ body. bound (parse_response json 200 body) read))
          c
        ≡ (public_get P path params >>= λ body.
              lift (parse_response json 200 body) >>= λ j. lift (read j))
            c
  public_get-parsed path params read c =
      run_blocking-co_await (async_public_get P path params) (public_get P path params)
        (parse_response json 200) read c (public_get-blocking path params c)

  pub signed_get-parsed {ℓ} :
      {A : Type ℓ} (path : Text) (params : Map) (read : Json → Result A) (c : Client)
      → run_blocking
          (co_await
            (async_signed_get P path params)
            (λ body. bound (parse_response json 200 body) read))
          c
        ≡ (signed_get P path params >>= λ body.
              lift (parse_response json 200 body) >>= λ j. lift (read j))
            c
  signed_get-parsed path params read c =
      run_blocking-co_await (async_signed_get P path params) (signed_get P path params)
        (parse_response json 200) read c (signed_get-blocking path params c)

  pub signed_post-parsed {ℓ} :
      {A : Type ℓ} (path : Text) (params : Map) (read : Json → Result A) (c : Client)
      → run_blocking
          (co_await
            (async_signed_post P path params)
            (λ body. bound (parse_response json 200 body) read))
          c
        ≡ (signed_post P path params >>= λ body.
              lift (parse_response json 200 body) >>= λ j. lift (read j))
            c
  signed_post-parsed path params read c =
      run_blocking-co_await (async_signed_post P path params) (signed_post P path params)
        (parse_response json 200) read c (signed_post-blocking path params c)

  pub signed_delete-parsed {ℓ} :
      {A : Type ℓ} (path : Text) (params : Map) (read : Json → Result A) (c : Client)
      → run_blocking
          (co_await
            (async_signed_delete P path params)
            (λ body. bound (parse_response json 200 body) read))
          c
        ≡ (signed_delete P path params >>= λ body.
              lift (parse_response json 200 body) >>= λ j. lift (read j))
            c
  signed_delete-parsed path params read c =
      run_blocking-co_await (async_signed_delete P path params) (signed_delete P path params)
        (parse_response json 200) read c (signed_delete-blocking path params c)
