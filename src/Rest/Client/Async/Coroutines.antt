-- ===== src/Rest/Client/Async/Coroutines.antt =====
-- The six coroutines of a client as one type of call, and what each of them does behind its wait.
use bintrade.Prelude.{ℤ, pos, ◌≡◌, refl, ap, sym, ◌∙◌, Bool, Text, str}
use bintrade.Core.Error.{Result, ok, err}
use bintrade.Rest.Response.{HttpResponse}
use bintrade.Rest.Client.{
  Platform, Client, Request, Act, update_rate_limits, ◌>>=◌, ◌>>◌, after, lift,
}
use bintrade.Rest.Parse.{parse_response}
use bintrade.Rest.Client.Limits.{
  Call, ping_call, server_time_call, public_get_call, signed_get_call, signed_post_call,
  signed_delete_call,
}
use bintrade.Rest.Client.Async.{Started, done, waiting, Coroutine, co_await, awaited, passed_on}
use bintrade.Rest.Client.Async.Calls.{
  served, async_ping, async_server_time, async_public_get, start_signed, async_signed_get,
  async_signed_post, async_signed_delete,
}

-- What a coroutine returns.
pub data Answer : Type 0 where
  text_answer : Text → Answer
  ping_answer : Bool → Answer
  time_answer : ℤ → Answer

module _ (P : Platform) where
  open P use {map, json}
  open map use {Map}

  -- A coroutine of the client, for the call of the same name.
  pub coroutine_of : Call P → Coroutine Answer
  unfolding co_await
  coroutine_of ping_call = co_await (async_ping P) (λ b. ok (ping_answer b))
  coroutine_of server_time_call = co_await (async_server_time P) (λ n. ok (time_answer n))
  coroutine_of (public_get_call path params) =
      co_await (async_public_get P path params) (λ t. ok (text_answer t))
  coroutine_of (signed_get_call path params) =
      co_await (async_signed_get P path params) (λ t. ok (text_answer t))
  coroutine_of (signed_post_call path params) =
      co_await (async_signed_post P path params) (λ t. ok (text_answer t))
  coroutine_of (signed_delete_call path params) =
      co_await (async_signed_delete P path params) (λ t. ok (text_answer t))

  -- What waits updates the counters, and its result is that of its response, whatever the client.
  unfoldable pub Updates : (HttpResponse → Act Answer) → Type 0
  Updates k =
      (resp : HttpResponse) (c d : Client)
      → ((k resp c).1 ≡ (update_rate_limits P resp c).1) × ((k resp c).0 ≡ (k resp d).0)

  -- What waits behind these steps of a coroutine.
  unfoldable pub IsServed {ℓ} : {A : Type ℓ} → Started A → Type ℓ
  IsServed (done r) = Unit
  IsServed {A} (waiting r k) =
      (resp : HttpResponse) (c d : Client)
      → ((k resp c).1 ≡ (update_rate_limits P resp c).1) × ((k resp c).0 ≡ (k resp d).0)

  fed : {A : Type 0} {B : Type 0} → (A → Result B) → Result A → Result B
  fed f (ok a) = f a
  fed f (err e) = err e

  passed_on-fields :
      {A : Type 0} (f : A → Result Answer) (x : Result A × Client)
      → ((passed_on f x).1 ≡ x.1) × ((passed_on f x).0 ≡ fed f x.0)
  unfolding passed_on fed
  passed_on-fields f (ok a, c) = (refl, refl)
  passed_on-fields f (err e, c) = (refl, refl)

  awaited-IsServed :
      {A : Type 0} (f : A → Result Answer) (st : Started A) → IsServed st → IsServed (awaited f st)
  unfolding awaited IsServed
  awaited-IsServed f (done r) w = tt
  awaited-IsServed f (waiting r k) w = λ resp c d.
      let (state, result) = passed_on-fields f (k resp c) in
      let (kept, same) = w resp c d in
      (state ∙ kept, result ∙ ap (fed f) same ∙ sym (passed_on-fields f (k resp d)).1)

  start_signed-IsServed :
      (request_of : Map → Request) (r : Result Map) → IsServed (start_signed P request_of r)
  unfolding start_signed IsServed served ◌>>◌ ◌>>=◌ after update_rate_limits
  start_signed-IsServed request_of (ok params) = λ resp c d. (refl, refl)
  start_signed-IsServed request_of (err e) = tt

  after-lift :
      {A : Type 0} {B : Type 0} (r : Result A) (f : A → Result B) (c : Client)
      → ((after (r, c) (λ a. lift (f a))).1 ≡ c) × ((after (r, c) (λ a. lift (f a))).0 ≡ fed f r)
  unfolding after fed
  after-lift (ok a) f c = (refl, refl)
  after-lift (err e) f c = (refl, refl)

  server_time-fields :
      (resp : HttpResponse) (c : Client)
      → let value = λ (j : json.Json). json.value_int j (str "serverTime") (pos 0) in
        let answer = parse_response json resp.status_code resp.body in
        ((after (answer, c) (λ j. lift (value j))).1 ≡ c)
        × ((after (answer, c) (λ j. lift (value j))).0 ≡ fed value answer)
  server_time-fields resp c =
      after-lift (parse_response json resp.status_code resp.body)
        (λ j. json.value_int j (str "serverTime") (pos 0)) c

  async_server_time-IsServed : (c : Client) → IsServed (async_server_time P c)
  unfolding IsServed async_server_time ◌>>◌ ◌>>=◌ update_rate_limits after
  async_server_time-IsServed c = λ resp c d. (
    (server_time-fields resp (update_rate_limits P resp c).1).0,
    (server_time-fields resp (update_rate_limits P resp c).1).1
        ∙ sym (server_time-fields resp (update_rate_limits P resp d).1).1,
  )

  async_ping-IsServed : (c : Client) → IsServed (async_ping P c)
  unfolding IsServed async_ping ◌>>◌ ◌>>=◌ update_rate_limits after
  async_ping-IsServed c = λ resp c d. (refl, refl)

  async_public_get-IsServed :
      (path : Text) (params : Map) (c : Client) → IsServed (async_public_get P path params c)
  unfolding IsServed async_public_get served ◌>>◌ ◌>>=◌ update_rate_limits after
  async_public_get-IsServed path params c = λ resp c d. (refl, refl)

  pub coroutine_of-IsServed : (call : Call P) (c : Client) → IsServed (coroutine_of call c)
  unfolding coroutine_of co_await async_ping async_public_get async_signed_get async_signed_post
      async_signed_delete
  coroutine_of-IsServed ping_call c = awaited-IsServed _ (async_ping P c) (async_ping-IsServed c)
  coroutine_of-IsServed server_time_call c =
      awaited-IsServed _ (async_server_time P c) (async_server_time-IsServed c)
  coroutine_of-IsServed (public_get_call path params) c =
      awaited-IsServed _ (async_public_get P path params c)
        (async_public_get-IsServed path params c)
  coroutine_of-IsServed (signed_get_call path params) c =
      awaited-IsServed _ (async_signed_get P path params c) (start_signed-IsServed _ _)
  coroutine_of-IsServed (signed_post_call path params) c =
      awaited-IsServed _ (async_signed_post P path params c) (start_signed-IsServed _ _)
  coroutine_of-IsServed (signed_delete_call path params) c =
      awaited-IsServed _ (async_signed_delete P path params c) (start_signed-IsServed _ _)
