-- ===== src/Rest/Client/Limits.antt =====
-- The rate-limit counters over any sequence of calls.
use bintrade.Prelude.{
  ℤ, pos, negsuc, none, some, ap, ◌∙◌, sym, subst, ◌≡◌, refl, List, [], ◌∷◌, Option, Text, str,
  lookup, ◌==◌, inl, inr,
}
use bintrade.Core.Error.{Result, ok, err, Result-cases, Error}
use bintrade.Auth.Credentials.{Credentials}
use bintrade.Rest.Query.{append_params}
use bintrade.Rest.Parse.{parse_response}
use bintrade.Rest.Response.{HttpResponse}
use bintrade.Rest.Client.{
  Platform, Client, Act, after, make_client, Request, counter, limit_of, ping, server_time,
  public_get, signed_get, signed_post, signed_delete, ◌>>=◌, ◌>>◌, update_rate_limits, transport,
  sign_params, get, post, del, body_of,
}

abbrev pub or_older : Option Text → Option Text → Option Text
or_older (some text) older = some text
or_older none older = older

-- The text of a header in the newest response that carries it.
abbrev pub newest_header : Text → List HttpResponse → Option Text
newest_header name [] = none
newest_header name (resp ∷ older) = or_older (lookup name resp.headers) (newest_header name older)

abbrev pub number_of : Option ℤ → ℤ
number_of (some n) = n
number_of none = negsuc 0

module _ (P : Platform) where
  open P use {json, map, http, stoi}
  open map use {Map, empty, entries}

  -- What a counter says after that: 0 without a header, -1 where its text is no number.
  abbrev pub header_value : Option Text → ℤ
  header_value none = pos 0
  header_value (some text) = number_of (stoi text)

  limit_of-eq : (n : Option ℤ) → limit_of n ≡ number_of n
  limit_of-eq none = refl
  limit_of-eq (some n) = refl

  pub counter-or_older :
      (found older : Option Text)
      → counter P found (header_value older) ≡ header_value (or_older found older)
  unfolding counter
  counter-or_older none older = refl
  counter-or_older (some text) older = limit_of-eq (stoi text)

  -- The calls that the client offers, with their arguments.
  pub data Call : Type 0 where
    ping_call server_time_call : Call
    public_get_call signed_get_call signed_post_call signed_delete_call : Text → Map → Call

  -- The client behind a call, whether it returned or threw.
  pub perform : Client → Call → Client
  perform c ping_call = (ping P c).1
  perform c server_time_call = (server_time P c).1
  perform c (public_get_call path params) = (public_get P path params c).1
  perform c (signed_get_call path params) = (signed_get P path params c).1
  perform c (signed_post_call path params) = (signed_post P path params c).1
  perform c (signed_delete_call path params) = (signed_delete P path params c).1

  pub perform_all : Client → List Call → Client
  perform_all c [] = c
  perform_all c (x ∷ xs) = perform_all (perform c x) xs

  -- The responses among the answers to these requests, newest first.
  responses_of : Result HttpResponse → List HttpResponse → List HttpResponse
  responses_of (ok resp) older = resp ∷ older
  responses_of (err e) older = older

  pub responses : List Request → List HttpResponse
  unfolding responses_of
  responses [] = []
  responses (r ∷ rs) = responses_of (http (r ∷ rs)) (responses rs)

  pub latest : Text → List Request → ℤ
  latest name rs = header_value (newest_header name (responses rs))

  responses-ok :
      (r : Request) (rs : List Request) {resp : HttpResponse}
      → http (r ∷ rs) ≡ ok resp
      → responses (r ∷ rs) ≡ resp ∷ responses rs
  unfolding responses responses_of
  responses-ok r rs e = ap (λ answer. responses_of answer (responses rs)) e

  responses-err :
      (r : Request) (rs : List Request) {x : Error}
      → http (r ∷ rs) ≡ err x
      → responses (r ∷ rs) ≡ responses rs
  unfolding responses responses_of
  responses-err r rs e = ap (λ answer. responses_of answer (responses rs)) e

  -- The three counters are what the newest responses say.
  pub Tracks : Client → Type 0
  Tracks c =
      (c.used_weight_1m ≡ latest (str "x-mbx-used-weight-1m") c.requests)
      × (c.order_count_10s ≡ latest (str "x-mbx-order-count-10s") c.requests)
      × (c.order_count_1d ≡ latest (str "x-mbx-order-count-1d") c.requests)

  -- What follows a value that was computed without a request.
  after-Tracks {ℓ κ} :
      {A : Type ℓ} {B : Type κ} (r : Result A) (c : Client) (f : A → Act B)
      → Tracks c
      → ((a : A) → Tracks (f a c).1)
      → Tracks (after (r, c) f).1
  unfolding after
  after-Tracks (ok a) c f h k = k a
  after-Tracks (err e) c f h k = h

  answered-Tracks :
      (r : Request) (resp : HttpResponse) (c : Client)
      → http (r ∷ c.requests) ≡ ok resp
      → Tracks c
      → Tracks (update_rate_limits P resp (record c { requests = r ∷ c.requests })).1
  unfolding Tracks latest update_rate_limits
  answered-Tracks r resp c eq (h, h', h'') = (after _ h, after _ h', after _ h'')
    where
      after :
          (name : Text) {old : ℤ}
          → old ≡ latest name c.requests
          → counter P (lookup name resp.headers) old ≡ latest name (r ∷ c.requests)
      after name e =
          ap (counter P (lookup name resp.headers)) e
          ∙ counter-or_older (lookup name resp.headers) (newest_header name (responses c.requests))
          ∙ ap (λ rs. header_value (newest_header name rs)) (sym (responses-ok r c.requests eq))

  failed-Tracks :
      (r : Request) (e : Error) (c : Client)
      → http (r ∷ c.requests) ≡ err e
      → Tracks c
      → Tracks (record c { requests = r ∷ c.requests })
  unfolding Tracks latest
  failed-Tracks r e c eq h =
      subst
        (λ rs.
          (c.used_weight_1m ≡ header_value (newest_header (str "x-mbx-used-weight-1m") rs))
          × (c.order_count_10s ≡ header_value (newest_header (str "x-mbx-order-count-10s") rs))
          × (c.order_count_1d ≡ header_value (newest_header (str "x-mbx-order-count-1d") rs)))
        (sym (responses-err r c.requests eq)) h

  -- One request, and what follows on an answer.
  round-Tracks {ℓ} :
      {A : Type ℓ} (r : Request) (f : HttpResponse → Act A) (c : Client)
      → Tracks c
      → ((resp : HttpResponse) (d : Client) → Tracks d → Tracks (f resp d).1)
      → Tracks ((transport P r >>= λ resp. update_rate_limits P resp >> f resp) c).1
  unfolding ◌>>=◌ ◌>>◌ transport update_rate_limits
  round-Tracks r f c h k = elim (Result-cases (http (r ∷ c.requests))) [
    | inl (resp, eq) ↦ rw eq (
        k resp (update_rate_limits P resp (record c { requests = r ∷ c.requests })).1
          (answered-Tracks r resp c eq h))
    | inr (e, eq) ↦ rw eq (failed-Tracks r e c eq h)
  ]

  signed_round-Tracks :
      (m : Map → Request) (params : Map) (c : Client)
      → Tracks c
      → Tracks
          ((sign_params P params >>= λ ps.
              transport P (m ps) >>= λ resp. update_rate_limits P resp >> λ d. (body_of P resp, d))
            c).1
  unfolding ◌>>=◌ sign_params
  signed_round-Tracks m params c h =
      after-Tracks {B = Text} (sign_params P params c).0 c
        (λ ps. transport P (m ps) >>= λ resp. update_rate_limits P resp >> λ d. (body_of P resp, d))
        h λ ps. round-Tracks (m ps) (λ resp d. (body_of P resp, d)) c h λ resp d h. h

  perform-Tracks : (x : Call) (c : Client) → Tracks c → Tracks (perform c x)
  unfolding perform ping server_time public_get signed_get signed_post signed_delete ◌>>=◌ ◌>>◌
  perform-Tracks ping_call c h =
      round-Tracks (get (str "/api/v3/ping") (entries empty))
        (λ resp d. (ok (resp.status_code == 200), d)) c h (λ resp d h. h)
  perform-Tracks server_time_call c h =
      round-Tracks (get (str "/api/v3/time") (entries empty)) _ c h
        λ resp d h. after-Tracks (parse_response json resp.status_code resp.body) d _ h λ j. h
  perform-Tracks (public_get_call path params) c h =
      round-Tracks (get path (entries params)) (λ resp d. (body_of P resp, d)) c h (λ resp d h. h)
  perform-Tracks (signed_get_call path params) c h =
      signed_round-Tracks (λ ps. get path (entries ps)) params c h
  perform-Tracks (signed_post_call path params) c h =
      signed_round-Tracks (λ ps. post path (append_params [] (entries ps))) params c h
  perform-Tracks (signed_delete_call path params) c h =
      signed_round-Tracks (λ ps. del path (entries ps)) params c h

  perform_all-Tracks : (xs : List Call) (c : Client) → Tracks c → Tracks (perform_all c xs)
  unfolding perform_all
  perform_all-Tracks [] c h = h
  perform_all-Tracks (x ∷ xs) c h = perform_all-Tracks xs (perform c x) (perform-Tracks x c h)

  -- However a new client is used, each counter is what the newest response with its header said (-1
  -- where the text was no number), and 0 before the first one. Calls that throw count too.
  pub perform_all-make_client :
      (creds : Option Credentials) (xs : List Call) → Tracks (perform_all (make_client creds) xs)
  unfolding Tracks latest responses make_client
  perform_all-make_client creds xs = perform_all-Tracks xs (make_client creds) (refl, refl, refl)
