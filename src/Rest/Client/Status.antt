-- ===== src/Rest/Client/Status.antt =====
-- Which responses a call of the client returns, and what a signed request carries.
pub mod Signed
use bintrade.Prelude.{
  ℕ, ◌≡◌, ◌↔◌, ◌⊎◌, inl, inr, refl, sym, leb, Bool, true, false, ◌∷◌, Text, Bool-cases, arith, ◌∙◌,
  ap,
}
use bintrade.Core.Error.{Result, ok, err, Error, Result-cases}
use bintrade.Rest.Response.{HttpResponse}
use bintrade.Rest.Parse.{parse_response}
use bintrade.Rest.Parse.Errors.{IsNoError, parse_response-eq-ok}
use bintrade.Rest.ParamMap.{UnorderedMap}
use bintrade.Rest.Client.{
  Platform, Client, get, body_of, checked, public_get, ◌>>=◌, ◌>>◌, update_rate_limits, transport,
  after,
}

module _ (P : Platform) where
  open P use {json, map, http}
  open map use {Map, entries}

  -- What a caller gets as a value: any response below 400, and an error response whose body is JSON
  -- but no error object.
  abbrev pub IsReturned : HttpResponse → Type 0
  IsReturned resp = (leb 400 resp.status_code ≡ false) ⊎ IsNoError json resp.body

  pub body_of-eq-ok :
      (resp : HttpResponse) (t : Text)
      → (body_of P resp ≡ ok t) ↔ ((t ≡ resp.body) × IsReturned resp)
  unfolding body_of
  body_of-eq-ok resp t = (to, from)
    where
      to : body_of P resp ≡ ok t → (t ≡ resp.body) × IsReturned resp
      to e = elim (Bool-cases (leb 400 resp.status_code)) [
        | inl bad ↦ elim (Result-cases (parse_response json resp.status_code resp.body)) [
          | inl (j, p) ↦ (
            ground (arith, e, p),
            inr ((parse_response-eq-ok json resp.status_code resp.body bad).0 (j, p)),
          )
          | inr (x, p) ↦ ground (arith, e, p)
        ]
        | inr good ↦ (ground (arith, e), inl good)
      ]

      from : (t ≡ resp.body) × IsReturned resp → body_of P resp ≡ ok t
      from (same, inl good) = ground (arith, same)
      from (same, inr fine) = elim (Bool-cases (leb 400 resp.status_code)) [
        | inl bad ↦
            let (j, p) = (parse_response-eq-ok json resp.status_code resp.body bad).1 fine in
            ground (arith, same, p)
        | inr good ↦ ground (arith, same)
      ]

  -- `public_get` returns a text exactly when the transport answers its one request with a response
  -- of that body which either is below 400, or has a JSON body that is no error object of Binance.
  pub public_get-eq-ok :
      (path : Text) (params : Map) (c : Client) (t : Text)
      → ((public_get P path params c).0 ≡ ok t) ↔ (
          (resp : HttpResponse) × (http (get path (entries params) ∷ c.requests) ≡ ok resp)
          × (t ≡ resp.body)
          × IsReturned resp)
  unfolding public_get ◌>>=◌ ◌>>◌ update_rate_limits transport after
  public_get-eq-ok path params c t = (to, from)
    where
      answered :
          (resp : HttpResponse)
          → http (get path (entries params) ∷ c.requests) ≡ ok resp
          → (public_get P path params c).0 ≡ body_of P resp
      answered resp p = rw p refl

      to :
          (public_get P path params c).0 ≡ ok t
          → (resp : HttpResponse) × (http (get path (entries params) ∷ c.requests) ≡ ok resp)
            × (t ≡ resp.body)
            × IsReturned resp
      to e = elim (Result-cases (http (get path (entries params) ∷ c.requests))) [
        | inl (resp, p) ↦
            let (same, fine) = (body_of-eq-ok resp t).0 (sym (answered resp p) ∙ e) in
            (resp, p, same, fine)
        | inr (x, p) ↦ ground (arith, e, p)
      ]

      from :
          ((resp : HttpResponse) × (http (get path (entries params) ∷ c.requests) ≡ ok resp)
            × (t ≡ resp.body)
            × IsReturned resp)
          → (public_get P path params c).0 ≡ ok t
      from (resp, p, same, fine) = answered resp p ∙ (body_of-eq-ok resp t).1 (same, fine)
