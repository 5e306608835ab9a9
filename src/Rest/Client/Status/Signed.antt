-- ===== src/Rest/Client/Status/Signed.antt =====
-- What a signed request carries.
use bintrade.Prelude.{
  ◌≡◌, ◌∙◌, refl, [], ◌∷◌, Option, some, Text, str, lookup, text_eq, if◌then◌else◌, inl, inr,
}
use bintrade.Core.Error.{Result-cases}
use bintrade.Auth.Credentials.{Credentials, api_secret}
use bintrade.Auth.Signer.{sign_parameters, sign}
use bintrade.Rest.Query.{append_params}
use bintrade.Rest.Client.{
  Platform, Client, get, transport, ◌>>=◌, ◌>>◌, update_rate_limits, after, signed_get, sign_params,
  signed,
}

module _ (P : Platform) where
  open P use {map, hmac_sha256, int_text, now, http}
  open map use {Map, assign, entries, lookup-assign}

  -- The parameters that are signed.
  abbrev pub timed : Map → Client → Map
  timed params c = assign params (str "timestamp") (int_text (now c.requests))

  -- The value that a signed request carries under a key.
  abbrev pub carried : Credentials → Map → Client → Text → Option Text
  carried creds params c key =
      if text_eq (str "signature") key
      then some (
          sign map hmac_sha256 int_text (api_secret creds)
            (append_params [] (entries (timed params c))))
      else if text_eq (str "timestamp") key
      then some (int_text (now c.requests))
      else lookup key (entries params)

  -- With credentials, `signed_get` sends exactly one request, a GET of the path, and it carries
  -- under `signature` the signature of the timed parameters, under `timestamp` the time, and under
  -- any other key what the caller gave.
  pub signed_get-requests :
      (path : Text) (params : Map) (creds : Credentials) (c : Client)
      → c.credentials ≡ some creds
      → (sent : Map) × ((signed_get P path params c).1.requests
          ≡ get path (entries sent) ∷ c.requests)
        × ((key : Text) → lookup key (entries sent) ≡ carried creds params c key)
  unfolding signed_get sign_params signed ◌>>=◌ ◌>>◌ update_rate_limits transport after
      sign_parameters
  signed_get-requests path params creds c h = (
    sign_parameters map hmac_sha256 int_text (api_secret creds) (now c.requests) params,
    rw h
        (elim (Result-cases (
          http (
            get path (
              entries (
                sign_parameters map hmac_sha256 int_text (api_secret creds) (now c.requests)
                  params))
            ∷ c.requests))) [ inl (resp, p) ↦ rw p refl | inr (e, p) ↦ rw p refl ]),
    λ key.
        lookup-assign (timed params c) _ _ key
        ∙ rw (lookup-assign params (str "timestamp") _ key) refl,
  )
