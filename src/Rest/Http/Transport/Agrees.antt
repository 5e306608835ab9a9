-- ===== src/Rest/Http/Transport/Agrees.antt =====
-- The HTTP client answers as the client with one connection.
use bintrade.Prelude.{ℕ, ◌≡◌, refl, inl, inr, List, [], ◌∷◌, Text, arith}
use bintrade.Core.Config.{RestConfig}
use bintrade.Core.Error.{ok, Result-cases}
use bintrade.Rest.ParamMap.{UnorderedMap}
use bintrade.Rest.Url.{parse_url}
use bintrade.Rest.Client.{Request}
use bintrade.Rest.Pool.Request.{execute}
use bintrade.Rest.Http.{BeastFields}
use bintrade.Rest.Http.Transport.Answers.{attempt_of-after}
use bintrade.Rest.Http.Transport.{
  Network, HttpClient, make_http_client, set_api_key, perform, attempt_of, client_after, answer_of,
}
use bintrade.Rest.Http.Transport.Sequential.{step_once, open_after}
use bintrade.Rest.Http.Transport.OneConnection.{Stands, StandsFor, execute-StandsFor-at}

module _ (B : BeastFields) (M : UnorderedMap) (net : Network B) where
  make_http_client-slots :
      (config : RestConfig) (pool_size : ℕ) (c : HttpClient)
      → make_http_client config pool_size ≡ ok c
      → c.pool.slots ≡ []
  unfolding make_http_client
  make_http_client-slots config pool_size c e = elim (Result-cases (parse_url config.base_url)) [
    | inl (url, p) ↦ ground (arith, e, p)
    | inr (x, p) ↦ ground (arith, e, p)
  ]

  execute-step_once :
      (c : HttpClient) (r : Request) (rs : List Request)
      → Stands (open_after B M net c rs) (client_after B M net c rs).pool
        × ((client_after B M net c rs).pool.pool_size ≡ c.pool.pool_size)
      → StandsFor c.pool.pool_size (step_once B M net c rs r (open_after B M net c rs)) (
          execute
            (attempt_of B M net (client_after B M net c rs) r)
            (client_after B M net c rs).pool)
  execute-step_once c r rs (stands, size) =
      let (connect, outcome) = attempt_of-after B M net c rs r 0 in
      execute-StandsFor-at _ _ _ stands connect outcome size

  client_after-Stands :
      (c : HttpClient) (rs : List Request)
      → c.pool.slots ≡ []
      → Stands (open_after B M net c rs) (client_after B M net c rs).pool
        × ((client_after B M net c rs).pool.pool_size ≡ c.pool.pool_size)
  unfolding client_after perform
  client_after-Stands c [] e = (e, refl)
  client_after-Stands c (r ∷ rs) e =
      let (_, stands, size) = execute-step_once c r rs (client_after-Stands c rs e) in
      (stands, size)

  -- A new client that has its requests one after another answers as a client with one connection and
  -- no retry: the caller gets what the first exchange for the request gives, an error of it in a
  -- NetworkException, or what connecting throws where no connection was left open. The connection
  -- stays open behind a response that keeps it alive, if the pool size is not 0.
  pub answer_of-make_http_client :
      (config : RestConfig) (api_key : Text) (pool_size : ℕ) (c : HttpClient) (r : Request)
      (rs : List Request)
      → make_http_client config pool_size ≡ ok c
      → answer_of B M net (set_api_key api_key c) (r ∷ rs)
        ≡ (step_once B M net
            (set_api_key api_key c)
            rs
            r
            (open_after B M net (set_api_key api_key c) rs)).0
  unfolding answer_of perform set_api_key
  answer_of-make_http_client config api_key pool_size c r rs e =
      let fresh = set_api_key api_key c in
      let empty = make_http_client-slots config pool_size c e in
      (execute-step_once fresh r rs (client_after-Stands fresh rs empty)).0
