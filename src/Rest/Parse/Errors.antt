-- ===== src/Rest/Parse/Errors.antt =====
-- Which bodies the response check lets pass.
use bintrade.Prelude.{
  ℕ, ◌≡◌, ◌≢◌, ◌↔◌, inl, inr, refl, leb, Bool, true, false, ◌&&◌, [], ◌∷◌, Text, str, Bool-cases,
  arith,
}
use bintrade.Core.Error.{ok, err, Error, >>=-err, >>=-eq-ok}
use bintrade.Json.{JsonLib}
use bintrade.Rest.Parse.{parse_response, check_api_error, throw_api_error}

module _ (L : JsonLib) where
  open L use {Json, parse, null_json, contains, subscript, get_int, get_text}

  -- An object with both of Binance's error fields.
  abbrev pub is_api_error : Json → Bool
  is_api_error j = contains j (str "code") && contains j (str "msg")

  -- A JSON body that is not an error object.
  abbrev pub IsNoError : Text → Type 0
  IsNoError body = (body ≢ []) × ((j : Json) × (parse body ≡ ok j) × (is_api_error j ≡ false))

  throw_api_error-throws : (j : Json) → (e : Error) × (throw_api_error L j ≡ err e)
  unfolding throw_api_error
  throw_api_error-throws j = >>=-err (subscript j (str "code")) _ λ c.
      >>=-err (get_int c) _
        λ code. >>=-err (subscript j (str "msg")) _ λ m. >>=-err (get_text m) _ λ msg. (_, refl)

  -- An error object makes the check throw, whatever its fields hold.
  pub check_api_error-throws :
      (status : ℕ) (j : Json)
      → leb 400 status ≡ true
      → is_api_error j ≡ true
      → (e : Error) × (check_api_error L status j ≡ err e)
  unfolding check_api_error
  check_api_error-throws status j h h' =
      let (e, eq) = throw_api_error-throws j in (e, ground (arith, eq))

  pub check_api_error-passes :
      (status : ℕ) (j : Json) → is_api_error j ≡ false → check_api_error L status j ≡ ok tt
  unfolding check_api_error
  check_api_error-passes status j h = ground arith

  -- An error response passes the check exactly when it is JSON that is no error object.
  pub parse_response-eq-ok :
      (status : ℕ) (body : Text)
      → leb 400 status ≡ true
      → ((j : Json) × (parse_response L status body ≡ ok j)) ↔ IsNoError body
  unfolding parse_response
  parse_response-eq-ok status [] h =
      (λ (j, eq). ground (arith, eq), λ (ne, k). ground (arith, ne refl))
  parse_response-eq-ok status (b ∷ body) h = (to, from)
    where
      to : ((j : Json) × (parse_response L status (b ∷ body) ≡ ok j)) → IsNoError (b ∷ body)
      to (j, eq) =
          let (k, p, rest) = >>=-eq-ok (parse (b ∷ body)) _ eq in
          (
            (λ e. cc),
            (
              k,
              p,
              elim (Bool-cases (is_api_error k)) [
                | inl t ↦
                    let (e, thrown) = check_api_error-throws status k h t in
                    ground (arith, rest, thrown)
                | inr f ↦ f
              ],
            ),
          )

      from : IsNoError (b ∷ body) → ((j : Json) × (parse_response L status (b ∷ body) ≡ ok j))
      from (ne, (j, p, q)) = (j, ground (arith, p, check_api_error-passes status j q))
