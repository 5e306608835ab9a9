-- ===== src/Auth/Signer.antt =====
-- src/auth/signer.cpp: the HMAC-SHA256 signature of a request, in hexadecimal.
pub mod Hex
use bintrade.Prelude.{ℕ, ◌+◌, ◌/◌, ◌%◌, ltb, List, [], ◌∷◌, ◌++◌, Text, if◌then◌else◌, str, ℤ}
use bintrade.Rest.Query.{Params, append_params}
use bintrade.Rest.ParamMap.{UnorderedMap}

-- A digit of `std::hex`.
unfoldable pub hex_digit : ℕ → ℕ
hex_digit n = if ltb n 10 then b'0' + n else 87 + n

-- `std::setw(2)` with the fill '0': a byte takes two digits.
unfoldable pub hex_text : List ℕ → Text
unfolding hex_digit
hex_text [] = []
hex_text (x ∷ xs) = hex_digit (x / 16) ∷ hex_digit (x % 16) ∷ hex_text xs

module _ (M : UnorderedMap) (hmac_sha256 : Text → Text → List ℕ) (int_text : ℤ → Text) where
  open M use {Map, assign, entries}

  -- `Signer::sign`, with the secret of the credentials that the signer refers to.
  unfoldable pub sign : Text → Text → Text
  sign secret query = hex_text (hmac_sha256 secret query)

  -- `now` is `system_clock::now()` in milliseconds.
  unfoldable pub sign_parameters : Text → ℤ → Map → Map
  sign_parameters secret now params =
      let timed = assign params (str "timestamp") (int_text now) in
      assign timed (str "signature") (sign secret (append_params [] (entries timed)))
