-- ===== src/Rest/Query.antt =====
-- `build_query_string` of src/rest/detail/http_client.cpp. The same loop builds the form body in
-- `Client::signed_post` and the text that `Signer::sign_parameters` signs. The map is a list in the
-- order of its iteration, which `std::unordered_map` does not fix.
pub mod Written
use bintrade.Prelude.{ℕ, List, [], ◌∷◌, ◌++◌, Text, Bool, true, false, if◌then◌else◌}

abbrev pub Params : Type 0
Params = List (Text × Text)

abbrev pub is_empty : Text → Bool
is_empty [] = true
is_empty (x ∷ xs) = false

-- One round of the loop.
pub append_param : Text → Text × Text → Text
append_param query (key, value) =
    (if is_empty query then query else query ++ b'&' ∷ []) ++ (key ++ b'=' ∷ value)

pub append_params : Text → Params → Text
unfolding append_param
append_params query [] = query
append_params query (p ∷ ps) = append_params (append_param query p) ps

pub build_query_string : Params → Text
unfolding append_params
build_query_string params = append_params [] params
