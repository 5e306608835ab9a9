-- ===== src/Json.antt =====
-- What the code uses of nlohmann::json and of `double`, as the operations of a record: neither is
-- part of the repository. An operation that can throw returns a `Result`; `undefined` stands where
-- C++ gives a call no meaning, as for `operator[]` with a key that a constant object lacks.
use bintrade.Prelude.{ℕ, ℤ, Bool, List, Text}
use bintrade.Core.Error.{Result}

pub record JsonLib : Type 1 where
  pub Json : Type 0
  pub Double : Type 0
  -- `json::parse`, and `json{}`
  pub parse : Text → Result Json
  pub null_json : Json
  pub contains : Json → Text → Bool
  -- `operator[]` with a key and with an index, and `at`
  pub subscript : Json → Text → Result Json
  pub element : Json → ℕ → Result Json
  pub at : Json → Text → Result Json
  -- `value(key, default)` at the type of the default
  pub value_text : Json → Text → Text → Result Text
  pub value_int : Json → Text → ℤ → Result ℤ
  pub value_uint : Json → Text → ℕ → Result ℕ
  pub value_bool : Json → Text → Bool → Result Bool
  -- `get<std::string>`, `get<int>` and `get<int64_t>`, `get<uint64_t>`
  pub get_text : Json → Result Text
  pub get_int : Json → Result ℤ
  pub get_uint : Json → Result ℕ
  -- the elements that a range-based `for` visits
  pub items : Json → List Json
  -- `std::stod`, `*`, `> 0.0` and `std::to_string`
  pub stod : Text → Result Double
  pub multiply : Double → Double → Double
  pub is_positive : Double → Bool
  pub to_string : Double → Text
