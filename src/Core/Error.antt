-- ===== src/Core/Error.antt =====
-- include/bintrade/core/error.hpp and src/core/error.cpp: the error codes, their texts, and the
-- exceptions that the library throws. A call that may throw returns a `Result`.
use bintrade.Prelude.{
  ℕ, ◌≡◌, refl, ℤ, pos, negsuc, Option, none, some, List, [], ◌∷◌, ◌==◌, if◌then◌else◌, Text, str,
  ◌⊎◌, inl, inr, subst,
}

-- `enum class ErrorCode`
pub data ErrorCode : Type 0 where
  success connection_failed timeout invalid_api_key invalid_signature : ErrorCode
  invalid_timestamp rate_limit_exceeded invalid_symbol invalid_order_type : ErrorCode
  invalid_quantity invalid_price insufficient_balance parse_error unknown_error : ErrorCode

-- `static_cast<int>` of a code
abbrev pub code_value : ErrorCode → ℕ
code_value success = 0
code_value connection_failed = 1
code_value timeout = 2
code_value invalid_api_key = 3
code_value invalid_signature = 4
code_value invalid_timestamp = 5
code_value rate_limit_exceeded = 6
code_value invalid_symbol = 7
code_value invalid_order_type = 8
code_value invalid_quantity = 9
code_value invalid_price = 10
code_value insufficient_balance = 11
code_value parse_error = 12
code_value unknown_error = 13

abbrev pub all_codes : List ErrorCode
all_codes =
    success ∷ connection_failed ∷ timeout ∷ invalid_api_key ∷ invalid_signature ∷ invalid_timestamp
    ∷ rate_limit_exceeded ∷ invalid_symbol ∷ invalid_order_type ∷ invalid_quantity ∷ invalid_price
    ∷ insufficient_balance ∷ parse_error ∷ unknown_error ∷ []

-- The label of the `switch` on `static_cast<ErrorCode>(ev)`, if one is met.
pub find_code : ℕ → List ErrorCode → Option ErrorCode
find_code n [] = none
find_code n (e ∷ es) = if code_value e == n then some e else find_code n es

code_text : Option ErrorCode → Text
code_text none = str "Unknown error code"
code_text (some success) = str "Success"
code_text (some connection_failed) = str "Connection failed"
code_text (some timeout) = str "Request timed out"
code_text (some invalid_api_key) = str "Invalid API key"
code_text (some invalid_signature) = str "Invalid signature"
code_text (some invalid_timestamp) = str "Invalid timestamp"
code_text (some rate_limit_exceeded) = str "Rate limit exceeded"
code_text (some invalid_symbol) = str "Invalid symbol"
code_text (some invalid_order_type) = str "Invalid order type"
code_text (some invalid_quantity) = str "Invalid quantity"
code_text (some invalid_price) = str "Invalid price"
code_text (some insufficient_balance) = str "Insufficient balance"
code_text (some parse_error) = str "JSON parse error"
code_text (some unknown_error) = str "Unknown error"

-- `ErrorCategory::message`
pub message : ℤ → Text
unfolding find_code code_text
message (pos n) = code_text (find_code n all_codes)
message (negsuc n) = code_text none

-- `std::error_code` of the category `bintrade`: its value.
pub record ErrorValue : Type 0 where
  pub value : ℤ

abbrev pub make_error_code : ErrorCode → ErrorValue
make_error_code e = record { value = pos (code_value e) }

-- class `Exception`
pub record Exception : Type 0 where
  pub code : ErrorValue
  pub what : Text

-- The three constructors of `Exception`.
abbrev pub exception_of_message : Text → Exception
exception_of_message m = record { code = make_error_code unknown_error; what = m }

unfoldable pub exception_of_code : ErrorValue → Exception
unfolding message
exception_of_code ec = record { code = ec; what = message ec.value }

abbrev pub exception_of_both : ErrorValue → Text → Exception
exception_of_both ec m = record { code = ec; what = m }

-- What a call throws. `foreign` is an exception of a library that the code calls, by its `what()`.
-- `undefined` is no exception: C++ gives the call no meaning. Nor is `terminated`: the program ends by
-- `std::terminate`.
pub data Error : Type 0 where
  network : Exception → Error
  api : ℤ → Exception → Error
  authentication : Exception → Error
  validation : Exception → Error
  invalid_argument : Text → Error
  foreign : Text → Error
  undefined : Error
  terminated : Error

-- `ApiException(http_code, message)`
abbrev pub api_exception : ℤ → Text → Error
api_exception http_code m = api http_code (exception_of_message m)

abbrev pub network_exception : Text → Error
network_exception m = network (exception_of_message m)

pub data Result {ℓ} (A : Type ℓ) : Type ℓ where
  ok : A → Result A
  err : Error → Result A

infixl 5 ◌>>=◌ ◌>>◌
abbrev pub ◌>>=◌ {ℓ κ} : {A : Type ℓ} {B : Type κ} → Result A → (A → Result B) → Result B
err thrown >>= rest = err thrown
ok got >>= rest = rest got

abbrev pub ◌>>◌ {ℓ κ} : {A : Type ℓ} {B : Type κ} → Result A → Result B → Result B
call >> rest = call >>= λ ignored. rest

-- The same chain, by a name.
abbrev pub bound {ℓ κ} : {A : Type ℓ} {B : Type κ} → Result A → (A → Result B) → Result B
bound r f = r >>= f

-- `what()` of an exception, as a handler of `std::exception` reads it.
abbrev pub what : Error → Text
what (network e) = e.what
what (api c e) = e.what
what (authentication e) = e.what
what (validation e) = e.what
what (invalid_argument m) = m
what (foreign m) = m
what undefined = []
what terminated = []

-- A handler of messages logs what is thrown, and nothing is delivered.
abbrev pub logged {ℓ} : {A : Type ℓ} → Result (List A) → List A
logged (ok events) = events
logged (err e) = []

-- Inversion of a chain that succeeds.
pub >>=-eq-ok {ℓ κ} :
    {A : Type ℓ} {B : Type κ} (call : Result A) (rest : A → Result B) {value : B}
    → (call >>= rest) ≡ ok value
    → (got : A) × (call ≡ ok got) × (rest got ≡ ok value)
>>=-eq-ok (err thrown) rest eq = cc
>>=-eq-ok (ok got) rest eq = (got, refl, eq)

-- A chain whose end throws throws.
pub >>=-err {ℓ κ} :
    {A : Type ℓ} {B : Type κ} (m : Result A) (f : A → Result B)
    → ((a : A) → (e : Error) × (f a ≡ err e))
    → (e : Error) × ((m >>= f) ≡ err e)
>>=-err (ok a) f h = h a
>>=-err (err e) f h = (e, refl)

pub Result-cases {ℓ} :
    {A : Type ℓ} (r : Result A) → ((a : A) × (r ≡ ok a)) ⊎ ((e : Error) × (r ≡ err e))
Result-cases (ok a) = inl (a, refl)
Result-cases (err e) = inr (e, refl)

-- What a call returns, if it returns, has a property.
abbrev pub Ensures {ℓ κ} : {A : Type ℓ} → (A → Type κ) → Result A → Type κ
Ensures Q (ok a) = Q a
Ensures Q (err e) = Unit

pub >>=-Ensures {ℓ κ μ} :
    {A : Type ℓ} {B : Type κ} (Q : B → Type μ) (m : Result A) (f : A → Result B)
    → ((a : A) → m ≡ ok a → Ensures Q (f a))
    → Ensures Q (m >>= f)
>>=-Ensures Q (ok a) f h = h a refl
>>=-Ensures Q (err e) f h = tt

pub Ensures-ok {ℓ κ} :
    {A : Type ℓ} (Q : A → Type κ) {r : Result A} {a : A} → Ensures Q r → r ≡ ok a → Q a
Ensures-ok Q h e = subst (Ensures Q) e h
