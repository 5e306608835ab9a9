-- ===== src/Tests/Sample.antt =====
-- Concrete stand-ins for the libraries that the program calls: a map, a JSON reader and a network.
use bintrade.Prelude.{
  ℕ, pos, ◌≡◌, ◌*◌, refl, Bool, true, false, List, [], ◌∷◌, Option, none, some, Text, str, text_eq,
  lookup, if◌then◌else◌, ltb, length, not, ◌&&◌, ◌==◌, Lacks, arith,
}
use bintrade.Core.Error.{ok}
use bintrade.Json.{JsonLib}
use bintrade.Rest.Response.{HttpResponse}
use bintrade.Rest.ParamMap.{UnorderedMap}
use bintrade.Rest.Client.{Platform}

pub assign_lookup :
    (m : List (Text × Text)) (k v key : Text)
    → lookup key ((k, v) ∷ m) ≡ (if text_eq k key then some v else lookup key m)
unfolding lookup
assign_lookup m k v key = refl

pub empty_lookup : (key : Text) → lookup {A = Text} key [] ≡ none
unfolding lookup
empty_lookup key = refl

-- A map that keeps its newest entry first.
abbrev pub newest_first : UnorderedMap
newest_first = record {
  Map = List (Text × Text);
  empty = [];
  assign = λ m k v. (k, v) ∷ m;
  entries = λ m. m;
  lookup-empty = empty_lookup;
  lookup-assign = assign_lookup;
}

abbrev pub or_else : Option Text → Text → Text
or_else none d = d
or_else (some t) d = t

abbrev pub is_there : Option Text → Bool
is_there none = false
is_there (some t) = true

-- Whether a text has no such byte.
abbrev pub lacks : ℕ → Text → Bool
lacks c [] = true
lacks c (x ∷ xs) = not (x == c) && lacks c xs

pub Lacks-of_lacks : (c : ℕ) (xs : Text) → lacks c xs ≡ true → Lacks c xs
Lacks-of_lacks c [] h = tt
Lacks-of_lacks c (x ∷ xs) h = (λ e. ground (arith, h, e), Lacks-of_lacks c xs (ground (arith, h)))

-- A reader for which every text is the flat object of one order, and numbers are lengths.
abbrev pub flat_json : JsonLib
flat_json = record {
  Json = List (Text × Text);
  Double = ℕ;
  parse =
      λ t. ok ((str "S", str "SELL") ∷ (str "side", str "SELL") ∷ (str "listenKey", str "k") ∷ []);
  null_json = [];
  contains = λ j key. is_there (lookup key j);
  subscript = λ j key. ok [];
  element = λ j i. ok [];
  at = λ j key. ok j;
  value_text = λ j key d. ok (or_else (lookup key j) d);
  value_int = λ j key d. ok d;
  value_uint = λ j key d. ok d;
  value_bool = λ j key d. ok d;
  get_text = λ j. ok [];
  get_int = λ j. ok (pos 0);
  get_uint = λ j. ok 0;
  items = λ j. [];
  stod = λ t. ok (length t);
  multiply = λ a b. a * b;
  is_positive = λ a. ltb 0 a;
  to_string = λ a. str "1";
}

abbrev pub answer : HttpResponse
answer = record {
  status_code = 200;
  body = str "{}";
  headers = (str "x-mbx-used-weight-1m", str "5") ∷ [];
}

-- A server that answers every request alike.
abbrev pub calm : Platform
calm = record {
  json = flat_json;
  map = newest_first;
  hmac_sha256 = λ secret query. 255 ∷ [];
  stoi = λ t. some (pos 5);
  int_text = λ n. str "1";
  http = λ rs. ok answer;
  now = λ rs. pos 1;
}
