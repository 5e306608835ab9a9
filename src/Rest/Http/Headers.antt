-- ===== src/Rest/Http/Headers.antt =====
-- The fields of a request, and the headers of a response.
use bintrade.Prelude.{
  ◌≡◌, refl, ap, ◌∙◌, Bool, true, false, List, [], ◌∷◌, Option, none, some, Text, str, text_eq,
  lower, lookup, if◌then◌else◌,
}
use bintrade.Rest.ParamMap.{UnorderedMap}
use bintrade.Rest.Query.{is_empty}
use bintrade.Rest.Url.{ParsedUrl}
use bintrade.Rest.Client.{Request, get, post, del}
use bintrade.Rest.Http.{
  BeastFields, sync_call, build_request, set_all, set_api_key_field, with_body, base_fields,
  async_get, async_post, async_del, WireResponse, lower_headers, build_response,
}

-- The value of the last field of that name, in any case. `key` is lower case.
pub last_field : Text → List (Text × Text) → Option Text
last_field key [] = none
last_field key ((name, value) ∷ fields) = elim (last_field key fields) [
  | none ↦ if text_eq (lower name) key then some value else none
  | some later ↦ some later
]

-- The first of two values that is there.
abbrev first_of : Option Text → Option Text → Option Text
first_of none other = other
first_of (some value) other = some value

first_of-last :
    (same : Bool) (value : Text) (later other : Option Text)
    → first_of later (if same then some value else other)
      ≡ first_of (elim later [ none ↦ if same then some value else none | some v ↦ some v ]) other
first_of-last true value none other = refl
first_of-last false value none other = refl
first_of-last same value (some v) other = refl

first_of-none : (value : Option Text) → first_of value none ≡ value
first_of-none none = refl
first_of-none (some value) = refl

module _ (M : UnorderedMap) where
  open M use {Map, entries, empty, assign, lookup-assign, lookup-empty}

  lookup-lower_headers :
      (key : Text) (m : Map) (fields : List (Text × Text))
      → lookup key (entries (lower_headers M m fields))
        ≡ first_of (last_field key fields) (lookup key (entries m))
  unfolding lower_headers last_field
  lookup-lower_headers key m [] = refl
  lookup-lower_headers key m ((name, value) ∷ fields) =
      lookup-lower_headers key (assign m (lower name) value) fields
      ∙ ap (first_of (last_field key fields)) (lookup-assign m (lower name) value key)
      ∙ first_of-last (text_eq (lower name) key) value (last_field key fields) _

  -- A header of a response is found under its name in lower case, in whatever case the server spelled
  -- it; where the server sent it more than once, the last value is the one that is found; and a
  -- header that the server did not send is not found.
  pub lookup-build_response :
      (key : Text) (res : WireResponse)
      → lookup key (build_response M res).headers ≡ last_field key res.fields
  unfolding build_response
  lookup-build_response key res =
      lookup-lower_headers key empty res.fields
      ∙ ap (first_of (last_field key res.fields)) (lookup-empty key)
      ∙ first_of-none (last_field key res.fields)

module _ (B : BeastFields) where
  open B use {set_field, find_field, find-set, find-fresh, find-prepare}

  find-skip :
      (f : B.Fields) (name value key : Text)
      → text_eq (lower name) (lower key) ≡ false
      → find_field (set_field f name value) key ≡ find_field f key
  find-skip f name value key h =
      find-set f name value key ∙ ap (λ b. if b then some value else find_field f key) h

  find-base :
      (url : ParsedUrl)
      → (find_field (base_fields B url) (str "host") ≡ some url.host)
        × (find_field (base_fields B url) (str "x-mbx-apikey") ≡ none)
        × (find_field (base_fields B url) (str "content-type") ≡ none)
  unfolding base_fields lower str text_eq
  find-base url = (
    find-skip _ _ _ _ refl ∙ find-skip _ _ _ _ refl ∙ find-skip _ _ _ _ refl ∙ find-set _ _ _ _,
    find-skip _ _ _ _ refl
        ∙ find-skip _ _ _ _ refl
        ∙ find-skip _ _ _ _ refl
        ∙ find-skip _ _ _ _ refl
        ∙ find-fresh _,
    find-skip _ _ _ _ refl
        ∙ find-skip _ _ _ _ refl
        ∙ find-skip _ _ _ _ refl
        ∙ find-skip _ _ _ _ refl
        ∙ find-fresh _,
  )

  -- What the fields of a request say.
  abbrev pub Says : ParsedUrl → Text → Text → B.Fields → Type 0
  Says url api_key body f =
      (find_field f (str "host") ≡ some url.host)
      × (find_field f (str "x-mbx-apikey") ≡ (if is_empty api_key then none else some api_key))
      × (find_field f (str "content-type")
          ≡ (if is_empty body then none else some (str "application/x-www-form-urlencoded")))

  set_api_key_field-Says :
      (url : ParsedUrl) (api_key : Text)
      → Says url api_key [] (set_api_key_field B api_key (base_fields B url))
  unfolding set_api_key_field lower str text_eq
  set_api_key_field-Says url [] = find-base url
  set_api_key_field-Says url (x ∷ key) =
      let (host, _, no_type) = find-base url in
      (find-skip _ _ _ _ refl ∙ host, find-set _ _ _ _, find-skip _ _ _ _ refl ∙ no_type)

  with_body-Says :
      (url : ParsedUrl) (api_key body : Text) (f : B.Fields)
      → Says url api_key [] f
      → Says url api_key body (with_body B body f)
  unfolding with_body lower str text_eq
  with_body-Says url api_key [] f says = says
  with_body-Says url api_key (x ∷ body) f (host, key, _) = (
    find-prepare _ _ _ refl refl ∙ find-skip _ _ _ _ refl ∙ host,
    find-prepare _ _ _ refl refl ∙ find-skip _ _ _ _ refl ∙ key,
    find-prepare _ _ _ refl refl ∙ find-set _ _ _ _,
  )

  -- A request of the clients names the host of the base URL; it carries the API key exactly if there
  -- is one, and the content type of a form exactly if there is a body.
  pub build_request-Says :
      (url : ParsedUrl) (api_key : Text) (r : Request)
      → let req = build_request B url api_key (sync_call r) in Says url api_key req.body req.fields
  unfolding build_request sync_call async_get async_post async_del set_all
  build_request-Says url api_key (get path params) =
      with_body-Says url api_key [] _ (set_api_key_field-Says url api_key)
  build_request-Says url api_key (post path body) =
      with_body-Says url api_key body _ (set_api_key_field-Says url api_key)
  build_request-Says url api_key (del path params) =
      with_body-Says url api_key [] _ (set_api_key_field-Says url api_key)
