-- ===== src/Rest/ParamMap.antt =====
-- `std::unordered_map<std::string, std::string>` as the code uses it: `map[key] = value` and the
-- iteration, whose order the container does not fix. The container is not part of the repository;
-- the two laws are its documented behaviour.
use bintrade.Prelude.{◌≡◌, none, some, Text, text_eq, lookup, if◌then◌else◌}
use bintrade.Rest.Query.{Params}

pub record UnorderedMap : Type 1 where
  pub Map : Type 0
  pub empty : Map
  pub assign : Map → Text → Text → Map
  -- the pairs in the order of the iteration
  pub entries : Map → Params
  pub lookup-empty : (key : Text) → lookup key (entries empty) ≡ none
  pub lookup-assign :
      (m : Map) (k v key : Text)
      → lookup key (entries (assign m k v))
        ≡ (if text_eq k key then some v else lookup key (entries m))
