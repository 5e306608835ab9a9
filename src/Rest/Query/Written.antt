-- ===== src/Rest/Query/Written.antt =====
-- The query string of `build_query_string` in one piece, and the target of a GET with it.
use bintrade.Prelude.{
  append_assoc, ℕ, ◌≡◌, refl, sym, ap, ◌∙◌, false, [], ◌∷◌, ◌++◌, Text, append-nil,
}
use bintrade.Rest.Query.{Params, is_empty, append_param, append_params, build_query_string}

-- Each further parameter has its name, `=` and its value behind an `&`.
abbrev pub more_params : Params → Text
more_params [] = []
more_params ((key, value) ∷ ps) = b'&' ∷ (key ++ (b'=' ∷ (value ++ more_params ps)))

-- The path, and behind a `?` the parameters, if there are any.
abbrev pub written_target : Text → Params → Text
written_target path [] = path
written_target path ((key, value) ∷ ps) =
    path ++ (b'?' ∷ (key ++ (b'=' ∷ (value ++ more_params ps))))

regroup :
    (q key value rest : Text)
    → ((q ++ b'&' ∷ []) ++ (key ++ b'=' ∷ value)) ++ rest
      ≡ q ++ (b'&' ∷ (key ++ (b'=' ∷ (value ++ rest))))
regroup q key value rest = simp append_assoc

pub is_empty-pair : (key value : Text) → is_empty (key ++ b'=' ∷ value) ≡ false
is_empty-pair [] value = refl
is_empty-pair (x ∷ key) value = refl

append_params-eq :
    (b : ℕ) (q : Text) (ps : Params) → append_params (b ∷ q) ps ≡ (b ∷ q) ++ more_params ps
unfolding append_params append_param
append_params-eq b q [] = sym (append-nil (b ∷ q))
append_params-eq b q ((key, value) ∷ ps) =
    append_params-eq b ((q ++ b'&' ∷ []) ++ (key ++ b'=' ∷ value)) ps
    ∙ ap (◌∷◌ b) (regroup q key value (more_params ps))

pub build_query_string-nil : build_query_string [] ≡ []
unfolding build_query_string append_params
build_query_string-nil = refl

pub build_query_string-cons :
    (key value : Text) (ps : Params)
    → build_query_string ((key, value) ∷ ps) ≡ key ++ (b'=' ∷ (value ++ more_params ps))
unfolding build_query_string append_params append_param
build_query_string-cons [] value ps = append_params-eq b'=' value ps
build_query_string-cons (x ∷ key) value ps =
    append_params-eq x (key ++ b'=' ∷ value) ps
    ∙ ap (◌∷◌ x) (append_assoc key (b'=' ∷ value) (more_params ps))
