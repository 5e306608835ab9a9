-- ===== src/Rest/Response.antt =====
-- `HttpResponse` of src/rest/detail/http_transport.hpp. The header names are lower case; the
-- map of the headers is a list of entries.
use bintrade.Prelude.{ℕ, List, Text}

pub record HttpResponse : Type 0 where
  pub status_code : ℕ
  pub body : Text
  pub headers : List (Text × Text)
