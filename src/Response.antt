-- ===== src/Response.antt =====
-- src/response.rs: `RegistryResponse`, whose body is a text that stands for its UTF-8 bytes. What
-- serde_json makes of a value is an argument.
use osv_proxy.Common.{ℕ, List, [], ◌∷◌, if◌then◌else◌, Text, codes, text_eq, Result, ◌>>=◌, ok}

pub record RegistryResponse : Type 0 where
  pub status : ℕ
  pub headers : List (Text × Text)
  pub body : Text

-- `RegistryResponse::json`; the outcome of `serde_json::to_vec` is the argument.
unfoldable pub json : {E : Type 0} → ℕ → Result E Text → Result E RegistryResponse
json status serialized = do
  body ← serialized
  ok (record {
    status = status;
    headers = (codes "content-type", codes "application/json") ∷ [];
    body = body;
  })

unfoldable pub html : ℕ → Text → RegistryResponse
html status body = record {
  status = status;
  headers = (codes "content-type", codes "text/html") ∷ [];
  body = body;
}

unfoldable pub redirect : Text → RegistryResponse
redirect location = record { status = 302; headers = (codes "location", location) ∷ []; body = [] }

-- The first header of the name gets the value; where there is none, one is added at the end.
unfoldable pub set_header : Text → Text → List (Text × Text) → List (Text × Text)
set_header name value [] = (name, value) ∷ []
set_header name value ((n, v) ∷ headers) =
    if text_eq n name then (n, value) ∷ headers else (n, v) ∷ set_header name value headers

unfoldable pub set_content_type : Text → RegistryResponse → RegistryResponse
unfolding set_header
set_content_type content_type response = record response {
  headers = set_header (codes "content-type") content_type response.headers;
}
