-- ===== src/Core/Tokens/Lawful.antt =====
-- What the token functions need of the platform.
use fiber_paid_http.Prelude.{◌≡◌, Text, true, false, some, is_empty}
use fiber_paid_http.Core.JsonValue.{Json}
use fiber_paid_http.Core.Runtime.{Runtime}
use fiber_paid_http.Core.Schemas.{all}
use fiber_paid_http.Core.Encoding.{is_base64url_char}
use fiber_paid_http.Core.Tokens.SameJson.{SameJson}

pub record IsLawful (rt : Runtime) : Type 0 where
  -- `JSON.parse` reads canonical JSON back, up to the order of members, and what it reads has the same
  -- canonical form.
  pub read_back : Json → Json
  pub parses : (j : Json) → rt.parse_json (rt.canonical_json j) ≡ some (read_back j)
  pub same : (j : Json) → SameJson j (read_back j)
  pub canonical : (j : Json) → rt.canonical_json (read_back j) ≡ rt.canonical_json j
  -- Canonical JSON has no lone surrogates, so its UTF-8 bytes decode to it.
  pub utf8 :
      (j : Json) → rt.utf8_decode (rt.utf8_encode (rt.canonical_json j)) ≡ rt.canonical_json j
  -- base64url text decodes to its bytes, is made of base64url characters, and is not empty where
  -- there are bytes.
  pub base64url : (bytes : Text) → rt.base64url_decode (rt.base64url_encode bytes) ≡ bytes
  pub base64url_text : (bytes : Text) → all is_base64url_char (rt.base64url_encode bytes) ≡ true
  pub base64url_some :
      (j : Json) → is_empty (rt.base64url_encode (rt.utf8_encode (rt.canonical_json j))) ≡ false
