-- ===== src/Core/Tokens/ReadBack.antt =====
-- The JSON value behind a token, and the members of encoded records.
use fiber_paid_http.Prelude.{◌≡◌, refl, Text, ◌==◌, ==_refl, false, Option, none, some, ok}
use fiber_paid_http.Core.JsonValue.{Json, Members}
use fiber_paid_http.Core.Json.{optional}
use fiber_paid_http.Core.Runtime.{Runtime}
use fiber_paid_http.Core.Encoding.{
  get, base64url_decode, encode_json_base64url, decode_json_base64url,
}
use fiber_paid_http.Core.Tokens.SameJson.{string_option}
use fiber_paid_http.Core.Tokens.Lawful.{IsLawful}

-- Members that may be absent, looked up.
pub get_skipped :
    (key name : Text) (o : Option Text) (rest : Members)
    → (name == key) ≡ false
    → get key (optional name o rest) ≡ get key rest
unfolding get
get_skipped key name none rest h = refl
get_skipped key name (some s) rest h = rw h refl

pub get_found :
    (key : Text) (o : Option Text) (rest : Members)
    → get key rest ≡ none
    → get key (optional key o rest) ≡ string_option o
unfolding get
get_found key none rest h = h
get_found key (some s) rest h = rw (==_refl key) refl

module _ (rt : Runtime) (lawful : IsLawful rt) where
  pub decode-encode_base64url :
      (j : Json)
      → base64url_decode rt (encode_json_base64url rt j) ≡ ok (rt.utf8_encode (rt.canonical_json j))
  unfolding base64url_decode encode_json_base64url
  decode-encode_base64url j =
      let bytes = rt.utf8_encode (rt.canonical_json j) in
      rw (lawful.base64url_some j, lawful.base64url_text bytes, lawful.base64url bytes)
        (rw (==_refl (rt.base64url_encode bytes)) refl)

  -- A token decodes to the value that `JSON.parse` reads back from its canonical form.
  pub decode-encode_json :
      (j : Json) → decode_json_base64url rt (encode_json_base64url rt j) ≡ ok (lawful.read_back j)
  unfolding decode_json_base64url
  decode-encode_json j =
      rw (decode-encode_base64url j) (rw (lawful.utf8 j) (rw (lawful.parses j) refl))
