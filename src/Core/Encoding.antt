-- ===== src/Core/Encoding.antt =====
-- packages/core/src/encoding.ts: the base64url tokens, and the reading of JSON by the schemas.
use fiber_paid_http.Prelude.{
  ℕ, ◌*◌, Text, text, ◌==◌, Bool, false, ◌&&◌, ◌||◌, not, Option, none, some, List, [], ◌∷◌, length,
  ltb, eqb, is_empty, if◌then◌else◌, Result, ok, err, plain_error, ensure, ◌>>=◌, ◌>>◌,
}
use fiber_paid_http.Core.JsonValue.{Json, object, string, Members, end, member}
use fiber_paid_http.Core.Types.{
  PaymentChallenge, FiberCredentialPayload, PaymentCredential, PaymentReceipt,
}
use fiber_paid_http.Core.Json.{credential_json, receipt_json}
use fiber_paid_http.Core.Runtime.{Runtime}
use fiber_paid_http.Core.Schemas.{
  all, is_upper_alpha, is_lower_alpha, is_digit, is_challenge_field, parse_payment_challenge,
  parse_payment_credential, parse_payment_receipt,
}

abbrev pub max_mpp_token_length : ℕ
max_mpp_token_length = 16 * 1024

abbrev pub zod_error : {A : Type 0} → Result A
zod_error = err (plain_error (text "ZodError"))

-- the member of an object
unfoldable pub get : Text → Members → Option Json
get key end = none
get key (member k value rest) = if k == key then some value else get key rest

-- `z.string()` and `z.string().optional()` for a member
abbrev pub text_of : Option Json → Result Text
text_of (some (string s)) = ok s
text_of _ = zod_error

abbrev pub optional_text_of : Option Json → Result (Option Text)
optional_text_of none = ok none
optional_text_of (some (string s)) = ok (some s)
optional_text_of _ = zod_error

-- `catchall(z.string())`
unfoldable pub custom_of : Members → Result (List (Text × Text))
custom_of end = ok []
custom_of (member key value rest) =
    let later = custom_of rest in
    if is_challenge_field key
    then later
    else (text_of (some value) >>= λ v. later >>= λ params. ok ((key, v) ∷ params))

unfoldable known : List Text → Text → Bool
known [] key = false
known (n ∷ names) key = n == key || known names key

-- `passthrough()`: the members beyond these names
unfoldable pub others : List Text → Members → Members
unfolding known
others names end = end
others names (member key value rest) =
    let later = others names rest in if known names key then later else member key value later

-- /^[A-Za-z0-9_-]+$/
abbrev pub is_base64url_char : ℕ → Bool
is_base64url_char c = is_upper_alpha c || is_lower_alpha c || is_digit c || eqb c b'_' || eqb c b'-'

abbrev pub json_of : Option Json → Result Json
json_of none = err (plain_error (text "SyntaxError"))
json_of (some j) = ok j

module _ (rt : Runtime) where
  unfoldable pub base64url_decode : Text → Result Text
  base64url_decode input = do
    ensure (not (is_empty input) && all is_base64url_char input)
        (plain_error (text "invalid unpadded base64url"))
    let decoded = rt.base64url_decode input
    ensure (rt.base64url_encode decoded == input) (plain_error (text "non-canonical base64url"))
    ok decoded

  unfoldable pub encode_json_base64url : Json → Text
  encode_json_base64url value = rt.base64url_encode (rt.utf8_encode (rt.canonical_json value))

  unfoldable pub decode_json_base64url : Text → Result Json
  unfolding base64url_decode
  decode_json_base64url input = do
    bytes ← base64url_decode input
    json_of (rt.parse_json (rt.utf8_decode bytes))

  unfoldable pub challenge_of_json : Option Json → Result PaymentChallenge
  unfolding get custom_of
  challenge_of_json (some (object m)) = do
    id ← text_of (get (text "id") m)
    realm ← text_of (get (text "realm") m)
    method ← text_of (get (text "method") m)
    intent ← text_of (get (text "intent") m)
    request ← text_of (get (text "request") m)
    expires ← optional_text_of (get (text "expires") m)
    digest ← optional_text_of (get (text "digest") m)
    description ← optional_text_of (get (text "description") m)
    opaque ← optional_text_of (get (text "opaque") m)
    custom ← custom_of m
    parse_payment_challenge rt (record {
      id = id;
      realm = realm;
      method = method;
      intent = intent;
      request = request;
      expires = expires;
      digest = digest;
      description = description;
      opaque = opaque;
      custom = custom;
    })
  challenge_of_json _ = zod_error

  unfoldable pub payload_of_json : Option Json → Result FiberCredentialPayload
  unfolding get others
  payload_of_json (some (object m)) = do
    payment_hash ← text_of (get (text "paymentHash") m)
    ok (record { payment_hash = payment_hash; extra = others (text "paymentHash" ∷ []) m })
  payload_of_json _ = zod_error

  unfoldable pub credential_of_json : Json → Result PaymentCredential
  unfolding get others challenge_of_json payload_of_json
  credential_of_json (object m) = do
    challenge ← challenge_of_json (get (text "challenge") m)
    source ← optional_text_of (get (text "source") m)
    payload ← payload_of_json (get (text "payload") m)
    parse_payment_credential rt (record {
      challenge = challenge;
      source = source;
      payload = payload;
      extra = others (text "challenge" ∷ text "source" ∷ text "payload" ∷ []) m;
    })
  credential_of_json _ = zod_error

  unfoldable pub encode_credential : PaymentCredential → Result Text
  unfolding encode_json_base64url
  encode_credential c = do
    parsed ← parse_payment_credential rt c
    ok (encode_json_base64url (credential_json parsed))

  unfoldable pub decode_credential : Text → Result PaymentCredential
  unfolding decode_json_base64url credential_of_json
  decode_credential token = do
    ensure (not (ltb max_mpp_token_length (length token)))
        (plain_error (text "credential exceeds MPP token limit"))
    value ← decode_json_base64url token
    credential_of_json value

  unfoldable pub receipt_of_json : Json → Result PaymentReceipt
  unfolding get
  receipt_of_json (object m) = do
    status ← text_of (get (text "status") m)
    method ← text_of (get (text "method") m)
    timestamp ← text_of (get (text "timestamp") m)
    reference ← text_of (get (text "reference") m)
    challenge_id ← text_of (get (text "challengeId") m)
    parse_payment_receipt rt (record {
      status = status;
      method = method;
      timestamp = timestamp;
      reference = reference;
      challenge_id = challenge_id;
    })
  receipt_of_json _ = zod_error

  unfoldable pub encode_receipt : PaymentReceipt → Result Text
  unfolding encode_json_base64url
  encode_receipt r = do
    parsed ← parse_payment_receipt rt r
    ok (encode_json_base64url (receipt_json parsed))

  unfoldable pub decode_receipt : Text → Result PaymentReceipt
  unfolding decode_json_base64url receipt_of_json
  decode_receipt token = do
    ensure (not (ltb max_mpp_token_length (length token)))
        (plain_error (text "receipt exceeds MPP token limit"))
    value ← decode_json_base64url token
    receipt_of_json value
