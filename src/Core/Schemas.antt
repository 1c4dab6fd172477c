-- ===== src/Core/Schemas.antt =====
-- packages/core/src/types.ts: the schemas as tests of a value of the inferred type. `parse` returns
-- the value, or throws a ZodError.
use fiber_paid_http.Prelude.{
  ℕ, ◌*◌, ◌-◌, Text, text, ◌==◌, Bool, true, false, ◌&&◌, ◌||◌, not, Option, none, some, List, [],
  ◌∷◌, length, take, drop, leb, ltb, eqb, is_empty, if◌then◌else◌, Result, ok, err, plain_error,
}
use fiber_paid_http.Core.Types.{
  FiberUdtTypeScript, FiberChargeMethodDetails, FiberChargeRequest, PaymentChallenge,
  FiberCredentialPayload, PaymentCredential, PaymentReceipt,
}
use fiber_paid_http.Core.JsonValue.{object, string, Members, end, member}
use fiber_paid_http.Core.Runtime.{Runtime}

abbrev pub all : (ℕ → Bool) → Text → Bool
all p [] = true
all p (c ∷ s) = p c && all p s

abbrev pub between : ℕ → ℕ → ℕ → Bool
between lo hi c = leb lo c && leb c hi

abbrev pub is_digit : ℕ → Bool
is_digit c = between b'0' b'9' c

abbrev pub is_lower_alpha : ℕ → Bool
is_lower_alpha c = between b'a' b'z' c

abbrev pub is_upper_alpha : ℕ → Bool
is_upper_alpha c = between b'A' b'Z' c

-- /[a-f0-9]/i
abbrev pub is_hex : ℕ → Bool
is_hex c = is_digit c || between b'a' b'f' c || between b'A' b'F' c

-- /^0x[a-f0-9]*$/i
unfoldable pub is_hex_text : Text → Bool
is_hex_text [] = false
is_hex_text (z ∷ []) = false
is_hex_text (z ∷ x ∷ s) = eqb z b'0' && (eqb x b'x' || eqb x b'X') && all is_hex s

-- /^0x[a-f0-9]{64}$/i
unfoldable pub is_hash : Text → Bool
unfolding is_hex_text
is_hash s = is_hex_text s && eqb (length s) 66

-- /^[1-9]\d*$/
unfoldable pub is_positive_decimal : Text → Bool
is_positive_decimal [] = false
is_positive_decimal (c ∷ s) = between b'1' b'9' c && all is_digit s

-- an optional member
abbrev pub opt_all : (Text → Bool) → Option Text → Bool
opt_all p none = true
opt_all p (some s) = p s

abbrev pub nonempty : Text → Bool
nonempty s = not (is_empty s)

-- /^[a-z][a-z0-9_-]*$/
unfoldable pub is_auth_param_name : Text → Bool
is_auth_param_name [] = false
is_auth_param_name (c ∷ s) =
    is_lower_alpha c && all (λ d. is_lower_alpha d || is_digit d || eqb d b'_' || eqb d b'-') s

abbrev pub max_mpp_request_parameter_length : ℕ
max_mpp_request_parameter_length = 16 * 1024

-- ChallengeFields
unfoldable pub is_challenge_field : Text → Bool
is_challenge_field key =
    key == text "id"
    || key == text "realm"
    || key == text "method"
    || key == text "intent"
    || key == text "request"
    || key == text "expires"
    || key == text "digest"
    || key == text "description"
    || key == text "opaque"

unfoldable pub custom_names_valid : List (Text × Text) → Bool
custom_names_valid [] = true
custom_names_valid ((key, value) ∷ rest) =
    (is_challenge_field key || is_auth_param_name key) && custom_names_valid rest

-- `Object.values(value).some((item) => typeof item !== "string")`, negated
string_values : Members → Bool
string_values end = true
string_values (member key (string s) rest) = string_values rest
string_values (member key value rest) = false

is_base64 : ℕ → Bool
is_base64 c = is_upper_alpha c || is_lower_alpha c || is_digit c || eqb c b'+' || eqb c b'/'

-- `[A-Za-z0-9+/]+={0,2}:` to the end of the text
digest_body : ℕ → Text → Bool
digest_body seen [] = false
digest_body seen (c ∷ []) = leb 1 seen && eqb c b':'
digest_body seen (c ∷ d ∷ []) =
    if is_base64 c then eqb d b':' else leb 1 seen && eqb c b'=' && eqb d b':'
digest_body seen (c ∷ d ∷ e ∷ s) =
    let more = digest_body 1 (d ∷ e ∷ s) in
    if is_base64 c then more else leb 1 seen && eqb c b'=' && eqb d b'=' && eqb e b':' && is_empty s

-- FiberUdtTypeScriptSchema
unfoldable pub is_udt_type_script : Option FiberUdtTypeScript → Bool
is_udt_type_script none = true
is_udt_type_script (some s) = is_hash s.code_hash && nonempty s.hash_type && is_hex_text s.args

module _ (rt : Runtime) where
  -- OpaqueSchema
  unfoldable pub is_opaque : Text → Bool
  unfolding string_values
  is_opaque encoded =
      let bytes = rt.base64url_decode encoded in
      nonempty encoded
      && rt.base64url_encode bytes == encoded
      && elim (rt.parse_json (rt.utf8_decode bytes)) [
        | some (object members) ↦
            string_values members && rt.canonical_json (object members) == rt.utf8_decode bytes
        | _ ↦ false
      ]

  -- Sha256DigestSchema
  unfoldable pub is_sha256_digest : Text → Bool
  unfolding digest_body is_base64
  is_sha256_digest value =
      let encoded = take (length value - 10) (drop 9 value) in
      let decoded = rt.base64_decode encoded in
      take 9 value == text "sha-256=:"
      && digest_body 0 (drop 9 value)
      && eqb (length decoded) 32
      && rt.base64_encode decoded == encoded

  -- PaymentChallengeSchema
  unfoldable pub is_payment_challenge : PaymentChallenge → Bool
  is_payment_challenge c =
      nonempty c.id
      && nonempty c.realm
      && c.method == text "fiber"
      && c.intent == text "charge"
      && nonempty c.request
      && leb (length c.request) max_mpp_request_parameter_length
      && opt_all rt.is_datetime c.expires
      && opt_all is_sha256_digest c.digest
      && opt_all nonempty c.description
      && opt_all is_opaque c.opaque
      && custom_names_valid c.custom

  unfoldable pub parse_payment_challenge : PaymentChallenge → Result PaymentChallenge
  parse_payment_challenge c =
      if is_payment_challenge c then ok c else err (plain_error (text "ZodError"))

  -- PaymentCredentialSchema
  unfoldable pub parse_payment_credential : PaymentCredential → Result PaymentCredential
  parse_payment_credential c =
      if is_payment_challenge c.challenge
        && opt_all nonempty c.source
        && is_hash c.payload.payment_hash
      then ok c
      else err (plain_error (text "ZodError"))

  -- PaymentReceiptSchema
  unfoldable pub is_payment_receipt : PaymentReceipt → Bool
  is_payment_receipt r =
      r.status == text "success"
      && r.method == text "fiber"
      && rt.is_datetime r.timestamp
      && is_hash r.reference
      && nonempty r.challenge_id

  unfoldable pub parse_payment_receipt : PaymentReceipt → Result PaymentReceipt
  parse_payment_receipt r =
      if is_payment_receipt r then ok r else err (plain_error (text "ZodError"))

  -- FiberChargeMethodDetailsSchema
  is_method_details : FiberChargeMethodDetails → Bool
  is_method_details d =
      nonempty d.invoice
      && is_hash d.payment_hash
      && opt_all nonempty d.invoice_currency
      && opt_all rt.is_datetime d.invoice_expires_at
      && opt_all (λ s. is_hex_text s && ltb 2 (length s)) d.invoice_udt_script
      && is_udt_type_script d.udt_type_script

  -- FiberChargeRequestSchema
  unfoldable pub is_charge_request : FiberChargeRequest → Bool
  unfolding is_method_details is_udt_type_script
  is_charge_request r =
      is_positive_decimal r.amount
      && nonempty r.currency
      && opt_all nonempty r.recipient
      && opt_all nonempty r.description
      && opt_all nonempty r.external_id
      && is_method_details r.method_details

  unfoldable pub parse_charge_request : FiberChargeRequest → Result FiberChargeRequest
  parse_charge_request r = if is_charge_request r then ok r else err (plain_error (text "ZodError"))

-- FiberCredentialPayloadSchema
unfoldable pub parse_credential_payload : FiberCredentialPayload → Result FiberCredentialPayload
parse_credential_payload p =
    if is_hash p.payment_hash then ok p else err (plain_error (text "ZodError"))
