-- ===== src/Core/Tokens/ChargeTokens.antt =====
-- packages/core/src/encoding.ts: `encodeFiberChargeRequest` and `decodeFiberChargeRequest`.
use fiber_paid_http.Prelude.{
  ◌≡◌, ◌∙◌, refl, Text, text, ◌==◌, ==_refl, false, Option, none, some, arith, ok,
}
use fiber_paid_http.Core.JsonValue.{Json, Members, end, member}
use fiber_paid_http.Core.Types.{
  FiberUdtTypeScript, FiberNetwork, mainnet, testnet, dev, FiberHashAlgorithm, ckb_hash, sha256,
  FiberChargeMethodDetails, FiberChargeRequest,
}
use fiber_paid_http.Core.Json.{
  charge_json, details_json, script_json, network_name, algorithm_name, optional_script, optional,
}
use fiber_paid_http.Core.Runtime.{Runtime}
use fiber_paid_http.Core.Schemas.{parse_charge_request}
use fiber_paid_http.Core.Encoding.{get, encode_json_base64url}
use fiber_paid_http.Core.ChargeEncoding.{
  network_of, algorithm_of, script_of, details_of, charge_of_json, encode_fiber_charge_request,
  decode_fiber_charge_request,
}
use fiber_paid_http.Core.Tokens.SameJson.{
  SameJson, SameMember, same_members, read_text, read_optional, read_object, read_none,
  string_option,
}
use fiber_paid_http.Core.Tokens.Lawful.{IsLawful}
use fiber_paid_http.Core.Tokens.ReadBack.{get_skipped, get_found, decode-encode_base64url}

pub network_of-network_name : (n : FiberNetwork) → network_of (network_name n) ≡ ok n
unfolding network_of text ◌==◌
network_of-network_name mainnet = refl
network_of-network_name testnet = refl
network_of-network_name dev = refl

pub algorithm_of-algorithm_name : (a : FiberHashAlgorithm) → algorithm_of (algorithm_name a) ≡ ok a
unfolding algorithm_of text ◌==◌
algorithm_of-algorithm_name ckb_hash = refl
algorithm_of-algorithm_name sha256 = refl

script_json_option : Option FiberUdtTypeScript → Option Json
script_json_option none = none
script_json_option (some s) = some (script_json s)

read_script :
    (s : Option FiberUdtTypeScript) (o p : Option Json)
    → SameMember o p
    → o ≡ script_json_option s
    → script_of p ≡ ok s
unfolding script_of script_json_option script_json get text ◌==◌
read_script none o p h e = rw (read_none o p h e) refl
read_script (some s) o p h e =
    let (n, same, members) = read_object _ o p h e in
    rw same (
      rw
        (
          read_text s.code_hash _ _ (members (text "code_hash")) refl,
          read_text s.hash_type _ _ (members (text "hash_type")) refl,
          read_text s.args _ _ (members (text "args")) refl,
        )
        refl)

get-optional_script :
    (s : Option FiberUdtTypeScript)
    → get (text "udtTypeScript") (optional_script s) ≡ script_json_option s
unfolding get text ◌==◌ script_json_option
get-optional_script none = refl
get-optional_script (some s) = refl

get-other_script :
    (key : Text) (s : Option FiberUdtTypeScript)
    → (text "udtTypeScript" == key) ≡ false
    → get key (optional_script s) ≡ none
unfolding get
get-other_script key none h = refl
get-other_script key (some s) h = rw h refl

module _ (currency expires udt : Option Text) (s : Option FiberUdtTypeScript) where
  abbrev tail : Members
  tail = optional (text "invoiceCurrency") currency (
      optional (text "invoiceExpiresAt") expires
        (optional (text "invoiceUdtScript") udt (optional_script s)))

  get-currency : get (text "invoiceCurrency") tail ≡ string_option currency
  unfolding text ◌==◌
  get-currency = get_found (text "invoiceCurrency") currency _ (
      get_skipped (text "invoiceCurrency") (text "invoiceExpiresAt") expires _ refl
      ∙ get_skipped (text "invoiceCurrency") (text "invoiceUdtScript") udt _ refl
      ∙ get-other_script (text "invoiceCurrency") s refl)

  get-expires : get (text "invoiceExpiresAt") tail ≡ string_option expires
  unfolding text ◌==◌
  get-expires =
      get_skipped (text "invoiceExpiresAt") (text "invoiceCurrency") currency _ refl
      ∙ get_found (text "invoiceExpiresAt") expires _ (
          get_skipped (text "invoiceExpiresAt") (text "invoiceUdtScript") udt _ refl
          ∙ get-other_script (text "invoiceExpiresAt") s refl)

  get-udt : get (text "invoiceUdtScript") tail ≡ string_option udt
  unfolding text ◌==◌
  get-udt =
      get_skipped (text "invoiceUdtScript") (text "invoiceCurrency") currency _ refl
      ∙ get_skipped (text "invoiceUdtScript") (text "invoiceExpiresAt") expires _ refl
      ∙ get_found (text "invoiceUdtScript") udt _
          (get-other_script (text "invoiceUdtScript") s refl)

  get-script : get (text "udtTypeScript") tail ≡ script_json_option s
  unfolding text ◌==◌
  get-script =
      get_skipped (text "udtTypeScript") (text "invoiceCurrency") currency _ refl
      ∙ get_skipped (text "udtTypeScript") (text "invoiceExpiresAt") expires _ refl
      ∙ get_skipped (text "udtTypeScript") (text "invoiceUdtScript") udt _ refl
      ∙ get-optional_script s

read_details :
    (d : FiberChargeMethodDetails) (o p : Option Json)
    → SameMember o p
    → o ≡ some (details_json d)
    → details_of p ≡ ok d
unfolding details_of details_json get text ◌==◌
read_details d o p h e =
    let (n, same, members) = read_object _ o p h e in
    let currency =
      get-currency d.invoice_currency d.invoice_expires_at d.invoice_udt_script d.udt_type_script in
    let expires =
      get-expires d.invoice_currency d.invoice_expires_at d.invoice_udt_script d.udt_type_script in
    let udt =
      get-udt d.invoice_currency d.invoice_expires_at d.invoice_udt_script d.udt_type_script in
    let script =
      get-script d.invoice_currency d.invoice_expires_at d.invoice_udt_script d.udt_type_script in
    rw same (
      rw
        (
          read_text d.invoice _ _ (members (text "invoice")) refl,
          read_text d.payment_hash _ _ (members (text "paymentHash")) refl,
          read_text (network_name d.network) _ _ (members (text "network")) refl,
          network_of-network_name d.network,
          read_text (algorithm_name d.hash_algorithm) _ _ (members (text "hashAlgorithm")) refl,
          algorithm_of-algorithm_name d.hash_algorithm,
          read_optional d.invoice_currency _ _ (members (text "invoiceCurrency")) currency,
          read_optional d.invoice_expires_at _ _ (members (text "invoiceExpiresAt")) expires,
          read_optional d.invoice_udt_script _ _ (members (text "invoiceUdtScript")) udt,
          read_script d.udt_type_script _ _ (members (text "udtTypeScript")) script,
        )
        refl)

module _ (recipient description external : Option Text) (details : Json) where
  abbrev charge_tail : Members
  charge_tail = optional (text "recipient") recipient (
      optional (text "description") description
        (optional (text "externalId") external (member (text "methodDetails") details end)))

  get-recipient : get (text "recipient") charge_tail ≡ string_option recipient
  unfolding text ◌==◌ get
  get-recipient = get_found (text "recipient") recipient _ (
      get_skipped (text "recipient") (text "description") description _ refl
      ∙ get_skipped (text "recipient") (text "externalId") external _ refl)

  get-description : get (text "description") charge_tail ≡ string_option description
  unfolding text ◌==◌ get
  get-description =
      get_skipped (text "description") (text "recipient") recipient _ refl
      ∙ get_found (text "description") description _
          (get_skipped (text "description") (text "externalId") external _ refl)

  get-external : get (text "externalId") charge_tail ≡ string_option external
  unfolding text ◌==◌ get
  get-external =
      get_skipped (text "externalId") (text "recipient") recipient _ refl
      ∙ get_skipped (text "externalId") (text "description") description _ refl
      ∙ get_found (text "externalId") external _ refl

  get-details : get (text "methodDetails") charge_tail ≡ some details
  unfolding text ◌==◌ get
  get-details =
      get_skipped (text "methodDetails") (text "recipient") recipient _ refl
      ∙ get_skipped (text "methodDetails") (text "description") description _ refl
      ∙ get_skipped (text "methodDetails") (text "externalId") external _ refl

charge_of_json_same :
    (rt : Runtime) (r : FiberChargeRequest) (w : Json)
    → SameJson (charge_json r) w
    → charge_of_json rt w ≡ parse_charge_request rt r
unfolding charge_json charge_of_json get text ◌==◌
charge_of_json_same rt r w h =
    let (n, same, members) = same_members _ w h in
    let recipient =
      get-recipient r.recipient r.description r.external_id (details_json r.method_details) in
    let description =
      get-description r.recipient r.description r.external_id (details_json r.method_details) in
    let external =
      get-external r.recipient r.description r.external_id (details_json r.method_details) in
    let details =
      get-details r.recipient r.description r.external_id (details_json r.method_details) in
    rw same (
      rw
        (
          read_text r.amount _ _ (members (text "amount")) refl,
          read_text r.currency _ _ (members (text "currency")) refl,
          read_optional r.recipient _ _ (members (text "recipient")) recipient,
          read_optional r.description _ _ (members (text "description")) description,
          read_optional r.external_id _ _ (members (text "externalId")) external,
          read_details r.method_details _ _ (members (text "methodDetails")) details,
        )
        refl)

pub encode_charge_lem :
    (rt : Runtime) (r : FiberChargeRequest) (token : Text)
    → encode_fiber_charge_request rt r ≡ ok token
    → (parse_charge_request rt r ≡ ok r) × (encode_json_base64url rt (charge_json r) ≡ token)
unfolding encode_fiber_charge_request parse_charge_request
encode_charge_lem rt r token h = ground arith

-- On a lawful platform a charge request that was encoded decodes to itself.
pub decode-encode_charge :
    (rt : Runtime) (r : FiberChargeRequest) (token : Text)
    → IsLawful rt
    → encode_fiber_charge_request rt r ≡ ok token
    → decode_fiber_charge_request rt token ≡ ok r
unfolding decode_fiber_charge_request
decode-encode_charge rt r token lawful h =
    let (valid, e) = encode_charge_lem rt r token h in
    let j = charge_json r in
    rw (← e) (
      rw (decode-encode_base64url rt lawful j) (
        rw (lawful.utf8 j, lawful.parses j)
          (rw (lawful.canonical j) (
            rw (==_refl (rt.canonical_json j))
              (charge_of_json_same rt r (lawful.read_back j) (lawful.same j) ∙ valid)))))
