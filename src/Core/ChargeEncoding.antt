-- ===== src/Core/ChargeEncoding.antt =====
-- packages/core/src/encoding.ts: the Fiber charge request inside a challenge.
use fiber_paid_http.Prelude.{
  Text, text, ◌==◌, Option, none, some, if◌then◌else◌, Result, ok, plain_error, ensure, ◌>>=◌, ◌>>◌,
}
use fiber_paid_http.Core.JsonValue.{Json, object}
use fiber_paid_http.Core.Types.{
  FiberUdtTypeScript, FiberNetwork, mainnet, testnet, dev, FiberHashAlgorithm, ckb_hash, sha256,
  FiberChargeMethodDetails, FiberChargeRequest,
}
use fiber_paid_http.Core.Json.{charge_json}
use fiber_paid_http.Core.Runtime.{Runtime}
use fiber_paid_http.Core.Schemas.{parse_charge_request}
use fiber_paid_http.Core.Encoding.{
  zod_error, get, text_of, optional_text_of, base64url_decode, encode_json_base64url, json_of,
}

unfoldable pub network_of : Text → Result FiberNetwork
network_of s =
    if s == text "mainnet"
    then ok mainnet
    else (if s == text "testnet"
        then ok testnet
        else (if s == text "dev" then ok dev else zod_error))

unfoldable pub algorithm_of : Text → Result FiberHashAlgorithm
algorithm_of s =
    if s == text "ckb_hash"
    then ok ckb_hash
    else (if s == text "sha256" then ok sha256 else zod_error)

unfoldable pub script_of : Option Json → Result (Option FiberUdtTypeScript)
script_of none = ok none
script_of (some (object m)) = do
  code_hash ← text_of (get (text "code_hash") m)
  hash_type ← text_of (get (text "hash_type") m)
  args ← text_of (get (text "args") m)
  ok (some (record { code_hash = code_hash; hash_type = hash_type; args = args }))
script_of _ = zod_error

unfoldable pub details_of : Option Json → Result FiberChargeMethodDetails
details_of (some (object m)) = do
  invoice ← text_of (get (text "invoice") m)
  payment_hash ← text_of (get (text "paymentHash") m)
  network_name ← text_of (get (text "network") m)
  network ← network_of network_name
  algorithm_name ← text_of (get (text "hashAlgorithm") m)
  hash_algorithm ← algorithm_of algorithm_name
  invoice_currency ← optional_text_of (get (text "invoiceCurrency") m)
  invoice_expires_at ← optional_text_of (get (text "invoiceExpiresAt") m)
  invoice_udt_script ← optional_text_of (get (text "invoiceUdtScript") m)
  udt_type_script ← script_of (get (text "udtTypeScript") m)
  ok (record {
    invoice = invoice;
    payment_hash = payment_hash;
    network = network;
    hash_algorithm = hash_algorithm;
    invoice_currency = invoice_currency;
    invoice_expires_at = invoice_expires_at;
    invoice_udt_script = invoice_udt_script;
    udt_type_script = udt_type_script;
  })
details_of _ = zod_error

module _ (rt : Runtime) where
  unfoldable pub charge_of_json : Json → Result FiberChargeRequest
  unfolding get details_of network_of algorithm_of script_of
  charge_of_json (object m) = do
    amount ← text_of (get (text "amount") m)
    currency ← text_of (get (text "currency") m)
    recipient ← optional_text_of (get (text "recipient") m)
    description ← optional_text_of (get (text "description") m)
    external_id ← optional_text_of (get (text "externalId") m)
    method_details ← details_of (get (text "methodDetails") m)
    parse_charge_request rt (record {
      amount = amount;
      currency = currency;
      recipient = recipient;
      description = description;
      external_id = external_id;
      method_details = method_details;
    })
  charge_of_json _ = zod_error

  unfoldable pub encode_fiber_charge_request : FiberChargeRequest → Result Text
  unfolding encode_json_base64url
  encode_fiber_charge_request request = do
    parsed ← parse_charge_request rt request
    ok (encode_json_base64url rt (charge_json parsed))

  unfoldable pub decode_fiber_charge_request : Text → Result FiberChargeRequest
  unfolding base64url_decode charge_of_json
  decode_fiber_charge_request token = do
    bytes ← base64url_decode rt token
    value ← json_of (rt.parse_json (rt.utf8_decode bytes))
    ensure (rt.canonical_json value == rt.utf8_decode bytes)
        (plain_error (text "Fiber charge request must use JCS before base64url encoding"))
    charge_of_json value
