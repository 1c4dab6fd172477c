-- ===== src/Tests/Converting.antt =====
-- An F402 challenge and an x402 payment, converted on the lawful platform.
use fiber_paid_http.Tests.Postfix.{write, read, steps}
use fiber_paid_http.Tests.Unary.{to_letters, of_letters}
use fiber_paid_http.Core.Schemas.{
  parse_charge_request, is_charge_request, is_positive_decimal, is_hash, parse_payment_challenge,
  is_payment_challenge, custom_names_valid, parse_payment_credential,
}
use fiber_paid_http.Prelude.{
  ◌≡◌, ◌↔◌, refl, text, ◌==◌, true, none, some, lower, ok, to_lower, opt_eq,
}
use fiber_paid_http.Core.JsonValue.{end}
use fiber_paid_http.Core.Types.{
  PaymentChallenge, PaymentCredential, FiberChargeRequest, testnet, ckb_hash,
}
use fiber_paid_http.Core.Json.{charge_json}
use fiber_paid_http.Core.Encoding.{encode_json_base64url}
use fiber_paid_http.Core.Crypto.{bind_challenge_id}
use fiber_paid_http.Core.ChargeEncoding.{encode_fiber_charge_request, decode_fiber_charge_request}
use fiber_paid_http.F402.{
  F402Challenge, F402Proof, parse_f402_proof, charge_of, pending_challenge, f402_challenge_to_mpp,
  f402_proof_to_credential, mpp_challenge_to_f402_body,
}
use fiber_paid_http.F402.Conversion.{credential_for, f402_body-challenge_to_mpp, f402_proof_iff}
use fiber_paid_http.X402.Types.{
  x402_version, X402FiberRequirements, PaymentPayload, is_x402_network, is_asset,
}
use fiber_paid_http.X402.Conversion.{
  requirements_for, resource_expected, payment_credential_to_x402_payload,
  x402_payment_payload_to_credential,
}
use fiber_paid_http.X402.Credential.{
  x402_credential, IsBacked, x402_payload-round_trip, x402_payload-IsBacked,
}
use fiber_paid_http.Tests.{hash_1, charge_1, resource_1}
use fiber_paid_http.Tests.Lawful.{lawful_platform, lawful_platform-IsLawful}

abbrev f402_1 : F402Challenge
f402_1 = record {
  token = none;
  invoice = text "fibt1";
  payment_hash = hash_1;
  amount = text "100";
  currency = text "CKB";
  expires_at = text "2026-01-01T00:00:00Z";
  resource = none;
  issuer = none;
  fiber_node_id = some (text "node");
  network = testnet;
  hash_algorithm = ckb_hash;
}

abbrev proof_1 : F402Proof
proof_1 = record { token = none; payment_hash = hash_1 }

abbrev unbound_1 : PaymentChallenge
unbound_1 =
    pending_challenge lawful_platform (text "api")
      (encode_json_base64url lawful_platform (charge_json (charge_of lawful_platform f402_1)))
      (text "2026-01-01T00:00:00Z") none

abbrev mpp_1 : PaymentChallenge
mpp_1 = record unbound_1 { id = bind_challenge_id lawful_platform unbound_1 (text "secret") }

mpp_1-made :
    f402_challenge_to_mpp lawful_platform f402_1 resource_1 (text "api") (text "secret") ≡ ok mpp_1
unfolding f402_challenge_to_mpp text is_hash is_positive_decimal parse_charge_request
    is_charge_request encode_fiber_charge_request parse_payment_challenge is_payment_challenge ◌==◌
    to_letters write charge_json to_lower custom_names_valid bind_challenge_id
mpp_1-made = refl

f402_body-challenge_to_mpp_example :
    mpp_challenge_to_f402_body lawful_platform mpp_1
    ≡ ok (record {
      invoice = text "fibt1";
      payment_hash = hash_1;
      amount = text "100";
      currency = lower (text "CKB");
      expires_at = some (text "2026-01-01T00:00:00Z");
      challenge_id = mpp_1.id;
      network = testnet;
      hash_algorithm = ckb_hash;
    })
f402_body-challenge_to_mpp_example =
    f402_body-challenge_to_mpp lawful_platform f402_1 resource_1 (text "api") (text "secret") mpp_1
      lawful_platform-IsLawful mpp_1-made

f402_proof_iff_example :
    (f402_proof_to_credential lawful_platform proof_1 mpp_1
      ≡ ok (credential_for lawful_platform proof_1 mpp_1))
    ↔ ((parse_f402_proof proof_1 ≡ ok proof_1) × (proof_1.payment_hash ≡ f402_1.payment_hash))
f402_proof_iff_example =
    f402_proof_iff lawful_platform f402_1 resource_1 (text "api") (text "secret") mpp_1
      lawful_platform-IsLawful mpp_1-made proof_1

abbrev charge_3 : FiberChargeRequest
charge_3 = record charge_1 { currency = text "CKB"; recipient = some (text "node") }

abbrev requirements_1 : X402FiberRequirements
requirements_1 = requirements_for lawful_platform charge_3 (text "node") 60

abbrev credential_3 : PaymentCredential
credential_3 = record {
  challenge = mpp_1;
  source = none;
  payload = record { payment_hash = hash_1; extra = end };
  extra = end;
}

abbrev payload_1 : PaymentPayload
payload_1 = record {
  version = x402_version;
  resource = some (record { url = text "/data"; description = none });
  accepted = requirements_for lawful_platform (charge_of lawful_platform f402_1) (text "node") 60;
  payload = credential_3.payload;
}

mpp_1-decoded :
    decode_fiber_charge_request lawful_platform mpp_1.request
    ≡ ok (charge_of lawful_platform f402_1)
unfolding decode_fiber_charge_request encode_json_base64url to_letters write charge_json text
    to_lower ◌==◌ of_letters read steps parse_charge_request is_charge_request is_positive_decimal
    is_hash
mpp_1-decoded = refl

payload_1-made :
    payment_credential_to_x402_payload lawful_platform credential_3 60
      (some (record { url = text "/data"; description = none }))
    ≡ ok payload_1
unfolding payment_credential_to_x402_payload parse_payment_credential is_payment_challenge
    bind_challenge_id text ◌==◌ encode_json_base64url to_letters write charge_json to_lower
    custom_names_valid decode_fiber_charge_request is_hash of_letters read steps
    parse_charge_request is_charge_request is_positive_decimal is_x402_network is_asset
payload_1-made = refl

payload_1-expected : resource_expected (some (text "/data")) payload_1.resource ≡ true
unfolding text opt_eq ◌==◌
payload_1-expected = refl

x402_payload-round_trip_example :
    x402_payment_payload_to_credential lawful_platform payload_1 mpp_1 (some (text "/data"))
    ≡ ok (x402_credential lawful_platform mpp_1 credential_3.payload)
x402_payload-round_trip_example =
    x402_payload-round_trip lawful_platform credential_3 60
      (some (record { url = text "/data"; description = none })) payload_1 payload_1-made
      (charge_of lawful_platform f402_1) mpp_1-decoded refl (some (text "/data")) payload_1-expected

x402_payload-IsBacked_example :
    IsBacked lawful_platform payload_1 mpp_1
      (some (text "/data"))
      (x402_credential lawful_platform mpp_1 credential_3.payload)
x402_payload-IsBacked_example =
    x402_payload-IsBacked lawful_platform payload_1 mpp_1 (some (text "/data"))
      (x402_credential lawful_platform mpp_1 credential_3.payload) x402_payload-round_trip_example
