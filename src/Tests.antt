-- ===== src/Tests.antt =====
-- Concrete data: a platform, a gateway, a stored challenge and a request that pays for it. The
-- children apply the theorems to it.
mod Http
mod Postfix
mod Unary
mod Lawful
mod Accepting
mod Converting
mod Proving
mod Proxying
mod Limiting
mod Redacting
mod Store
mod Serving
mod Paying
mod Polls
use fiber_paid_http.Prelude.{
  ℕ, Text, text, ◌==◌, Bool, true, Option, none, some, List, [], ◌∷◌, if◌then◌else◌, ltb, Result,
  ok, err,
}
use fiber_paid_http.Core.JsonValue.{Json, string, object, end, member}
use fiber_paid_http.Core.Types.{
  PaymentChallenge, PaymentCredential, FiberChargeRequest, Settlement, settled, PaymentReceipt,
  ResourceDescriptor, testnet, ckb_hash,
}
use fiber_paid_http.Core.Json.{credential_json, charge_json, receipt_json}
use fiber_paid_http.Core.Runtime.{Runtime}
use fiber_paid_http.Storage.{ChallengeRecord, RedemptionRecord}

abbrev pub hash_1 : Text
hash_1 = text "0x1111111111111111111111111111111111111111111111111111111111111111"

abbrev pub now_text : Text
now_text = text "2026-01-01T00:00:00.000Z"

abbrev pub challenge_1 : PaymentChallenge
challenge_1 = record {
  id = text "c1";
  realm = text "api";
  method = text "fiber";
  intent = text "charge";
  request = text "json";
  expires = none;
  digest = none;
  description = some (text "a \"q\" \\ b");
  opaque = none;
  custom = (text "note", text "x, y") ∷ [];
}

abbrev pub charge_1 : FiberChargeRequest
charge_1 = record {
  amount = text "100";
  currency = text "ckb";
  recipient = none;
  description = none;
  external_id = none;
  method_details = record {
    invoice = text "fibt1";
    payment_hash = hash_1;
    network = testnet;
    hash_algorithm = ckb_hash;
    invoice_currency = none;
    invoice_expires_at = none;
    invoice_udt_script = none;
    udt_type_script = none;
  };
}

abbrev pub resource_1 : ResourceDescriptor
resource_1 = record { method = text "GET"; url = text "/data"; digest = none; content_type = none }

abbrev pub record_1 : ChallengeRecord
record_1 = record {
  challenge = challenge_1;
  charge_request = charge_1;
  resource_binding = resource_1;
  created_at = now_text;
  expires_at = now_text;
  consumed_at = none;
}

abbrev pub settlement_1 : Settlement
settlement_1 = record {
  status = settled;
  payment_hash = some hash_1;
  invoice_id = none;
  tx_hash = none;
  provider = none;
  observed_at = now_text;
}

abbrev pub redemption_1 : RedemptionRecord
redemption_1 = record {
  challenge_id = text "c1";
  credential_hash = text "h1";
  payment_hash = hash_1;
  settlement = settlement_1;
  consumed_at = now_text;
}

abbrev pub receipt_1 : PaymentReceipt
receipt_1 = record {
  status = text "success";
  method = text "fiber";
  timestamp = now_text;
  reference = hash_1;
  challenge_id = text "c1";
}

abbrev pub credential_1 : PaymentCredential
credential_1 = record {
  challenge = challenge_1;
  source = none;
  payload = record { payment_hash = hash_1; extra = end };
  extra = end;
}

-- The text "credential" stands for the credential, "receipt" for the receipt and any other text for the charge; every digest is
-- the same.
abbrev pub platform : Runtime
platform = record {
  canonical_json = λ j. text "json";
  parse_json = λ s.
      if s == text "credential"
      then some (credential_json credential_1)
      else (if s == text "receipt"
          then some (receipt_json receipt_1)
          else some (charge_json charge_1));
  hmac_base64url = λ s t. text "c1";
  sha256_hex = λ s. text "h1";
  sha256_base64 = λ s. text "h1";
  utf8_encode = λ s. s;
  utf8_decode = λ s. s;
  base64url_decode = λ s. s;
  base64url_encode = λ s. s;
  base64_decode = λ s. s;
  base64_encode = λ s. s;
  is_datetime = λ s. true;
  get_time = λ s. none;
  to_iso_string = λ n. now_text;
  locale_le = λ s t. true;
  path_and_search = λ s. s;
  resolve_url = λ s t. s;
}
