-- ===== src/X402/Conversion.antt =====
-- packages/x402-compat/src/index.ts: the conversions between Fiber charges, MPP messages and x402
-- messages.
use fiber_paid_http.Prelude.{
  ℕ, zero, suc, Text, text, ◌==◌, opt_eq, Bool, true, not, Option, none, some, List, [], ◌∷◌, ◌++◌,
  drop, lower, eqb, is_empty, truthy, Result, ok, err, plain_error, ensure, ◌>>=◌, ◌>>◌,
}
use fiber_paid_http.Core.JsonValue.{end}
use fiber_paid_http.Core.Types.{
  FiberChargeRequest, PaymentChallenge, PaymentCredential, PaymentReceipt, ResourceDescriptor,
  FiberNetwork,
}
use fiber_paid_http.Core.Json.{network_name}
use fiber_paid_http.Core.Runtime.{Runtime}
use fiber_paid_http.Core.Schemas.{
  is_positive_decimal, parse_charge_request, parse_payment_challenge, parse_payment_credential,
  parse_payment_receipt,
}
use fiber_paid_http.Core.Crypto.{bind_challenge_id}
use fiber_paid_http.Core.ChargeEncoding.{
  network_of, encode_fiber_charge_request, decode_fiber_charge_request,
}
use fiber_paid_http.X402.Types.{
  x402_version, x402_fiber_scheme, x402_fiber_profile, X402FiberRequirements, is_x402_network,
  parse_x402_payload, parse_x402_requirements, requirements_json, ResourceInfo, PaymentRequired,
  PaymentPayload, SettleResponse,
}

abbrev pub fiber_network_to_x402 : FiberNetwork → Text
fiber_network_to_x402 network = text "fiber:" ++ network_name network

-- `network.slice("fiber:".length)`, which FiberChargeRequestSchema checks
unfoldable pub x402_network_to_fiber : Text → Result FiberNetwork
unfolding network_of
x402_network_to_fiber network = network_of (drop 6 network)

-- `!charge.recipient` throws
abbrev pub required_recipient : Option Text → Result Text
required_recipient recipient = elim (truthy recipient) [
  | none ↦ err (plain_error (text "x402-fiber-recipient-required"))
  | some given ↦ ok given
]

unfoldable pub parse_resource_info : ResourceInfo → Result ResourceInfo
parse_resource_info input = do
  ensure (not (is_empty input.url)) (plain_error (text "x402-resource-url-required"))
  ok input

abbrev pub parse_optional_resource : Option ResourceInfo → Result (Option ResourceInfo)
parse_optional_resource none = ok none
parse_optional_resource (some input) = parse_resource_info input >>= λ parsed. ok (some parsed)

-- `parsePaymentRequiredV2`, and the resource that it makes sure of
unfoldable pub parse_payment_required_v2 : PaymentRequired → Result ResourceInfo
parse_payment_required_v2 input = elim input.resource [
  | none ↦ err (plain_error (text "x402-v2-required"))
  | some resource ↦
      ensure (eqb input.version x402_version) (plain_error (text "x402-v2-required")) >> ok resource
]

-- `required.accepts[index]`
abbrev pub requirement_at : ℕ → List X402FiberRequirements → Result X402FiberRequirements
requirement_at n [] = err (plain_error (text "x402-fiber-requirement-missing"))
requirement_at zero (r ∷ rs) = ok r
requirement_at (suc n) (r ∷ rs) = requirement_at n rs

-- `input.expectedResourceUrl && paymentPayload.resource?.url !== input.expectedResourceUrl`, negated
abbrev pub url_of : Option ResourceInfo → Option Text
url_of none = none
url_of (some resource) = some resource.url

abbrev pub resource_expected : Option Text → Option ResourceInfo → Bool
resource_expected expected resource = elim (truthy expected) [
  | none ↦ true
  | some url ↦ opt_eq (url_of resource) (some url)
]

module _ (rt : Runtime) where
  abbrev pub requirements_for : FiberChargeRequest → Text → ℕ → X402FiberRequirements
  requirements_for charge recipient max_timeout_seconds =
      let currency = lower charge.currency in
      record {
        scheme = x402_fiber_scheme;
        network = fiber_network_to_x402 charge.method_details.network;
        amount = charge.amount;
        asset = text "fiber:" ++ currency;
        pay_to = recipient;
        max_timeout_seconds = max_timeout_seconds;
        fiber = record {
          profile = x402_fiber_profile;
          currency = currency;
          description = charge.description;
          external_id = charge.external_id;
          invoice = charge.method_details.invoice;
          invoice_currency = charge.method_details.invoice_currency;
          invoice_expires_at = charge.method_details.invoice_expires_at;
          invoice_udt_script = charge.method_details.invoice_udt_script;
          payment_hash = charge.method_details.payment_hash;
          hash_algorithm = charge.method_details.hash_algorithm;
          udt_type_script = charge.method_details.udt_type_script;
        };
      }

  unfoldable pub fiber_charge_to_x402_requirements :
      FiberChargeRequest → ℕ → Result X402FiberRequirements
  unfolding parse_x402_requirements
  fiber_charge_to_x402_requirements input max_timeout_seconds = do
    charge ← parse_charge_request rt input
    recipient ← required_recipient charge.recipient
    parse_x402_requirements rt (requirements_for charge recipient max_timeout_seconds)

  abbrev pub charge_for : X402FiberRequirements → FiberNetwork → FiberChargeRequest
  charge_for requirement network = record {
    amount = requirement.amount;
    currency = requirement.fiber.currency;
    recipient = some requirement.pay_to;
    description = requirement.fiber.description;
    external_id = requirement.fiber.external_id;
    method_details = record {
      invoice = requirement.fiber.invoice;
      payment_hash = requirement.fiber.payment_hash;
      network = network;
      hash_algorithm = requirement.fiber.hash_algorithm;
      invoice_currency = requirement.fiber.invoice_currency;
      invoice_expires_at = requirement.fiber.invoice_expires_at;
      invoice_udt_script = requirement.fiber.invoice_udt_script;
      udt_type_script = requirement.fiber.udt_type_script;
    };
  }

  unfoldable pub x402_requirements_to_fiber_charge :
      X402FiberRequirements → Result FiberChargeRequest
  unfolding x402_network_to_fiber parse_x402_requirements
  x402_requirements_to_fiber_charge input = do
    requirement ← parse_x402_requirements rt input
    ensure (requirement.asset == text "fiber:" ++ lower requirement.fiber.currency)
        (plain_error (text "x402-fiber-asset-mismatch"))
    network ← x402_network_to_fiber requirement.network
    parse_charge_request rt (charge_for requirement network)

  unfoldable pub mpp_challenge_to_x402_payment_required :
      PaymentChallenge → ResourceInfo → ℕ → Option Text → Result PaymentRequired
  unfolding parse_resource_info fiber_charge_to_x402_requirements
  mpp_challenge_to_x402_payment_required given resource_input max_timeout_seconds error = do
    challenge ← parse_payment_challenge rt given
    resource ← parse_resource_info resource_input
    charge ← decode_fiber_charge_request rt challenge.request
    requirement ← fiber_charge_to_x402_requirements charge max_timeout_seconds
    ok (record {
      version = x402_version;
      error = error;
      resource = some resource;
      accepts = requirement ∷ [];
      fiber = some (record {
        profile = x402_fiber_profile;
        challenge_id = challenge.id;
        expires = challenge.expires;
        digest = challenge.digest;
      });
    })

  abbrev pub pending_x402 : Text → Text → Text → Option Text → Option Text → PaymentChallenge
  pending_x402 realm request expires digest description = record {
    id = text "pending";
    realm = realm;
    method = text "fiber";
    intent = text "charge";
    request = request;
    expires = some expires;
    digest = digest;
    description = description;
    opaque = none;
    custom = [];
  }

  abbrev index_of : Option ℕ → ℕ
  index_of none = 0
  index_of (some n) = n

  unfoldable pub x402_payment_required_to_mpp :
      PaymentRequired → Option ℕ → ResourceDescriptor → Text → Text → Text → Result PaymentChallenge
  unfolding parse_payment_required_v2 x402_requirements_to_fiber_charge
  x402_payment_required_to_mpp required accepted_index resource realm secret expires_at = do
    described ← parse_payment_required_v2 required
    accepted ← requirement_at (index_of accepted_index) required.accepts
    ensure (described.url == resource.url) (plain_error (text "x402-fiber-resource-mismatch"))
    charge ← x402_requirements_to_fiber_charge accepted
    request ← encode_fiber_charge_request rt charge
    unbound ←
        parse_payment_challenge rt
          (pending_x402 realm request expires_at resource.digest described.description)
    parse_payment_challenge rt (record unbound { id = bind_challenge_id rt unbound secret })

  unfoldable pub payment_credential_to_x402_payload :
      PaymentCredential → ℕ → Option ResourceInfo → Result PaymentPayload
  unfolding parse_resource_info fiber_charge_to_x402_requirements parse_x402_payload
  payment_credential_to_x402_payload given max_timeout_seconds resource_input = do
    credential ← parse_payment_credential rt given
    resource ← parse_optional_resource resource_input
    charge ← decode_fiber_charge_request rt credential.challenge.request
    accepted ← fiber_charge_to_x402_requirements charge max_timeout_seconds
    payload ← parse_x402_payload credential.payload
    ok (record {
      version = x402_version;
      resource = resource;
      accepted = accepted;
      payload = payload;
    })

  -- `parsePaymentPayloadV2`
  unfoldable pub parse_payment_payload_v2 : PaymentPayload → Result PaymentPayload
  unfolding parse_x402_requirements
  parse_payment_payload_v2 input = do
    ensure (eqb input.version x402_version) (plain_error (text "x402-v2-required"))
    accepted ← parse_x402_requirements rt input.accepted
    ok input

  unfoldable pub x402_payment_payload_to_credential :
      PaymentPayload → PaymentChallenge → Option Text → Result PaymentCredential
  unfolding parse_payment_payload_v2 fiber_charge_to_x402_requirements parse_x402_payload
      requirements_json
  x402_payment_payload_to_credential given echoed expected_resource_url = do
    payment_payload ← parse_payment_payload_v2 given
    challenge ← parse_payment_challenge rt echoed
    ensure (resource_expected expected_resource_url payment_payload.resource)
        (plain_error (text "x402-fiber-resource-mismatch"))
    charge ← decode_fiber_charge_request rt challenge.request
    expected ← fiber_charge_to_x402_requirements charge payment_payload.accepted.max_timeout_seconds
    ensure
        (rt.canonical_json (requirements_json expected)
          == rt.canonical_json (requirements_json payment_payload.accepted))
        (plain_error (text "x402-fiber-requirement-mismatch"))
    payload ← parse_x402_payload payment_payload.payload
    ensure (payload.payment_hash == expected.fiber.payment_hash)
        (plain_error (text "wrong-payment-hash"))
    parse_payment_credential rt (record {
      challenge = challenge;
      source = some (text "x402");
      payload = payload;
      extra = end;
    })

  unfoldable pub payment_receipt_to_x402_settle_response :
      PaymentReceipt → Text → Text → Result SettleResponse
  unfolding is_x402_network
  payment_receipt_to_x402_settle_response given network amount = do
    receipt ← parse_payment_receipt rt given
    ensure (is_x402_network network) (plain_error (text "ZodError"))
    ensure (is_positive_decimal amount) (plain_error (text "x402-fiber-invalid-amount"))
    ok (record {
      success = true;
      transaction = receipt.reference;
      network = network;
      amount = amount;
      profile = x402_fiber_profile;
      challenge_id = receipt.challenge_id;
      receipt_timestamp = receipt.timestamp;
    })
