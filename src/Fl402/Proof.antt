-- ===== src/Fl402/Proof.antt =====
-- packages/fl402-compat/src/index.ts: challenges, proofs of payment, and their MPP counterparts.
use fiber_paid_http.Prelude.{
  ℕ, Text, text, ◌==◌, opt_eq, Bool, ◌&&◌, Option, none, some, [], ◌∷◌, drop, Result, ok,
  plain_error, ensure, ◌>>=◌, ◌>>◌,
}
use fiber_paid_http.Core.JsonValue.{end}
use fiber_paid_http.Core.Types.{
  ResourceDescriptor, FiberNetwork, dev, FiberHashAlgorithm, ckb_hash, sha256, FiberChargeRequest,
  PaymentChallenge, PaymentCredential,
}
use fiber_paid_http.Core.Json.{network_name, algorithm_name}
use fiber_paid_http.Core.Runtime.{Runtime}
use fiber_paid_http.Core.Schemas.{
  parse_charge_request, parse_payment_challenge, parse_payment_credential,
}
use fiber_paid_http.Core.Crypto.{resource_hash, bind_challenge_id}
use fiber_paid_http.Core.ChargeEncoding.{encode_fiber_charge_request, decode_fiber_charge_request}
use fiber_paid_http.Fl402.Types.{
  Hashes, normalize_hex, Fl402Caveats, Fl402CapabilityPayload, Fl402Challenge, Fl402Proof,
  parse_fl402_caveats, parse_fl402_challenge, parse_fl402_proof,
}
use fiber_paid_http.Fl402.Capability.{issue_fl402_capability, verify_fl402_capability}

-- The input of `issueFl402Challenge` beside the root key, the nonce and the time of issue.
pub record ChallengeInput : Type 0 where
  pub invoice : Text
  pub payment_hash : Text
  pub amount : Text
  pub currency : Option Text
  pub expires_at : Text
  pub resource : ResourceDescriptor
  pub challenge_id : Text
  pub issuer : Option Text
  pub fiber_node_id : Option Text
  pub network : Option FiberNetwork
  pub hash_algorithm : Option FiberHashAlgorithm

-- `value ?? fallback`
abbrev pub or_else : {A : Type 0} → Option A → A → A
or_else none fallback = fallback
or_else (some value) fallback = value

abbrev pub same_network : FiberNetwork → FiberNetwork → Bool
same_network a b = network_name a == network_name b

abbrev pub same_algorithm : FiberHashAlgorithm → FiberHashAlgorithm → Bool
same_algorithm a b = algorithm_name a == algorithm_name b

module _ (rt : Runtime) (hashes : Hashes) where
  digest_of_hex : FiberHashAlgorithm → Text → Text
  digest_of_hex sha256 hex = hashes.sha256_of_hex hex
  digest_of_hex ckb_hash hex = hashes.blake2b_of_hex hex

  unfoldable pub hash_payment_preimage : Text → FiberHashAlgorithm → Text
  unfolding digest_of_hex normalize_hex
  hash_payment_preimage preimage algorithm =
      b'0' ∷ b'x' ∷ digest_of_hex algorithm (drop 2 (normalize_hex preimage))

  abbrev pub caveats_for : ChallengeInput → Fl402Caveats
  caveats_for input = record {
    challenge_id = input.challenge_id;
    resource_hash = resource_hash rt input.resource;
    method = input.resource.method;
    url = input.resource.url;
    amount = input.amount;
    currency = or_else input.currency (text "ckb");
    payment_hash = input.payment_hash;
    invoice = input.invoice;
    expires_at = input.expires_at;
    issuer = input.issuer;
    fiber_node_id = input.fiber_node_id;
    network = or_else input.network dev;
    hash_algorithm = or_else input.hash_algorithm ckb_hash;
  }

  abbrev pub challenge_for : ChallengeInput → Fl402Caveats → Text → Fl402Challenge
  challenge_for input caveats capability = record {
    challenge_id = input.challenge_id;
    capability = capability;
    invoice = input.invoice;
    payment_hash = input.payment_hash;
    amount = input.amount;
    currency = caveats.currency;
    expires_at = input.expires_at;
    resource = some input.resource.url;
    resource_hash = caveats.resource_hash;
    issuer = input.issuer;
    fiber_node_id = input.fiber_node_id;
    network = caveats.network;
    hash_algorithm = caveats.hash_algorithm;
  }

  unfoldable pub issue_fl402_challenge : Text → ChallengeInput → Text → Text → Result Fl402Challenge
  unfolding issue_fl402_capability
  issue_fl402_challenge root_key input nonce issued_at = do
    caveats ← parse_fl402_caveats rt (caveats_for input)
    capability ← issue_fl402_capability rt hashes root_key caveats nonce issued_at
    parse_fl402_challenge rt (challenge_for input caveats capability)

  unfoldable pub verify_fl402_proof :
      Fl402Challenge → Fl402Proof → Text → Option Text → ℕ → Result Fl402CapabilityPayload
  unfolding verify_fl402_capability hash_payment_preimage
  verify_fl402_proof given_challenge given_proof root_key now clock = do
    challenge ← parse_fl402_challenge rt given_challenge
    proof ← parse_fl402_proof given_proof
    ensure (challenge.capability == proof.capability)
        (plain_error (text "fl402-capability-mismatch"))
    payload ← verify_fl402_capability rt hashes proof.capability root_key now clock
    let caveats = payload.caveats
    let proof_hash = hash_payment_preimage proof.preimage proof.hash_algorithm
    let expected_hash = normalize_hex caveats.payment_hash
    ensure
        (normalize_hex challenge.payment_hash == expected_hash
          && normalize_hex proof.payment_hash == expected_hash)
        (plain_error (text "wrong-payment-hash"))
    ensure (normalize_hex proof_hash == expected_hash) (plain_error (text "wrong-preimage"))
    ensure (challenge.resource_hash == caveats.resource_hash) (plain_error (text "wrong-resource"))
    ensure (opt_eq challenge.resource (some caveats.url)) (plain_error (text "wrong-resource"))
    ensure (challenge.challenge_id == caveats.challenge_id) (plain_error (text "wrong-challenge"))
    ensure (challenge.invoice == caveats.invoice) (plain_error (text "wrong-invoice"))
    ensure (challenge.amount == caveats.amount) (plain_error (text "wrong-amount"))
    ensure (challenge.currency == caveats.currency) (plain_error (text "wrong-currency"))
    ensure (challenge.expires_at == caveats.expires_at) (plain_error (text "wrong-expiry"))
    ensure (opt_eq challenge.issuer caveats.issuer) (plain_error (text "wrong-issuer"))
    ensure (opt_eq challenge.fiber_node_id caveats.fiber_node_id)
        (plain_error (text "wrong-recipient"))
    ensure (same_network challenge.network caveats.network) (plain_error (text "wrong-network"))
    ensure
        (same_algorithm challenge.hash_algorithm caveats.hash_algorithm
          && same_algorithm proof.hash_algorithm caveats.hash_algorithm)
        (plain_error (text "wrong-hash-algorithm"))
    ok payload

  abbrev pub fl402_charge : Fl402Challenge → FiberChargeRequest
  fl402_charge fl402 = record {
    amount = fl402.amount;
    currency = fl402.currency;
    recipient = fl402.fiber_node_id;
    description = none;
    external_id = none;
    method_details = record {
      invoice = fl402.invoice;
      payment_hash = fl402.payment_hash;
      network = fl402.network;
      hash_algorithm = fl402.hash_algorithm;
      invoice_currency = none;
      invoice_expires_at = none;
      invoice_udt_script = none;
      udt_type_script = none;
    };
  }

  abbrev pub pending_fl402 : Text → Text → Text → Option Text → PaymentChallenge
  pending_fl402 realm request expires digest = record {
    id = text "pending";
    realm = realm;
    method = text "fiber";
    intent = text "charge";
    request = request;
    expires = some expires;
    digest = digest;
    description = none;
    opaque = none;
    custom = [];
  }

  unfoldable pub fl402_challenge_to_mpp :
      Fl402Challenge → ResourceDescriptor → Text → Text → Result PaymentChallenge
  fl402_challenge_to_mpp given resource realm secret = do
    fl402 ← parse_fl402_challenge rt given
    request ← parse_charge_request rt (fl402_charge fl402)
    token ← encode_fiber_charge_request rt request
    unbound ←
        parse_payment_challenge rt (pending_fl402 realm token fl402.expires_at resource.digest)
    parse_payment_challenge rt (record unbound { id = bind_challenge_id rt unbound secret })

  unfoldable pub fl402_proof_to_credential :
      Fl402Proof → PaymentChallenge → Result PaymentCredential
  unfolding normalize_hex
  fl402_proof_to_credential given echoed = do
    proof ← parse_fl402_proof given
    challenge ← parse_payment_challenge rt echoed
    request ← decode_fiber_charge_request rt challenge.request
    ensure (normalize_hex proof.payment_hash == normalize_hex request.method_details.payment_hash)
        (plain_error (text "wrong-payment-hash"))
    parse_payment_credential rt (record {
      challenge = challenge;
      source = none;
      payload = record { payment_hash = proof.payment_hash; extra = end };
      extra = end;
    })
