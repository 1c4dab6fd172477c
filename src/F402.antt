-- ===== src/F402.antt =====
-- packages/f402-compat/src/index.ts: challenges and proofs of F402 as those of MPP. The schemas'
-- defaults are filled in by the caller: a value has the type that zod infers.
pub mod Conversion
use fiber_paid_http.Prelude.{
  Text, text, ◌==◌, ◌&&◌, Option, none, some, [], lower, if◌then◌else◌, Result, ok, err,
  plain_error, ensure, ◌>>=◌, ◌>>◌,
}
use fiber_paid_http.Core.JsonValue.{end}
use fiber_paid_http.Core.Types.{
  FiberNetwork, FiberHashAlgorithm, FiberChargeRequest, PaymentChallenge, PaymentCredential,
  ResourceDescriptor,
}
use fiber_paid_http.Core.Runtime.{Runtime}
use fiber_paid_http.Core.Schemas.{
  nonempty, opt_all, is_hash, is_positive_decimal, parse_charge_request, parse_payment_challenge,
  parse_payment_credential,
}
use fiber_paid_http.Core.Crypto.{bind_challenge_id}
use fiber_paid_http.Core.ChargeEncoding.{encode_fiber_charge_request, decode_fiber_charge_request}

pub record F402Challenge : Type 0 where
  pub token : Option Text
  pub invoice : Text
  pub payment_hash : Text
  pub amount : Text
  pub currency : Text
  pub expires_at : Text
  pub resource : Option Text
  pub issuer : Option Text
  pub fiber_node_id : Option Text
  pub network : FiberNetwork
  pub hash_algorithm : FiberHashAlgorithm

pub record F402Proof : Type 0 where
  pub token : Option Text
  pub payment_hash : Text

-- What `mppChallengeToF402Body` returns.
pub record F402Body : Type 0 where
  pub invoice : Text
  pub payment_hash : Text
  pub amount : Text
  pub currency : Text
  pub expires_at : Option Text
  pub challenge_id : Text
  pub network : FiberNetwork
  pub hash_algorithm : FiberHashAlgorithm

-- F402ProofSchema
unfoldable pub parse_f402_proof : F402Proof → Result F402Proof
parse_f402_proof p =
    if opt_all nonempty p.token && is_hash p.payment_hash
    then ok p
    else err (plain_error (text "ZodError"))

module _ (rt : Runtime) where
  -- F402ChallengeSchema
  unfoldable pub parse_f402_challenge : F402Challenge → Result F402Challenge
  parse_f402_challenge c =
      if opt_all nonempty c.token
        && nonempty c.invoice
        && is_hash c.payment_hash
        && is_positive_decimal c.amount
        && rt.is_datetime c.expires_at
      then ok c
      else err (plain_error (text "ZodError"))

  abbrev pub charge_of : F402Challenge → FiberChargeRequest
  charge_of f402 = record {
    amount = f402.amount;
    currency = lower f402.currency;
    recipient = f402.fiber_node_id;
    description = none;
    external_id = none;
    method_details = record {
      invoice = f402.invoice;
      payment_hash = f402.payment_hash;
      network = f402.network;
      hash_algorithm = f402.hash_algorithm;
      invoice_currency = none;
      invoice_expires_at = none;
      invoice_udt_script = none;
      udt_type_script = none;
    };
  }

  unfoldable pub f402_challenge_to_fiber_charge_request : F402Challenge → Result FiberChargeRequest
  f402_challenge_to_fiber_charge_request input = do
    f402 ← parse_f402_challenge input
    parse_charge_request rt (charge_of f402)

  -- The challenge before it is bound: `id` is "pending".
  abbrev pub pending_challenge : Text → Text → Text → Option Text → PaymentChallenge
  pending_challenge realm request expires digest = record {
    id = text "pending";
    realm = realm;
    method = text "fiber";
    intent = text "charge";
    request = request;
    expires = some expires;
    digest = digest;
    description = none;
    opaque = none;
    custom = [];
  }

  unfoldable pub f402_challenge_to_mpp :
      F402Challenge → ResourceDescriptor → Text → Text → Result PaymentChallenge
  unfolding parse_f402_challenge f402_challenge_to_fiber_charge_request
  f402_challenge_to_mpp input resource realm secret = do
    f402 ← parse_f402_challenge input
    charge ← f402_challenge_to_fiber_charge_request f402
    request ← encode_fiber_charge_request rt charge
    unbound ←
        parse_payment_challenge rt (pending_challenge realm request f402.expires_at resource.digest)
    parse_payment_challenge rt (record unbound { id = bind_challenge_id rt unbound secret })

  unfoldable pub f402_proof_to_credential : F402Proof → PaymentChallenge → Result PaymentCredential
  unfolding parse_f402_proof
  f402_proof_to_credential input echoed = do
    proof ← parse_f402_proof input
    challenge ← parse_payment_challenge rt echoed
    request ← decode_fiber_charge_request rt challenge.request
    ensure (proof.payment_hash == request.method_details.payment_hash)
        (plain_error (text "wrong-payment-hash"))
    parse_payment_credential rt (record {
      challenge = challenge;
      source = none;
      payload = record { payment_hash = proof.payment_hash; extra = end };
      extra = end;
    })

  unfoldable pub mpp_challenge_to_f402_body : PaymentChallenge → Result F402Body
  mpp_challenge_to_f402_body input = do
    challenge ← parse_payment_challenge rt input
    request ← decode_fiber_charge_request rt challenge.request
    ok (record {
      invoice = request.method_details.invoice;
      payment_hash = request.method_details.payment_hash;
      amount = request.amount;
      currency = request.currency;
      expires_at = challenge.expires;
      challenge_id = challenge.id;
      network = request.method_details.network;
      hash_algorithm = request.method_details.hash_algorithm;
    })
