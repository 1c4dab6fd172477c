-- ===== src/Middleware/Verify.antt =====
-- packages/server-middleware/src/index.ts: `verifyCredential`, in its parts between the awaits.
use fiber_paid_http.Prelude.{
  ℕ, ◌+◌, ◌*◌, Text, text, ◌==◌, opt_eq, Bool, true, false, ◌||◌, not, Option, none, some, truthy,
  ltb, is_some, Result, ok, err, ensure, fail_with, ◌>>=◌, ◌>>◌, Failure,
}
use fiber_paid_http.Core.Types.{
  PaymentChallenge, PaymentCredential, FiberChargeRequest, ResourceDescriptor, Settlement,
}
use fiber_paid_http.Core.Json.{challenge_json, resource_json, charge_json}
use fiber_paid_http.Core.Runtime.{Runtime}
use fiber_paid_http.Core.Schemas.{
  parse_payment_credential, parse_payment_challenge, parse_charge_request,
}
use fiber_paid_http.Core.Crypto.{verify_challenge_id_with_any_secret, credential_hash}
use fiber_paid_http.Core.ChargeEncoding.{decode_fiber_charge_request}
use fiber_paid_http.Core.Resource.{HttpRequest, resource_descriptor_from_request}
use fiber_paid_http.Storage.{
  ChallengeRecord, RedemptionRecord, Database, get_challenge, consume_redemption,
  save_payment_observation,
}
use fiber_paid_http.Middleware.Config.{Gateway}

pub record VerifiedRedemption : Type 0 where
  pub challenge : PaymentChallenge
  pub charge_request : FiberChargeRequest
  pub credential_hash : Text
  pub payment_hash : Text
  pub settlement : Settlement

-- What the checks before the call of `fiber.verifyPayload` leave in scope.
pub record Checked : Type 0 where
  pub credential : PaymentCredential
  pub challenge : PaymentChallenge
  pub charge_request : FiberChargeRequest

abbrev pub invalid_challenge : Text → Failure
invalid_challenge message = fail_with (text "invalid-challenge") message 402

abbrev pub replay : Failure
replay = fail_with (text "replay") (text "Payment challenge or credential was already redeemed") 402

abbrev pub known_record : Option ChallengeRecord → Result ChallengeRecord
known_record none = err (invalid_challenge (text "Payment challenge is unknown"))
known_record (some found) = ok found

module _ (rt : Runtime) (gateway : Gateway) where
  unfoldable pub resource_descriptor_for_gateway : HttpRequest → ResourceDescriptor
  unfolding resource_descriptor_from_request
  resource_descriptor_for_gateway request =
      let descriptor = resource_descriptor_from_request rt request in
      record descriptor {
        url = rt.resolve_url (rt.path_and_search request.url) gateway.public_base_url;
      }

  abbrev is_current : Option ℕ → ℕ → Bool
  is_current none now = false
  is_current (some expires_at) now = not (ltb (expires_at + gateway.clock_skew_seconds * 1000) now)

  -- `Date.now() - clockSkewSeconds * 1000 > expiresAt` throws
  unfoldable pub assert_not_expired : PaymentChallenge → ℕ → Result (Unit {0})
  assert_not_expired challenge now = elim (truthy challenge.expires) [
    | none ↦ ok tt
    | some expires ↦
        ensure (is_current (rt.get_time expires) now)
          (fail_with (text "payment-expired") (text "Payment challenge is expired") 402)
  ]

  -- `challenge.digest && challenge.digest !== currentResource.digest`, negated
  abbrev pub digest_ok : PaymentChallenge → ResourceDescriptor → Bool
  digest_ok challenge resource =
      not (is_some (truthy challenge.digest)) || opt_eq challenge.digest resource.digest

  -- From the parse of the credential to the comparison of the payment hashes; `now` is read by
  -- `assertNotExpired`.
  unfoldable pub check_credential : HttpRequest → PaymentCredential → Database → ℕ → Result Checked
  unfolding resource_descriptor_for_gateway assert_not_expired
  check_credential request credential db now = do
    parsed ← parse_payment_credential rt credential
    found ← known_record (get_challenge parsed.challenge.id db)
    challenge ← parse_payment_challenge rt found.challenge
    ensure
        (rt.canonical_json (challenge_json parsed.challenge)
          == rt.canonical_json (challenge_json challenge))
        (invalid_challenge (text "Credential does not exactly echo the issued challenge"))
    bound ← verify_challenge_id_with_any_secret rt challenge gateway.verification_secrets
    ensure bound (invalid_challenge (text "Payment challenge binding is invalid"))
    assert_not_expired challenge now
    let resource = resource_descriptor_for_gateway request
    ensure
        (rt.canonical_json (resource_json resource)
          == rt.canonical_json (resource_json found.resource_binding))
        (fail_with (text "wrong-resource") (text "Payment credential is not bound to this resource")
          402)
    ensure (digest_ok challenge resource) (
        fail_with (text "wrong-body-digest")
          (text "Request body digest does not match the challenge") 402)
    decoded ← decode_fiber_charge_request rt challenge.request
    charge_request ← parse_charge_request rt decoded
    ensure
        (rt.canonical_json (charge_json charge_request)
          == rt.canonical_json (charge_json found.charge_request))
        (invalid_challenge (text "Fiber charge request does not match stored state"))
    ensure (parsed.payload.payment_hash == charge_request.method_details.payment_hash) (
        fail_with (text "wrong-payment-hash")
          (text "Fiber payment hash does not match the challenge") 402)
    ok (record { credential = parsed; challenge = challenge; charge_request = charge_request })

  -- the record that is redeemed once the payment is seen to be settled
  abbrev pub redemption_of : Checked → Settlement → ℕ → RedemptionRecord
  redemption_of checked settlement now = record {
    challenge_id = checked.challenge.id;
    credential_hash = credential_hash rt checked.credential;
    payment_hash = checked.charge_request.method_details.payment_hash;
    settlement = settlement;
    consumed_at = rt.to_iso_string now;
  }

  abbrev pub verified : Checked → Settlement → VerifiedRedemption
  verified checked settlement = record {
    challenge = checked.challenge;
    charge_request = checked.charge_request;
    credential_hash = credential_hash rt checked.credential;
    payment_hash = checked.charge_request.method_details.payment_hash;
    settlement = settlement;
  }

  abbrev pub redeem_result : Checked → Settlement → Bool → Result VerifiedRedemption
  redeem_result checked settlement true = ok (verified checked settlement)
  redeem_result checked settlement false = err replay

  -- The call of `consumeRedemption` and the test of its answer.
  unfoldable pub redeem : Checked → Settlement → Database → ℕ → Database × Result VerifiedRedemption
  redeem checked settlement db now =
      let (db', consumed) = consume_redemption (redemption_of checked settlement now) db in
      (db', redeem_result checked settlement consumed)

  unfoldable pub observe : VerifiedRedemption → Database → ℕ → Database
  observe v db now =
      save_payment_observation
        (record {
          payment_hash = v.payment_hash;
          challenge_id = some v.challenge.id;
          settlement = v.settlement;
          amount_shannons = some v.charge_request.amount;
          updated_at = rt.to_iso_string now;
        })
        db
