-- ===== src/Middleware/Admission.antt =====
-- Which credentials pass the checks of `verifyCredential`.
use fiber_paid_http.Prelude.{ℕ, ◌≡◌, true, some, ok}
use fiber_paid_http.Core.Types.{PaymentCredential}
use fiber_paid_http.Core.Json.{challenge_json, resource_json, charge_json}
use fiber_paid_http.Core.Runtime.{Runtime}
use fiber_paid_http.Core.Crypto.{verify_challenge_id_with_any_secret}
use fiber_paid_http.Core.Resource.{HttpRequest}
use fiber_paid_http.Storage.{ChallengeRecord, Database, get_challenge}
use fiber_paid_http.Middleware.Config.{Gateway}
use fiber_paid_http.Middleware.Verify.{Checked, assert_not_expired, resource_descriptor_for_gateway}

-- What is known of a credential that passed.
pub record IsAdmitted (rt : Runtime) (gateway : Gateway) (request : HttpRequest)
    (credential : PaymentCredential) (db : Database) (now : ℕ) (checked : Checked) : Type 0 where
  pub found : ChallengeRecord
  pub stored : get_challenge credential.challenge.id db ≡ some found
  pub same_challenge : checked.challenge ≡ found.challenge
  pub same_credential : checked.credential ≡ credential
  pub echoed :
      rt.canonical_json (challenge_json credential.challenge)
      ≡ rt.canonical_json (challenge_json checked.challenge)
  pub bound :
      verify_challenge_id_with_any_secret rt checked.challenge gateway.verification_secrets
      ≡ ok true
  pub unexpired : assert_not_expired rt gateway checked.challenge now ≡ ok tt
  pub same_resource :
      rt.canonical_json (resource_json (resource_descriptor_for_gateway rt gateway request))
      ≡ rt.canonical_json (resource_json found.resource_binding)
  pub same_charge :
      rt.canonical_json (charge_json checked.charge_request)
      ≡ rt.canonical_json (charge_json found.charge_request)
  pub same_payment :
      credential.payload.payment_hash ≡ checked.charge_request.method_details.payment_hash
