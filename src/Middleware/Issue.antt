-- ===== src/Middleware/Issue.antt =====
-- packages/server-middleware/src/index.ts: `issueChallenge`, and the responses.
use fiber_paid_http.Prelude.{
  ℕ, ◌+◌, ◌*◌, Text, text, Option, none, some, [], Result, ok, err, ◌>>=◌,
}
use fiber_paid_http.Core.JsonValue.{object, string, end, member}
use fiber_paid_http.Core.Types.{PaymentChallenge, FiberChargeRequest, ResourceDescriptor}
use fiber_paid_http.Core.Runtime.{Runtime}
use fiber_paid_http.Core.Schemas.{parse_payment_challenge}
use fiber_paid_http.Core.Crypto.{bind_challenge_id}
use fiber_paid_http.Core.Errors.{ProblemBody, Problem}
use fiber_paid_http.Core.Encoding.{encode_json_base64url}
use fiber_paid_http.Core.ChargeEncoding.{encode_fiber_charge_request}
use fiber_paid_http.Core.Resource.{HttpRequest}
use fiber_paid_http.Core.Http.Challenge.{build_www_authenticate_payment_header}
use fiber_paid_http.Storage.{ChallengeRecord, Database, save_challenge}
use fiber_paid_http.Middleware.Config.{Gateway, PaidRouteConfig}
use fiber_paid_http.Middleware.Verify.{resource_descriptor_for_gateway}

-- What is read of a response: its status, three headers, and the problem document of its body.
pub record Reply : Type 0 where
  pub status : ℕ
  pub www_authenticate : Option Text
  pub payment_receipt : Option Text
  pub cache_control : Option Text
  pub problem : Option ProblemBody

unfoldable pub payment_problem_body : ProblemBody
payment_problem_body = record {
  kind = text "https://paymentauth.org/problems/payment-required";
  title = text "Payment Required";
  status = 402;
  detail = text "Payment is required.";
}

abbrev pub challenge_reply : Text → Reply
challenge_reply header = record {
  status = 402;
  www_authenticate = some header;
  payment_receipt = none;
  cache_control = some (text "no-store");
  problem = some payment_problem_body;
}

abbrev pub problem_reply : Problem → Reply
problem_reply problem = record {
  status = problem.status;
  www_authenticate = none;
  payment_receipt = none;
  cache_control = some (text "no-store");
  problem = some problem.body;
}

abbrev pub or_default : Option ℕ → ℕ → ℕ
or_default none d = d
or_default (some n) d = n

module _ (rt : Runtime) (gateway : Gateway) (route : PaidRouteConfig) where
  abbrev pub ttl_seconds : ℕ
  ttl_seconds = or_default route.ttl_seconds gateway.challenge_ttl_seconds

  abbrev pub expires_at : ℕ → Text
  expires_at now = rt.to_iso_string (now + ttl_seconds * 1000)

  -- The challenge without its id: `id` is "pending".
  unfoldable pub unbound_challenge : ResourceDescriptor → ℕ → Text → PaymentChallenge
  unbound_challenge resource now encoded_request = record {
    id = text "pending";
    realm = gateway.realm;
    method = text "fiber";
    intent = text "charge";
    request = encoded_request;
    expires = some (expires_at now);
    digest = resource.digest;
    description = route.charge.description;
    opaque = some (
        encode_json_base64url rt
          (object (member (text "serverId") (string gateway.server_id) end)));
    custom = [];
  }

  abbrev pub bound : PaymentChallenge → PaymentChallenge
  bound unbound = record unbound { id = bind_challenge_id rt unbound gateway.secret }

  -- The record that is saved for an invoice that was created for a request at the time `now`.
  unfoldable pub challenge_record : HttpRequest → ℕ → FiberChargeRequest → Result ChallengeRecord
  unfolding unbound_challenge
  challenge_record request now charge_request =
      let resource = resource_descriptor_for_gateway rt gateway request in
      encode_fiber_charge_request rt charge_request >>= λ encoded_request.
      parse_payment_challenge rt (unbound_challenge resource now encoded_request) >>= λ unbound.
      parse_payment_challenge rt (bound unbound) >>= λ challenge. ok (record {
        challenge = challenge;
        charge_request = charge_request;
        resource_binding = resource;
        created_at = rt.to_iso_string now;
        expires_at = expires_at now;
        consumed_at = none;
      })

  abbrev pub header_reply : Result Text → Result Reply
  header_reply built = built >>= λ header. ok (challenge_reply header)

  abbrev pub save_and_reply : Result ChallengeRecord → Database → Database × Result Reply
  save_and_reply (err e) db = (db, err e)
  save_and_reply (ok found) db = (
    save_challenge found db,
    header_reply (build_www_authenticate_payment_header rt found.challenge),
  )

  -- What follows the answer of `fiber.createChargeRequest`.
  unfoldable pub issue_challenge :
      HttpRequest → ℕ → Result FiberChargeRequest → Database → Database × Result Reply
  unfolding challenge_record
  issue_challenge request now created db =
      save_and_reply (created >>= challenge_record request now) db
