-- ===== src/Middleware/Protect.antt =====
-- packages/server-middleware/src/index.ts: `protect`, as a machine that stops at each await.
use fiber_paid_http.Prelude.{
  ℕ, Text, text, Bool, false, ◌&&◌, Option, none, some, ltb, leb, eqb, if◌then◌else◌, Result, ok,
  err, ◌>>=◌, Failure, http_error, plain_error,
}
use fiber_paid_http.Core.Types.{PaymentCredential, FiberChargeRequest, Settlement, PaymentReceipt}
use fiber_paid_http.Core.Runtime.{Runtime}
use fiber_paid_http.Core.Schemas.{parse_payment_receipt}
use fiber_paid_http.Core.Errors.{Problem, to_problem_json}
use fiber_paid_http.Core.Encoding.{encode_receipt}
use fiber_paid_http.Core.Resource.{HttpRequest}
use fiber_paid_http.Core.Http.Authorization.{parse_authorization_payment_header}
use fiber_paid_http.Storage.{
  DeliveryOutcome, delivered, failed, Database, save_delivery_outcome, save_receipt,
}
use fiber_paid_http.Middleware.Config.{Gateway, PaidRouteConfig, validate_paid_route}
use fiber_paid_http.Middleware.Verify.{
  VerifiedRedemption, Checked, check_credential, redeem, observe,
}
use fiber_paid_http.Middleware.Issue.{Reply, problem_reply, issue_challenge}

-- The handler's response.
pub record Upstream : Type 0 where
  pub status : ℕ
  pub www_authenticate : Option Text
  pub payment_receipt : Option Text
  pub cache_control : Option Text

-- Where a request stands.
pub data Phase : Type 0 where
  arrived : HttpRequest → Phase
  -- `fiber.createChargeRequest` was called, at this time
  issuing : HttpRequest → ℕ → Phase
  -- `fiber.verifyPayload` was called
  verifying : HttpRequest → Checked → Phase
  -- `consumeRedemption` answered true, at this time
  redeemed : HttpRequest → VerifiedRedemption → ℕ → Phase
  -- the handler was called
  handling : VerifiedRedemption → Phase
  -- the delivery outcome was saved
  recorded : VerifiedRedemption → Upstream → Option PaymentReceipt → Phase
  -- the receipt was saved, if there is one
  receipted : VerifiedRedemption → Upstream → Option PaymentReceipt → Phase
  finished : Result Reply → Phase

-- The clock, and what was awaited: an invoice, a settlement or the handler's response.
pub record Answer : Type 0 where
  pub now : ℕ
  pub created : Result FiberChargeRequest
  pub settled : Result Settlement
  pub upstream : Result Upstream

abbrev pub is_success : Upstream → Bool
is_success upstream = leb 200 upstream.status && ltb upstream.status 300

module _ (rt : Runtime) (gateway : Gateway) (route : PaidRouteConfig) where
  abbrev pub issue_phase : HttpRequest → ℕ → Result (Unit {0}) → Phase
  issue_phase request now (ok _) = issuing request now
  issue_phase request now (err e) = finished (err e)

  -- `issueChallenge` up to its first answer
  abbrev pub start_issue : HttpRequest → ℕ → Phase
  start_issue request now = issue_phase request now (validate_paid_route route)

  -- `error instanceof FiberPaidHttpError && error.status === 402`
  abbrev pub asks_payment : Failure → Bool
  asks_payment (http_error e) = eqb e.status 402
  asks_payment (plain_error message) = false

  -- the handler of what `verifyCredential` throws
  unfoldable pub refuse : HttpRequest → ℕ → Failure → Phase
  unfolding validate_paid_route
  refuse request now e =
      if asks_payment e
      then start_issue request now
      else finished (ok (problem_reply (to_problem_json e)))

  abbrev pub checked_phase : HttpRequest → ℕ → Result Checked → Phase
  checked_phase request now (ok checked) = verifying request checked
  checked_phase request now (err e) = refuse request now e

  abbrev pub credential_phase :
      HttpRequest → Database → ℕ → Result (Option PaymentCredential) → Phase
  credential_phase request db now (ok (some credential)) =
      checked_phase request now (check_credential rt gateway request credential db now)
  credential_phase request db now (ok none) = start_issue request now
  credential_phase request db now (err e) = start_issue request now

  unfoldable pub arrive : HttpRequest → Database → ℕ → Phase
  unfolding refuse
  arrive request db now =
      credential_phase request db now (parse_authorization_payment_header rt request.authorization)

  abbrev pub redeemed_phase :
      HttpRequest → ℕ → Database × Result VerifiedRedemption → Database × Phase
  redeemed_phase request now (db, ok v) = (db, redeemed request v now)
  redeemed_phase request now (db, err e) = (db, refuse request now e)

  -- the answer of `fiber.verifyPayload`
  unfoldable pub settle :
      HttpRequest → Checked → Result Settlement → Database → ℕ → Database × Phase
  unfolding refuse redeem
  settle request checked (err e) db now = (db, refuse request now e)
  settle request checked (ok settlement) db now =
      redeemed_phase request now (redeem rt gateway checked settlement db now)

  unfoldable pub create_receipt : VerifiedRedemption → Result PaymentReceipt
  create_receipt v = parse_payment_receipt rt (record {
    status = text "success";
    method = text "fiber";
    timestamp = v.settlement.observed_at;
    reference = v.payment_hash;
    challenge_id = v.challenge.id;
  })

  abbrev pub receipt_for : VerifiedRedemption → Upstream → Result (Option PaymentReceipt)
  receipt_for v upstream =
      if is_success upstream then (create_receipt v >>= λ r. ok (some r)) else ok none

  abbrev reference_of : Option PaymentReceipt → Option Text
  reference_of none = none
  reference_of (some r) = some r.reference

  unfoldable pub outcome :
      VerifiedRedemption → Upstream → Option PaymentReceipt → ℕ → DeliveryOutcome
  outcome v upstream receipt now = record {
    challenge_id = v.challenge.id;
    credential_hash = v.credential_hash;
    payment_hash = v.payment_hash;
    receipt_reference = reference_of receipt;
    status = if is_success upstream then delivered else failed;
    response_status = some upstream.status;
    error_code = if is_success upstream then none else some (text "upstream-non-success");
    error_message = none;
    recorded_at = rt.to_iso_string now;
  }

  unfoldable pub failure_outcome : VerifiedRedemption → Problem → ℕ → DeliveryOutcome
  failure_outcome v problem now = record {
    challenge_id = v.challenge.id;
    credential_hash = v.credential_hash;
    payment_hash = v.payment_hash;
    receipt_reference = none;
    status = failed;
    response_status = some problem.status;
    error_code = some problem.body.title;
    error_message = some (text "protected handler failed");
    recorded_at = rt.to_iso_string now;
  }

  abbrev pub failure_phase : Problem → Database → Result Database → Database × Phase
  failure_phase problem db (ok db') = (db', finished (ok (problem_reply problem)))
  failure_phase problem db (err e) = (db, finished (err e))

  -- the handler of what the delivery throws; it may throw itself
  unfoldable pub deliver_failure : VerifiedRedemption → Failure → Database → ℕ → Database × Phase
  unfolding failure_outcome
  deliver_failure v e db now =
      let problem = to_problem_json e in
      failure_phase problem db (save_delivery_outcome (failure_outcome v problem now) db)

  abbrev pub recorded_phase :
      VerifiedRedemption
      → Upstream
      → Option PaymentReceipt
      → Result Database
      → Database
      → ℕ
      → Database × Phase
  recorded_phase v upstream receipt (ok db') db now = (db', recorded v upstream receipt)
  recorded_phase v upstream receipt (err e) db now = deliver_failure v e db now

  abbrev pub receipt_phase :
      VerifiedRedemption
      → Upstream
      → Result (Option PaymentReceipt)
      → Database
      → ℕ
      → Database × Phase
  receipt_phase v upstream (err e) db now = deliver_failure v e db now
  receipt_phase v upstream (ok receipt) db now =
      recorded_phase v upstream receipt (save_delivery_outcome (outcome v upstream receipt now) db)
        db now

  -- the handler's answer, up to the call of `saveDeliveryOutcome`
  unfoldable pub deliver : VerifiedRedemption → Result Upstream → Database → ℕ → Database × Phase
  unfolding outcome create_receipt deliver_failure
  deliver v (err e) db now = deliver_failure v e db now
  deliver v (ok upstream) db now = receipt_phase v upstream (receipt_for v upstream) db now

  abbrev pub receipted_phase :
      VerifiedRedemption
      → Upstream
      → PaymentReceipt
      → Result Database
      → Database
      → ℕ
      → Database × Phase
  receipted_phase v upstream receipt (ok db') db now = (db', receipted v upstream (some receipt))
  receipted_phase v upstream receipt (err e) db now = deliver_failure v e db now

  unfoldable pub give_receipt :
      VerifiedRedemption → Upstream → Option PaymentReceipt → Database → ℕ → Database × Phase
  unfolding deliver_failure
  give_receipt v upstream none db now = (db, receipted v upstream none)
  give_receipt v upstream (some receipt) db now =
      receipted_phase v upstream receipt (save_receipt receipt db) db now

  abbrev pub upstream_reply : Upstream → Option Text → Option Text → Reply
  upstream_reply upstream token cache_control = record {
    status = upstream.status;
    www_authenticate = upstream.www_authenticate;
    payment_receipt = token;
    cache_control = cache_control;
    problem = none;
  }

  abbrev pub token_phase :
      VerifiedRedemption → Upstream → Result Text → Database → ℕ → Database × Phase
  token_phase v upstream (err e) db now = deliver_failure v e db now
  token_phase v upstream (ok token) db now =
      (db, finished (ok (upstream_reply upstream (some token) (some (text "private")))))

  -- The upstream's headers, with the receipt's set or deleted.
  unfoldable pub respond :
      VerifiedRedemption → Upstream → Option PaymentReceipt → Database → ℕ → Database × Phase
  unfolding deliver_failure
  respond v upstream none db now =
      (db, finished (ok (upstream_reply upstream none upstream.cache_control)))
  respond v upstream (some receipt) db now =
      token_phase v upstream (encode_receipt rt receipt) db now

  -- One request goes on to its next await.
  unfoldable pub advance : Answer → Database → Phase → Database × Phase
  unfolding arrive settle deliver give_receipt respond
  advance a db (arrived request) = (db, arrive request db a.now)
  advance a db (issuing request now) =
      let (db', reply) = issue_challenge rt gateway route request now a.created db in
      (db', finished reply)
  advance a db (verifying request checked) = settle request checked a.settled db a.now
  advance a db (redeemed request v now) = (observe rt gateway v db now, handling v)
  advance a db (handling v) = deliver v a.upstream db a.now
  advance a db (recorded v upstream receipt) = give_receipt v upstream receipt db a.now
  advance a db (receipted v upstream receipt) = respond v upstream receipt db a.now
  advance a db (finished reply) = (db, finished reply)
