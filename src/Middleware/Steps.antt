-- ===== src/Middleware/Steps.antt =====
-- What one step of a request does to the store: it stays well formed, and only a settled payment
-- adds a redemption.
use fiber_paid_http.Prelude.{
  ℕ, ◌≡◌, refl, Text, Bool, true, false, Option, none, some, arith, Result, ok, err, Failure,
}
use fiber_paid_http.Core.Types.{FiberChargeRequest, PaymentCredential, PaymentReceipt}
use fiber_paid_http.Core.Runtime.{Runtime}
use fiber_paid_http.Core.Errors.{Problem, to_problem_json}
use fiber_paid_http.Core.Resource.{HttpRequest}
use fiber_paid_http.Storage.Invariant.{
  IsWellFormed, save_challenge-IsWellFormed, save_receipt-IsWellFormed,
  save_payment_observation-IsWellFormed, save_delivery_outcome-IsWellFormed,
}
use fiber_paid_http.Storage.{
  ChallengeRecord, DeliveryOutcome, Database, save_challenge, save_receipt, save_delivery_outcome,
  save_payment_observation,
}
use fiber_paid_http.Middleware.Config.{Gateway, PaidRouteConfig, validate_paid_route}
use fiber_paid_http.Middleware.Verify.{VerifiedRedemption, Checked, observe}
use fiber_paid_http.Middleware.Issue.{issue_challenge, save_and_reply}
use fiber_paid_http.Middleware.Protect.{
  Upstream, Phase, redeemed, start_issue, issue_phase, refuse, checked_phase, credential_phase,
  arrive, failure_phase, deliver_failure, recorded_phase, receipt_phase, deliver, receipted_phase,
  give_receipt, token_phase, respond,
}

-- No redemption was added, and the invariant is kept.
pub record Keeps (db db' : Database) : Type 0 where
  pub valid : IsWellFormed db → IsWellFormed db'
  pub redemptions : db'.redemptions ≡ db.redemptions

Keeps-refl : (db : Database) → Keeps db db
Keeps-refl db = record { valid = λ v. v; redemptions = refl }

save_challenge-Keeps : (r : ChallengeRecord) (db : Database) → Keeps db (save_challenge r db)
unfolding save_challenge
save_challenge-Keeps r db = record {
  valid = save_challenge-IsWellFormed r db;
  redemptions = ground arith;
}

save_outcome-Keeps :
    (o : DeliveryOutcome) (db db' : Database) → save_delivery_outcome o db ≡ ok db' → Keeps db db'
unfolding save_delivery_outcome
save_outcome-Keeps o db db' e = record {
  valid = λ v. rw e at (save_delivery_outcome-IsWellFormed db v o);
  redemptions = ground arith;
}

save_receipt-Keeps :
    (r : PaymentReceipt) (db db' : Database) → save_receipt r db ≡ ok db' → Keeps db db'
unfolding save_receipt
save_receipt-Keeps r db db' e = record {
  valid = λ v. rw e at (save_receipt-IsWellFormed db v r);
  redemptions = ground arith;
}

-- Does the request hold a redemption for which the handler was not yet called?
abbrev pub is_redeemed : Phase → Bool
is_redeemed (redeemed request v now) = true
is_redeemed _ = false

-- A step that adds no redemption, and after which the request holds none.
pub record Quiet (db : Database) (out : Database × Phase) : Type 0 where
  pub kept : Keeps db out.0
  pub no_claim : is_redeemed out.1 ≡ false

module _ (rt : Runtime) (gateway : Gateway) (route : PaidRouteConfig) where
  save_and_reply-Keeps :
      (r : Result ChallengeRecord) (db : Database)
      → Keeps db (save_and_reply rt gateway route r db).0
  save_and_reply-Keeps (ok found) db = save_challenge-Keeps found db
  save_and_reply-Keeps (err e) db = Keeps-refl db

  pub issue_challenge-Keeps :
      (request : HttpRequest) (now : ℕ) (created : Result FiberChargeRequest) (db : Database)
      → Keeps db (issue_challenge rt gateway route request now created db).0
  unfolding issue_challenge
  issue_challenge-Keeps request now created db = save_and_reply-Keeps _ db

  pub observe-Keeps :
      (v : VerifiedRedemption) (db : Database) (now : ℕ) → Keeps db (observe rt gateway v db now)
  unfolding observe save_payment_observation
  observe-Keeps v db now = record {
    valid = λ w. save_payment_observation-IsWellFormed db w _;
    redemptions = refl;
  }

  failure_phase-Quiet :
      (problem : Problem) (db : Database) (r : Result Database)
      → ((db' : Database) → r ≡ ok db' → Keeps db db')
      → Quiet db (failure_phase rt gateway route problem db r)
  failure_phase-Quiet problem db (ok db') h = record { kept = h db' refl; no_claim = refl }
  failure_phase-Quiet problem db (err e) h = record { kept = Keeps-refl db; no_claim = refl }

  pub deliver_failure-Quiet :
      (v : VerifiedRedemption) (e : Failure) (db : Database) (now : ℕ)
      → Quiet db (deliver_failure rt gateway route v e db now)
  unfolding deliver_failure
  deliver_failure-Quiet v e db now =
      failure_phase-Quiet (to_problem_json e) db _ (save_outcome-Keeps _ db)

  recorded_phase-Quiet :
      (v : VerifiedRedemption) (upstream : Upstream) (receipt : Option PaymentReceipt)
      (r : Result Database) (db : Database) (now : ℕ)
      → ((db' : Database) → r ≡ ok db' → Keeps db db')
      → Quiet db (recorded_phase rt gateway route v upstream receipt r db now)
  recorded_phase-Quiet v upstream receipt (ok db') db now h = record {
    kept = h db' refl;
    no_claim = refl;
  }
  recorded_phase-Quiet v upstream receipt (err e) db now h = deliver_failure-Quiet v e db now

  receipt_phase-Quiet :
      (v : VerifiedRedemption) (upstream : Upstream) (r : Result (Option PaymentReceipt))
      (db : Database) (now : ℕ)
      → Quiet db (receipt_phase rt gateway route v upstream r db now)
  receipt_phase-Quiet v upstream (err e) db now = deliver_failure-Quiet v e db now
  receipt_phase-Quiet v upstream (ok receipt) db now =
      recorded_phase-Quiet v upstream receipt _ db now (save_outcome-Keeps _ db)

  pub deliver-Quiet :
      (v : VerifiedRedemption) (upstream : Result Upstream) (db : Database) (now : ℕ)
      → Quiet db (deliver rt gateway route v upstream db now)
  unfolding deliver
  deliver-Quiet v (err e) db now = deliver_failure-Quiet v e db now
  deliver-Quiet v (ok upstream) db now = receipt_phase-Quiet v upstream _ db now

  receipted_phase-Quiet :
      (v : VerifiedRedemption) (upstream : Upstream) (receipt : PaymentReceipt)
      (r : Result Database) (db : Database) (now : ℕ)
      → ((db' : Database) → r ≡ ok db' → Keeps db db')
      → Quiet db (receipted_phase rt gateway route v upstream receipt r db now)
  receipted_phase-Quiet v upstream receipt (ok db') db now h = record {
    kept = h db' refl;
    no_claim = refl;
  }
  receipted_phase-Quiet v upstream receipt (err e) db now h = deliver_failure-Quiet v e db now

  pub give_receipt-Quiet :
      (v : VerifiedRedemption) (upstream : Upstream) (receipt : Option PaymentReceipt)
      (db : Database) (now : ℕ)
      → Quiet db (give_receipt rt gateway route v upstream receipt db now)
  unfolding give_receipt
  give_receipt-Quiet v upstream none db now = record { kept = Keeps-refl db; no_claim = refl }
  give_receipt-Quiet v upstream (some receipt) db now =
      receipted_phase-Quiet v upstream receipt _ db now (save_receipt-Keeps receipt db)

  token_phase-Quiet :
      (v : VerifiedRedemption) (upstream : Upstream) (r : Result Text) (db : Database) (now : ℕ)
      → Quiet db (token_phase rt gateway route v upstream r db now)
  token_phase-Quiet v upstream (err e) db now = deliver_failure-Quiet v e db now
  token_phase-Quiet v upstream (ok token) db now = record { kept = Keeps-refl db; no_claim = refl }

  pub respond-Quiet :
      (v : VerifiedRedemption) (upstream : Upstream) (receipt : Option PaymentReceipt)
      (db : Database) (now : ℕ)
      → Quiet db (respond rt gateway route v upstream receipt db now)
  unfolding respond
  respond-Quiet v upstream none db now = record { kept = Keeps-refl db; no_claim = refl }
  respond-Quiet v upstream (some receipt) db now = token_phase-Quiet v upstream _ db now

  start_issue-quiet :
      (request : HttpRequest) (now : ℕ)
      → is_redeemed (start_issue rt gateway route request now) ≡ false
  unfolding validate_paid_route
  start_issue-quiet request now = go (validate_paid_route route)
    where
      go :
          (r : Result (Unit {0})) → is_redeemed (issue_phase rt gateway route request now r) ≡ false
      go (ok u) = refl
      go (err e) = refl

  pub refuse-quiet :
      (request : HttpRequest) (now : ℕ) (e : Failure)
      → is_redeemed (refuse rt gateway route request now e) ≡ false
  unfolding refuse
  refuse-quiet request now e = ground (arith, start_issue-quiet request now)

  checked_phase-quiet :
      (request : HttpRequest) (now : ℕ) (r : Result Checked)
      → is_redeemed (checked_phase rt gateway route request now r) ≡ false
  checked_phase-quiet request now (ok checked) = refl
  checked_phase-quiet request now (err e) = refuse-quiet request now e

  credential_phase-quiet :
      (request : HttpRequest) (db : Database) (now : ℕ) (r : Result (Option PaymentCredential))
      → is_redeemed (credential_phase rt gateway route request db now r) ≡ false
  credential_phase-quiet request db now (ok (some credential)) = checked_phase-quiet request now _
  credential_phase-quiet request db now (ok none) = start_issue-quiet request now
  credential_phase-quiet request db now (err e) = start_issue-quiet request now

  pub arrive-quiet :
      (request : HttpRequest) (db : Database) (now : ℕ)
      → is_redeemed (arrive rt gateway route request db now) ≡ false
  unfolding arrive
  arrive-quiet request db now = credential_phase-quiet request db now _
