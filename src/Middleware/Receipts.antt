-- ===== src/Middleware/Receipts.antt =====
-- Which replies carry a receipt.
use fiber_paid_http.Prelude.{
  ℕ, zero, suc, ◌≡◌, refl, Text, Bool, true, ◌&&◌, ◌||◌, Option, none, some, List, [], ◌∷◌, is_none,
  leb, ltb, ◌>>=◌, Result, ok, err, Failure, Bool-cases, inl, inr, All,
}
use fiber_paid_http.Core.Types.{FiberChargeRequest, PaymentCredential, PaymentReceipt, Settlement}
use fiber_paid_http.Core.Errors.{Problem, to_problem_json}
use fiber_paid_http.Core.Encoding.{encode_receipt}
use fiber_paid_http.Core.Resource.{HttpRequest}
use fiber_paid_http.Core.Runtime.{Runtime}
use fiber_paid_http.Core.Http.Authorization.{parse_authorization_payment_header}
use fiber_paid_http.Storage.{ChallengeRecord, Database, save_delivery_outcome, save_receipt}
use fiber_paid_http.Middleware.Config.{Gateway, PaidRouteConfig, validate_paid_route}
use fiber_paid_http.Middleware.Verify.{VerifiedRedemption, Checked, check_credential, redeem}
use fiber_paid_http.Middleware.Issue.{
  Reply, header_reply, save_and_reply, challenge_record, issue_challenge,
}
use fiber_paid_http.Middleware.Schedule.{
  World, Event, accepts, resumes, opened, resume, handle, serve,
}
use fiber_paid_http.Core.Http.Challenge.{build_www_authenticate_payment_header}
use fiber_paid_http.Middleware.Protect.{
  Upstream, Phase, arrived, issuing, verifying, redeemed, handling, recorded, receipted, finished,
  Answer, is_success, issue_phase, asks_payment, refuse, checked_phase, credential_phase, arrive,
  redeemed_phase, settle, receipt_for, outcome, failure_outcome, failure_phase, deliver_failure,
  recorded_phase, receipt_phase, deliver, receipted_phase, give_receipt, token_phase, respond,
  advance,
}

-- a status from 200 to 299, where there is a receipt
abbrev pub reply_fair : Result Reply → Bool
reply_fair (err e) = true
reply_fair (ok reply) =
    is_none reply.payment_receipt || (leb 200 reply.status && ltb reply.status 300)

abbrev upstream_fair : Upstream → Option PaymentReceipt → Bool
upstream_fair upstream none = true
upstream_fair upstream (some receipt) = is_success upstream

abbrev pub fair : Phase → Bool
fair (recorded v upstream receipt) = upstream_fair upstream receipt
fair (receipted v upstream receipt) = upstream_fair upstream receipt
fair (finished reply) = reply_fair reply
fair _ = true

module _ (rt : Runtime) (gateway : Gateway) (route : PaidRouteConfig) where
  fair-issue_phase :
      (request : HttpRequest) (now : ℕ) (r : Result (Unit {0}))
      → fair (issue_phase rt gateway route request now r) ≡ true
  fair-issue_phase request now (ok done) = refl
  fair-issue_phase request now (err e) = refl

  fair-refuse :
      (request : HttpRequest) (now : ℕ) (e : Failure)
      → fair (refuse rt gateway route request now e) ≡ true
  unfolding refuse
  fair-refuse request now e = elim (Bool-cases (asks_payment rt gateway route e)) [
    | inl asks ↦ rw asks (fair-issue_phase request now (validate_paid_route route))
    | inr plain ↦ rw plain refl
  ]

  fair-checked_phase :
      (request : HttpRequest) (now : ℕ) (r : Result Checked)
      → fair (checked_phase rt gateway route request now r) ≡ true
  fair-checked_phase request now (ok checked) = refl
  fair-checked_phase request now (err e) = fair-refuse request now e

  fair-credential_phase :
      (request : HttpRequest) (db : Database) (now : ℕ) (r : Result (Option PaymentCredential))
      → fair (credential_phase rt gateway route request db now r) ≡ true
  fair-credential_phase request db now (ok (some credential)) =
      fair-checked_phase request now (check_credential rt gateway request credential db now)
  fair-credential_phase request db now (ok none) =
      fair-issue_phase request now (validate_paid_route route)
  fair-credential_phase request db now (err e) =
      fair-issue_phase request now (validate_paid_route route)

  fair-arrive :
      (request : HttpRequest) (db : Database) (now : ℕ)
      → fair (arrive rt gateway route request db now) ≡ true
  unfolding arrive
  fair-arrive request db now =
      fair-credential_phase request db now
        (parse_authorization_payment_header rt request.authorization)

  fair-redeemed_phase :
      (request : HttpRequest) (now : ℕ) (db : Database) (r : Result VerifiedRedemption)
      → fair (redeemed_phase rt gateway route request now (db, r)).1 ≡ true
  fair-redeemed_phase request now db (ok v) = refl
  fair-redeemed_phase request now db (err e) = fair-refuse request now e

  fair-settle :
      (request : HttpRequest) (checked : Checked) (r : Result Settlement) (db : Database) (now : ℕ)
      → fair (settle rt gateway route request checked r db now).1 ≡ true
  unfolding settle
  fair-settle request checked (err e) db now = fair-refuse request now e
  fair-settle request checked (ok settlement) db now =
      fair-redeemed_phase request now (redeem rt gateway checked settlement db now).0
        (redeem rt gateway checked settlement db now).1

  fair-failure_phase :
      (problem : Problem) (db : Database) (r : Result Database)
      → fair (failure_phase rt gateway route problem db r).1 ≡ true
  fair-failure_phase problem db (ok db') = refl
  fair-failure_phase problem db (err e) = refl

  fair-deliver_failure :
      (v : VerifiedRedemption) (e : Failure) (db : Database) (now : ℕ)
      → fair (deliver_failure rt gateway route v e db now).1 ≡ true
  unfolding deliver_failure
  fair-deliver_failure v e db now =
      let problem = to_problem_json e in
      fair-failure_phase problem db
        (save_delivery_outcome (failure_outcome rt gateway route v problem now) db)

  fair-recorded_phase :
      (v : VerifiedRedemption) (upstream : Upstream) (receipt : Option PaymentReceipt)
      (r : Result Database) (db : Database) (now : ℕ)
      → upstream_fair upstream receipt ≡ true
      → fair (recorded_phase rt gateway route v upstream receipt r db now).1 ≡ true
  fair-recorded_phase v upstream receipt (ok db') db now h = h
  fair-recorded_phase v upstream receipt (err e) db now h = fair-deliver_failure v e db now

  fair-receipt_phase :
      (v : VerifiedRedemption) (upstream : Upstream) (r : Result (Option PaymentReceipt))
      (db : Database) (now : ℕ)
      → ((receipt : Option PaymentReceipt) → r ≡ ok receipt → upstream_fair upstream receipt ≡ true)
      → fair (receipt_phase rt gateway route v upstream r db now).1 ≡ true
  fair-receipt_phase v upstream (err e) db now h = fair-deliver_failure v e db now
  fair-receipt_phase v upstream (ok receipt) db now h =
      fair-recorded_phase v upstream receipt
        (save_delivery_outcome (outcome rt gateway route v upstream receipt now) db) db now
        (h receipt refl)

  receipt_for_fair :
      (v : VerifiedRedemption) (upstream : Upstream) (receipt : Option PaymentReceipt)
      → receipt_for rt gateway route v upstream ≡ ok receipt
      → upstream_fair upstream receipt ≡ true
  receipt_for_fair v upstream none h = refl
  receipt_for_fair v upstream (some receipt) h = elim (Bool-cases (is_success upstream)) [
    | inl success ↦ success
    | inr failure ↦ let e : ok none ≡ ok (some receipt) = rw failure at h in absurd cc
  ]

  fair-deliver :
      (v : VerifiedRedemption) (r : Result Upstream) (db : Database) (now : ℕ)
      → fair (deliver rt gateway route v r db now).1 ≡ true
  unfolding deliver
  fair-deliver v (err e) db now = fair-deliver_failure v e db now
  fair-deliver v (ok upstream) db now =
      fair-receipt_phase v upstream (receipt_for rt gateway route v upstream) db now
        (receipt_for_fair v upstream)

  fair-receipted_phase :
      (v : VerifiedRedemption) (upstream : Upstream) (receipt : PaymentReceipt)
      (r : Result Database) (db : Database) (now : ℕ)
      → is_success upstream ≡ true
      → fair (receipted_phase rt gateway route v upstream receipt r db now).1 ≡ true
  fair-receipted_phase v upstream receipt (ok db') db now h = h
  fair-receipted_phase v upstream receipt (err e) db now h = fair-deliver_failure v e db now

  fair-give_receipt :
      (v : VerifiedRedemption) (upstream : Upstream) (receipt : Option PaymentReceipt)
      (db : Database) (now : ℕ)
      → upstream_fair upstream receipt ≡ true
      → fair (give_receipt rt gateway route v upstream receipt db now).1 ≡ true
  unfolding give_receipt
  fair-give_receipt v upstream none db now h = refl
  fair-give_receipt v upstream (some receipt) db now h =
      fair-receipted_phase v upstream receipt (save_receipt receipt db) db now h

  fair-token_phase :
      (v : VerifiedRedemption) (upstream : Upstream) (r : Result Text) (db : Database) (now : ℕ)
      → is_success upstream ≡ true
      → fair (token_phase rt gateway route v upstream r db now).1 ≡ true
  fair-token_phase v upstream (err e) db now h = fair-deliver_failure v e db now
  fair-token_phase v upstream (ok token) db now h = h

  fair-respond :
      (v : VerifiedRedemption) (upstream : Upstream) (receipt : Option PaymentReceipt)
      (db : Database) (now : ℕ)
      → upstream_fair upstream receipt ≡ true
      → fair (respond rt gateway route v upstream receipt db now).1 ≡ true
  unfolding respond
  fair-respond v upstream none db now h = refl
  fair-respond v upstream (some receipt) db now h =
      fair-token_phase v upstream (encode_receipt rt receipt) db now h

  reply_fair-header_reply : (r : Result Text) → reply_fair (header_reply rt gateway route r) ≡ true
  reply_fair-header_reply (ok header) = refl
  reply_fair-header_reply (err e) = refl

  reply_fair-save_and_reply :
      (r : Result ChallengeRecord) (db : Database)
      → reply_fair (save_and_reply rt gateway route r db).1 ≡ true
  reply_fair-save_and_reply (err e) db = refl
  reply_fair-save_and_reply (ok found) db =
      reply_fair-header_reply (build_www_authenticate_payment_header rt found.challenge)

  reply_fair-issue_challenge :
      (request : HttpRequest) (now : ℕ) (created : Result FiberChargeRequest) (db : Database)
      → reply_fair (issue_challenge rt gateway route request now created db).1 ≡ true
  unfolding issue_challenge
  reply_fair-issue_challenge request now created db =
      reply_fair-save_and_reply (created >>= challenge_record rt gateway route request now) db

  fair-advance :
      (a : Answer) (db : Database) (p : Phase)
      → fair p ≡ true
      → fair (advance rt gateway route a db p).1 ≡ true
  unfolding advance
  fair-advance a db (arrived request) h = fair-arrive request db a.now
  fair-advance a db (issuing request now) h = reply_fair-issue_challenge request now a.created db
  fair-advance a db (verifying request checked) h = fair-settle request checked a.settled db a.now
  fair-advance a db (redeemed request v now) h = refl
  fair-advance a db (handling v) h = fair-deliver v a.upstream db a.now
  fair-advance a db (recorded v upstream receipt) h =
      fair-give_receipt v upstream receipt db a.now h
  fair-advance a db (receipted v upstream receipt) h = fair-respond v upstream receipt db a.now h
  fair-advance a db (finished reply) h = h

  abbrev AllFair : List Phase → Type 0
  AllFair phases = All (λ p. fair p ≡ true) phases

  resume-AllFair :
      (i : ℕ) (a : Answer) (w : World) (phases : List Phase)
      → w.phases ≡ phases
      → AllFair phases
      → AllFair (resume rt gateway route i a w phases).phases
  unfolding resume
  resume-AllFair i a w [] e h = rw e tt
  resume-AllFair zero a w (p ∷ phases) e h = (fair-advance a w.db p h.0, h.1)
  resume-AllFair (suc i) a w (p ∷ phases) e h =
      (h.0, resume-AllFair i a (record w { phases = phases }) phases refl h.1)

  handle-AllFair :
      (w : World) (e : Event) → AllFair w.phases → AllFair (handle rt gateway route w e).phases
  unfolding handle
  handle-AllFair w (accepts request) h = (refl, h)
  handle-AllFair w (resumes i a) h = resume-AllFair i a w w.phases refl h

  serve-AllFair :
      (w : World) (events : List Event)
      → AllFair w.phases
      → AllFair (serve rt gateway route w events).phases
  unfolding serve
  serve-AllFair w [] h = h
  serve-AllFair w (e ∷ events) h =
      serve-AllFair (handle rt gateway route w e) events (handle-AllFair w e h)

  -- Under every schedule that starts without a request under way, a finished request whose reply has
  -- a receipt was answered with a status from 200 to 299, and a receipt that was made for a request
  -- still under way is for an answer of the handler with such a status.
  pub receipts_fair :
      (db : Database) (events : List Event)
      → All (λ p. fair p ≡ true) (serve rt gateway route (opened db) events).phases
  receipts_fair db events = serve-AllFair (opened db) events tt
