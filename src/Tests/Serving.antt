-- ===== src/Tests/Serving.antt =====
-- A schedule of two requests with the same credential, which are under way at the same time.
use fiber_paid_http.Prelude.{◌≤◌, ◌≡◌, true, All, text, none, some, List, [], ◌∷◌, ok}
use fiber_paid_http.Tables.{count}
use fiber_paid_http.Core.Resource.{HttpRequest}
use fiber_paid_http.Storage.{Database, empty, redeemed_id}
use fiber_paid_http.Storage.Invariant.{IsWellFormed}
use fiber_paid_http.Storage.History.{Call, saves_challenge, run, run-empty-IsWellFormed}
use fiber_paid_http.Middleware.Config.{Gateway, PaidRouteConfig}
use fiber_paid_http.Middleware.Protect.{Answer}
use fiber_paid_http.Middleware.Schedule.{
  Event, accepts, resumes, opened, serve, served_challenge, served_payment, served_credential,
}
use fiber_paid_http.Middleware.ServedOnce.{served_once}
use fiber_paid_http.Middleware.Receipts.{fair, receipts_fair}
use fiber_paid_http.Middleware.Verify.{Checked}
use fiber_paid_http.Tests.{credential_1, challenge_1, record_1, charge_1, settlement_1, platform}

abbrev gateway_1 : Gateway
gateway_1 = record {
  realm = text "api";
  server_id = text "server";
  secret = text "secret";
  verification_secrets = text "secret" ∷ [];
  public_base_url = text "https://api.example";
  challenge_ttl_seconds = 60;
  clock_skew_seconds = 0;
}

abbrev route_1 : PaidRouteConfig
route_1 = record {
  charge = record {
    amount = text "100";
    currency = none;
    description = none;
    external_id = none;
    udt_type_script = none;
  };
  ttl_seconds = none;
}

abbrev request_1 : HttpRequest
request_1 = record {
  method = text "get";
  url = text "/data";
  content_type = none;
  authorization = some (text "Payment credential");
  body = [];
}

abbrev answer_1 : Answer
answer_1 = record {
  now = 5;
  created = ok charge_1;
  settled = ok settlement_1;
  upstream = ok (record {
    status = 200;
    www_authenticate = none;
    payment_receipt = none;
    cache_control = none;
  });
}

abbrev stored_calls : List Call
stored_calls = saves_challenge record_1 ∷ []

abbrev stored_db : Database
stored_db = run empty stored_calls

abbrev race : List Event
race =
    accepts request_1
    ∷ accepts request_1
    ∷ resumes 0 answer_1
    ∷ resumes 1 answer_1
    ∷ resumes 0 answer_1
    ∷ resumes 1 answer_1
    ∷ resumes 0 answer_1
    ∷ resumes 0 answer_1
    ∷ resumes 0 answer_1
    ∷ resumes 0 answer_1
    ∷ []

stored_db-IsWellFormed : IsWellFormed stored_db
stored_db-IsWellFormed = run-empty-IsWellFormed stored_calls

served_once_example :
    (count served_challenge
        (text "c1")
        (serve platform gateway_1 route_1 (opened stored_db) race).served
      ≤ 1)
    × (count served_payment
          (text "c1")
          (serve platform gateway_1 route_1 (opened stored_db) race).served
        ≤ 1)
    × (count served_credential
          (text "c1")
          (serve platform gateway_1 route_1 (opened stored_db) race).served
        ≤ 1)
    × (count served_challenge
          (text "c1")
          (serve platform gateway_1 route_1 (opened stored_db) race).served
        ≤ count redeemed_id
            (text "c1")
            (serve platform gateway_1 route_1 (opened stored_db) race).db.redemptions)
served_once_example =
    served_once platform gateway_1 route_1 stored_db race (text "c1") stored_db-IsWellFormed

receipts_fair_example :
    All (λ p. fair p ≡ true) (serve platform gateway_1 route_1 (opened stored_db) race).phases
receipts_fair_example = receipts_fair platform gateway_1 route_1 stored_db race

abbrev checked_1 : Checked
checked_1 = record { credential = credential_1; challenge = challenge_1; charge_request = charge_1 }
