-- ===== src/Tests/Paying.antt =====
-- A client that pays for the stored challenge.
use fiber_paid_http.Prelude.{
  ◌≡◌, refl, text, ◌==◌, true, false, none, some, List, [], ◌∷◌, ok, lower, to_lower,
}
use fiber_paid_http.Core.JsonValue.{end}
use fiber_paid_http.Core.Types.{FiberChargeRequest, FiberCredentialPayload, PaymentChallenge}
use fiber_paid_http.Client.{FetchResponse, Surroundings, PaidFetchResult, paid_fetch}
use fiber_paid_http.Client.Payments.{payments, IsAuthorized, paid_fetch-IsAuthorized, paid_receipt}
use fiber_paid_http.Core.ChargeEncoding.{decode_fiber_charge_request}
use fiber_paid_http.Core.Encoding.{decode_receipt}
use fiber_paid_http.Core.Encoding.{encode_credential}
use fiber_paid_http.Core.Http.AuthParams.{parse_auth_params}
use fiber_paid_http.Core.Http.Authorization.{build_authorization_payment_header}
use fiber_paid_http.Core.Http.Challenge.{parse_www_authenticate_payment_header}
use fiber_paid_http.Core.Json.{charge_json}
use fiber_paid_http.Core.Json.{receipt_json}
use fiber_paid_http.Core.Schemas.{custom_names_valid}
use fiber_paid_http.Core.Schemas.{is_challenge_field}
use fiber_paid_http.Core.Schemas.{is_charge_request}
use fiber_paid_http.Core.Schemas.{is_hash}
use fiber_paid_http.Core.Schemas.{is_payment_challenge}
use fiber_paid_http.Core.Schemas.{is_payment_receipt}
use fiber_paid_http.Core.Schemas.{is_positive_decimal}
use fiber_paid_http.Core.Schemas.{parse_charge_request}
use fiber_paid_http.Core.Schemas.{parse_payment_challenge}
use fiber_paid_http.Core.Schemas.{parse_payment_credential}
use fiber_paid_http.Core.Schemas.{parse_payment_receipt}
use fiber_paid_http.Tests.{hash_1, challenge_1, charge_1, receipt_1, platform}

abbrev response_402 : FetchResponse
response_402 = record {
  status = 402;
  redirected = false;
  www_authenticate = some (
      text
        "Payment id=\"c1\", realm=\"api\", method=\"fiber\", intent=\"charge\", request=\"json\"");
  payment_receipt = none;
}

abbrev response_200 : FetchResponse
response_200 = record {
  status = 200;
  redirected = false;
  www_authenticate = none;
  payment_receipt = some (text "receipt");
}

abbrev surroundings_1 : Surroundings
surroundings_1 = record {
  first_fetch = ok response_402;
  now = 5;
  authorize_payment = some (λ challenge charge. ok true);
  pay_charge = λ charge. ok (record { payment_hash = hash_1; extra = end });
  second_fetch = λ header. ok response_200;
}

abbrev paid_challenge : PaymentChallenge
paid_challenge = record challenge_1 { description = none; custom = [] }

abbrev result_1 : PaidFetchResult
result_1 = record {
  response = response_200;
  receipt = some receipt_1;
  challenge = some paid_challenge;
}

abbrev no_charges : List FiberChargeRequest
no_charges = []

surroundings_1-paid : payments (paid_fetch platform surroundings_1).0 ≡ charge_1 ∷ []
unfolding payments paid_fetch text ◌==◌ parse_www_authenticate_payment_header to_lower
    parse_auth_params parse_payment_challenge is_payment_challenge custom_names_valid
    is_challenge_field decode_fiber_charge_request charge_json parse_charge_request
    is_charge_request is_positive_decimal is_hash parse_payment_credential
    build_authorization_payment_header encode_credential
surroundings_1-paid = refl

surroundings_1-result : (paid_fetch platform surroundings_1).1 ≡ ok result_1
unfolding payments paid_fetch text ◌==◌ parse_www_authenticate_payment_header to_lower
    parse_auth_params parse_payment_challenge is_payment_challenge custom_names_valid
    is_challenge_field decode_fiber_charge_request charge_json parse_charge_request
    is_charge_request is_positive_decimal is_hash parse_payment_credential
    build_authorization_payment_header encode_credential decode_receipt receipt_json
    parse_payment_receipt is_payment_receipt
surroundings_1-result = refl

paid_fetch-IsAuthorized_example :
    (no_charges ≡ no_charges) × IsAuthorized platform surroundings_1 charge_1
paid_fetch-IsAuthorized_example =
    paid_fetch-IsAuthorized platform surroundings_1 charge_1 [] surroundings_1-paid

paid_receipt_example :
    (charge : FiberChargeRequest) × (payments (paid_fetch platform surroundings_1).0 ≡ charge ∷ [])
    × ((payload : FiberCredentialPayload) × (surroundings_1.pay_charge charge ≡ ok payload)
        × (text "c1" ≡ text "c1")
        × (lower hash_1 ≡ lower payload.payment_hash))
paid_receipt_example =
    paid_receipt platform surroundings_1 result_1 paid_challenge receipt_1 surroundings_1-result
      refl refl
