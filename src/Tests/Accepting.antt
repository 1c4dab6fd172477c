-- ===== src/Tests/Accepting.antt =====
-- A challenge that a gateway issues on the lawful platform, and the credential that pays for it.
use fiber_paid_http.Core.Encoding.{encode_json_base64url}
use fiber_paid_http.Core.Crypto.{bind_challenge_id}
use fiber_paid_http.Core.Json.{charge_json}
use fiber_paid_http.Tests.Postfix.{write, read, steps}
use fiber_paid_http.Tests.Unary.{to_letters, of_letters}
use fiber_paid_http.Core.ChargeEncoding.{encode_fiber_charge_request}
use fiber_paid_http.Prelude.{◌≡◌, refl, arith, text, ◌==◌, true, false, some, none, [], ◌∷◌, ok}
use fiber_paid_http.Core.JsonValue.{end}
use fiber_paid_http.Core.Types.{PaymentChallenge, PaymentCredential}
use fiber_paid_http.Core.Schemas.{
  is_payment_challenge, parse_payment_challenge, parse_payment_credential, is_hash,
  parse_charge_request, is_charge_request, is_positive_decimal, is_opaque, custom_names_valid,
}
use fiber_paid_http.Core.Resource.{HttpRequest}
use fiber_paid_http.Tables.{has}
use fiber_paid_http.Storage.{ChallengeRecord, empty, save_challenge}
use fiber_paid_http.Middleware.Config.{
  MiddlewareConfig, Gateway, PaidRouteConfig, create_middleware,
}
use fiber_paid_http.Middleware.Verify.{check_credential, resource_descriptor_for_gateway}
use fiber_paid_http.Middleware.Issue.{challenge_record, unbound_challenge, bound}
use fiber_paid_http.Middleware.Acceptance.{HasDates, check_credential-issue}
use fiber_paid_http.Tests.{hash_1}
use fiber_paid_http.Tests.Lawful.{lawful_platform, lawful_platform-IsLawful, charge_token, charge_2}

lawful_platform-HasDates : HasDates lawful_platform
lawful_platform-HasDates = record { read_back = λ n. refl; not_empty = λ n. refl }

abbrev config_1 : MiddlewareConfig
config_1 = record {
  secret = text "0123456789abcdef0123456789abcdef";
  previous_secrets = [];
  realm = text "api";
  server_id = text "server";
  public_base_url = some (record {
    protocol = text "https:";
    hostname = text "api.example";
    username = [];
    password = [];
    pathname = text "/";
    search = [];
    hash = [];
    origin = text "https://api.example";
  });
  allow_insecure_http = false;
  durable_store = true;
  challenge_ttl_seconds = 60;
  clock_skew_seconds = 5;
}

abbrev gateway_2 : Gateway
gateway_2 = record {
  realm = text "api";
  server_id = text "server";
  secret = text "0123456789abcdef0123456789abcdef";
  verification_secrets = text "0123456789abcdef0123456789abcdef" ∷ [];
  public_base_url = text "https://api.example";
  challenge_ttl_seconds = 60;
  clock_skew_seconds = 5;
}

gateway_2-built : create_middleware config_1 ≡ ok gateway_2
unfolding create_middleware text ◌==◌
gateway_2-built = refl

abbrev route_2 : PaidRouteConfig
route_2 = record {
  charge = record {
    amount = text "100";
    currency = none;
    description = none;
    external_id = none;
    udt_type_script = none;
  };
  ttl_seconds = none;
}

abbrev request_2 : HttpRequest
request_2 = record {
  method = text "GET";
  url = text "/data";
  content_type = none;
  authorization = none;
  body = [];
}

abbrev challenge_2 : PaymentChallenge
challenge_2 = bound lawful_platform gateway_2 route_2 (
    unbound_challenge lawful_platform gateway_2 route_2
      (resource_descriptor_for_gateway lawful_platform gateway_2 request_2) 1000 charge_token)

abbrev record_2 : ChallengeRecord
record_2 = record {
  challenge = challenge_2;
  charge_request = charge_2;
  resource_binding = resource_descriptor_for_gateway lawful_platform gateway_2 request_2;
  created_at = 1000 ∷ [];
  expires_at = 61000 ∷ [];
  consumed_at = none;
}

record_2-issued :
    challenge_record lawful_platform gateway_2 route_2 request_2 1000 charge_2 ≡ ok record_2
unfolding challenge_record unbound_challenge parse_payment_challenge is_payment_challenge text ◌==◌
    encode_fiber_charge_request parse_charge_request is_charge_request is_positive_decimal is_hash
    to_letters write charge_json resource_descriptor_for_gateway is_opaque of_letters read steps
    custom_names_valid bind_challenge_id
record_2-issued = refl

abbrev credential_2 : PaymentCredential
credential_2 = record {
  challenge = challenge_2;
  source = none;
  payload = record { payment_hash = hash_1; extra = end };
  extra = end;
}

credential_2-parsed : parse_payment_credential lawful_platform credential_2 ≡ ok credential_2
unfolding parse_payment_credential unbound_challenge is_payment_challenge text ◌==◌
    bind_challenge_id encode_json_base64url to_letters write charge_json
    resource_descriptor_for_gateway is_opaque of_letters read steps custom_names_valid is_hash
credential_2-parsed = refl

check_credential-issue_example :
    check_credential lawful_platform gateway_2 request_2 credential_2
      (save_challenge record_2 empty)
      66000
    ≡ ok (record { credential = credential_2; challenge = challenge_2; charge_request = charge_2 })
unfolding empty has
check_credential-issue_example =
    check_credential-issue lawful_platform lawful_platform-IsLawful lawful_platform-HasDates
      config_1 gateway_2 gateway_2-built route_2 request_2 1000 charge_2 record_2 record_2-issued
      empty refl credential_2 credential_2-parsed refl refl 66000 (omega arith)
