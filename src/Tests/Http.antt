-- ===== src/Tests/Http.antt =====
-- The theorems on the headers, at concrete texts.
use fiber_paid_http.Prelude.{
  ◌≡◌, ◌<◌, refl, Text, text, ◌==◌, some, [], ◌∷◌, length, arith, to_lower, Result, ok,
}
use fiber_paid_http.Core.Http.AuthParams.{
  Params, is_name, auth_params, parse_auth_params, join_fields, field, has_own,
}
use fiber_paid_http.Core.Http.Scanning.{auth_params_total}
use fiber_paid_http.Core.Http.ParamsRoundTrip.{AreFresh, parse_auth_params-join_fields}
use fiber_paid_http.Core.Http.Challenge.{
  build_www_authenticate_payment_header, parse_www_authenticate_payment_header, custom_fields,
}
use fiber_paid_http.Core.Http.ChallengeRoundTrip.{HasOrderedCustom, parse-build_challenge}
use fiber_paid_http.Core.Schemas.{
  is_payment_challenge, parse_payment_challenge, custom_names_valid, is_challenge_field,
  is_auth_param_name,
}
use fiber_paid_http.Tables.{has}
use fiber_paid_http.Tests.{challenge_1, platform}

abbrev fields_1 : Params
fields_1 = (text "id", text "a\"b") ∷ (text "realm", text "c\\, d=1") ∷ []

abbrev unclosed : Text
unclosed = text "id=\"a"

unclosed-bounded : length unclosed < 10
unfolding text
unclosed-bounded = omega arith

auth_params_total_example : (r : Result Params) × (auth_params 10 [] unclosed ≡ some r)
auth_params_total_example = auth_params_total 10 [] unclosed unclosed-bounded

fields_1-AreFresh : AreFresh [] fields_1
unfolding text ◌==◌ is_name to_lower has_own
fields_1-AreFresh = (
  record { named = refl; nonempty = refl; lowercase = refl; not_proto = refl },
  refl,
  (record { named = refl; nonempty = refl; lowercase = refl; not_proto = refl }, refl, tt),
)

parse_auth_params-join_fields_example : parse_auth_params (join_fields fields_1) ≡ ok fields_1
parse_auth_params-join_fields_example = parse_auth_params-join_fields fields_1 fields_1-AreFresh

abbrev header_1 : Text
header_1 =
    text
      "Payment id=\"c1\", realm=\"api\", method=\"fiber\", intent=\"charge\", request=\"json\", description=\"a \\\"q\\\" \\\\ b\", note=\"x, y\""

challenge_1-HasOrderedCustom : HasOrderedCustom platform challenge_1
unfolding custom_fields text ◌==◌ is_challenge_field has
challenge_1-HasOrderedCustom = record { ordered = refl; distinct = (refl, tt) }

header_1-built : build_www_authenticate_payment_header platform challenge_1 ≡ ok header_1
unfolding build_www_authenticate_payment_header parse_payment_challenge is_payment_challenge
    custom_fields text ◌==◌ join_fields field custom_names_valid is_challenge_field
    is_auth_param_name
header_1-built = refl

parse-build_challenge_example :
    parse_www_authenticate_payment_header platform (some header_1) ≡ some challenge_1
parse-build_challenge_example =
    parse-build_challenge platform challenge_1 header_1 challenge_1-HasOrderedCustom header_1-built
