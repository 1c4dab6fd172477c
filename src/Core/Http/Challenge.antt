-- ===== src/Core/Http/Challenge.antt =====
-- packages/core/src/http.ts: a challenge as a `WWW-Authenticate: Payment` header and back.
use fiber_paid_http.Prelude.{
  Text, text, ◌==◌, Bool, false, ◌&&◌, Option, none, some, [], ◌∷◌, ◌++◌, take, drop, eqb,
  if◌then◌else◌, lower, truthy, Result, ok, err, plain_error, ◌>>=◌,
}
use fiber_paid_http.Sorting.{order_by}
use fiber_paid_http.Core.Types.{PaymentChallenge}
use fiber_paid_http.Core.Runtime.{Runtime}
use fiber_paid_http.Core.Schemas.{is_challenge_field, parse_payment_challenge}
use fiber_paid_http.Core.Http.AuthParams.{
  Params, is_space, drop_while, parse_auth_params, join_fields,
}

abbrev pub payment_auth_scheme : Text
payment_auth_scheme = text "Payment"

-- a field of the list that is left out where it is undefined
abbrev pub opt_field : Text → Option Text → Params → Params
opt_field key none rest = rest
opt_field key (some value) rest = (key, value) ∷ rest

-- the members beyond the named ones
unfoldable pub only_custom : Params → Params
only_custom [] = []
only_custom ((key, value) ∷ params) =
    let rest = only_custom params in if is_challenge_field key then rest else (key, value) ∷ rest

unfoldable pub param : Text → Params → Option Text
param key [] = none
param key ((k, value) ∷ params) = if k == key then some value else param key params

required : Text → Params → Result Text
required key params = elim (param key params) [
  | none ↦ err (plain_error (text "ZodError"))
  | some value ↦ ok value
]

-- the rest of the header from the scheme's name, where it stands here
unfoldable pub scheme_here : Text → Bool
unfolding is_space
scheme_here s =
    lower (take 7 s) == text "payment" && elim (drop 7 s) [ [] ↦ false | c ∷ rest ↦ is_space c ]

-- behind a comma
unfoldable pub scheme_after_comma : Text → Option Text
unfolding drop_while scheme_here
scheme_after_comma [] = none
scheme_after_comma (c ∷ s) =
    let later = scheme_after_comma s in
    if eqb c b',' && scheme_here (drop_while is_space s)
    then some (drop_while is_space s)
    else later

-- `search(/(?:^|,\s*)Payment\s+/i)`, then `slice` and `replace(/^,\s*/, "")`
unfoldable pub find_scheme : Text → Option Text
unfolding scheme_after_comma
find_scheme s = if scheme_here s then some s else scheme_after_comma s

-- `start.slice(start.indexOf(" ") + 1)`: all of the text where there is no space
unfoldable pub after_space : Text → Option Text
after_space [] = none
after_space (c ∷ s) = let later = after_space s in if eqb c 32 then some s else later

abbrev slice_after_space : Text → Text
slice_after_space s = elim (after_space s) [ none ↦ s | some rest ↦ rest ]

abbrev pub to_option {ℓ} : {A : Type ℓ} → Result A → Option A
to_option (ok a) = some a
to_option (err e) = none

module _ (rt : Runtime) where
  abbrev pub by_locale : Text × Text → Text × Text → Bool
  by_locale f g = rt.locale_le f.0 g.0

  unfoldable pub custom_fields : PaymentChallenge → Params
  unfolding order_by only_custom
  custom_fields c = order_by by_locale (only_custom c.custom)

  abbrev pub challenge_fields : PaymentChallenge → Params
  challenge_fields c =
      (text "id", c.id)
      ∷ (text "realm", c.realm)
      ∷ (text "method", c.method)
      ∷ (text "intent", c.intent)
      ∷ (text "request", c.request)
      ∷ opt_field (text "expires") c.expires (
          opt_field (text "digest") c.digest (
            opt_field (text "description") c.description
              (opt_field (text "opaque") c.opaque (custom_fields c))))

  unfoldable pub build_www_authenticate_payment_header : PaymentChallenge → Result Text
  build_www_authenticate_payment_header c = do
    parsed ← parse_payment_challenge rt c
    ok (payment_auth_scheme ++ 32 ∷ join_fields (challenge_fields parsed))

  -- `PaymentChallengeSchema.parse(params)`
  unfoldable pub challenge_of_params : Params → Result PaymentChallenge
  unfolding required param only_custom
  challenge_of_params params = do
    id ← required (text "id") params
    realm ← required (text "realm") params
    method ← required (text "method") params
    intent ← required (text "intent") params
    request ← required (text "request") params
    parse_payment_challenge rt (record {
      id = id;
      realm = realm;
      method = method;
      intent = intent;
      request = request;
      expires = param (text "expires") params;
      digest = param (text "digest") params;
      description = param (text "description") params;
      opaque = param (text "opaque") params;
      custom = only_custom params;
    })

  abbrev challenge_at : Option Text → Option PaymentChallenge
  challenge_at none = none
  challenge_at (some start) =
      to_option (parse_auth_params (slice_after_space start) >>= challenge_of_params)

  unfoldable pub parse_www_authenticate_payment_header : Option Text → Option PaymentChallenge
  unfolding find_scheme after_space challenge_of_params
  parse_www_authenticate_payment_header header = elim (truthy header) [
    | none ↦ none
    | some h ↦ challenge_at (find_scheme h)
  ]
