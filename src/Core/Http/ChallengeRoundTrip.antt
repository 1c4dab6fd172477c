-- ===== src/Core/Http/ChallengeRoundTrip.antt =====
-- The header that a gateway writes for a challenge is read back as that challenge.
use Prim.Native.String.{String}
use fiber_paid_http.Prelude.{
  ◌≡◌, refl, ap, ◌∙◌, Text, text, ◌==◌, ==_iff, true, false, Option, none, some, [], ◌∷◌, ◌++◌,
  to_lower, arith, ok, All, ◌>>=◌, Bool-cases, inl, inr,
}
use fiber_paid_http.Sorting.{order_by-All}
use fiber_paid_http.Tables.{Unique}
use fiber_paid_http.Core.Types.{PaymentChallenge}
use fiber_paid_http.Core.Runtime.{Runtime}
use fiber_paid_http.Core.Schemas.{
  is_challenge_field, custom_names_valid, is_payment_challenge, parse_payment_challenge,
}
use fiber_paid_http.Core.Http.AuthParams.{Params, has_own, is_name, parse_auth_params, join_fields}
use fiber_paid_http.Core.Http.ParamsRoundTrip.{IsParamName, parse_auth_params-join_fields}
use fiber_paid_http.Core.Http.FreshNames.{
  FreshAfter, in_names, fresh_field, fresh_opt_field, fresh_custom, name_of, NotNamed, IsNew,
  challenge_names, custom-IsNew, only_custom-NotNamed,
}
use fiber_paid_http.Core.Http.Challenge.{
  to_option, payment_auth_scheme, opt_field, only_custom, param, custom_fields, challenge_fields,
  by_locale, build_www_authenticate_payment_header, challenge_of_params,
  parse_www_authenticate_payment_header,
}

param-opt_field_self :
    (key : Text) (value : Option Text) (rest : Params)
    → (key == key) ≡ true
    → param key rest ≡ none
    → param key (opt_field key value rest) ≡ value
unfolding param
param-opt_field_self key none rest e h = h
param-opt_field_self key (some value) rest e h = rw e

param-opt_field_ne :
    (j key : Text) (value : Option Text) (rest : Params)
    → (key == j) ≡ false
    → param j (opt_field key value rest) ≡ param j rest
unfolding param
param-opt_field_ne j key none rest e = refl
param-opt_field_ne j key (some value) rest e = rw e

param_custom :
    (key : Text) (fields : Params)
    → is_challenge_field key ≡ true
    → All NotNamed fields
    → param key fields ≡ none
unfolding param
param_custom key [] h a = refl
param_custom key ((k, v) ∷ fields) h a = ground (arith, ==_iff k key, param_custom key fields)

only_custom-opt_field :
    (key : Text) (value : Option Text) (rest : Params)
    → is_challenge_field key ≡ true
    → only_custom (opt_field key value rest) ≡ only_custom rest
unfolding only_custom
only_custom-opt_field key none rest h = refl
only_custom-opt_field key (some value) rest h = rw h

only_custom_self : (fields : Params) → All NotNamed fields → only_custom fields ≡ fields
unfolding only_custom
only_custom_self [] a = refl
only_custom_self ((k, v) ∷ fields) a = rw a.0 (ap (λ fs. (k, v) ∷ fs) (only_custom_self fields a.1))

-- The names of the source are names that a parameter can have.
abbrev IsNamed : (key : String) → Type 0
IsNamed key = IsParamName (text key)

fresh_names :
    IsNamed "id"
    × IsNamed "realm"
    × IsNamed "method"
    × IsNamed "intent"
    × IsNamed "request"
    × IsNamed "expires"
    × IsNamed "digest"
    × IsNamed "description"
    × IsNamed "opaque"
unfolding text ◌==◌ is_name to_lower
fresh_names = (
  record { named = refl; nonempty = refl; lowercase = refl; not_proto = refl },
  record { named = refl; nonempty = refl; lowercase = refl; not_proto = refl },
  record { named = refl; nonempty = refl; lowercase = refl; not_proto = refl },
  record { named = refl; nonempty = refl; lowercase = refl; not_proto = refl },
  record { named = refl; nonempty = refl; lowercase = refl; not_proto = refl },
  record { named = refl; nonempty = refl; lowercase = refl; not_proto = refl },
  record { named = refl; nonempty = refl; lowercase = refl; not_proto = refl },
  record { named = refl; nonempty = refl; lowercase = refl; not_proto = refl },
  record { named = refl; nonempty = refl; lowercase = refl; not_proto = refl },
)

module _ (rt : Runtime) (c : PaymentChallenge) (custom : Params)
    (members : All NotNamed custom) where
  -- the fields that stand behind `request`
  optional_fields : Params
  optional_fields = opt_field (text "expires") c.expires (
      opt_field (text "digest") c.digest
        (opt_field (text "description") c.description (opt_field (text "opaque") c.opaque custom)))

  read_expires : param (text "expires") optional_fields ≡ c.expires
  unfolding optional_fields text ◌==◌ is_challenge_field
  read_expires = param-opt_field_self (text "expires") c.expires _ refl (
      param-opt_field_ne _ (text "digest") c.digest _ refl
      ∙ param-opt_field_ne _ (text "description") c.description _ refl
      ∙ param-opt_field_ne _ (text "opaque") c.opaque custom refl
      ∙ param_custom _ custom refl members)

  read_digest : param (text "digest") optional_fields ≡ c.digest
  unfolding optional_fields text ◌==◌ is_challenge_field
  read_digest =
      param-opt_field_ne _ (text "expires") c.expires _ refl
      ∙ param-opt_field_self (text "digest") c.digest _ refl (
          param-opt_field_ne _ (text "description") c.description _ refl
          ∙ param-opt_field_ne _ (text "opaque") c.opaque custom refl
          ∙ param_custom _ custom refl members)

  read_description : param (text "description") optional_fields ≡ c.description
  unfolding optional_fields text ◌==◌ is_challenge_field
  read_description =
      param-opt_field_ne _ (text "expires") c.expires _ refl
      ∙ param-opt_field_ne _ (text "digest") c.digest _ refl
      ∙ param-opt_field_self (text "description") c.description _ refl (
          param-opt_field_ne _ (text "opaque") c.opaque custom refl
          ∙ param_custom _ custom refl members)

  read_opaque : param (text "opaque") optional_fields ≡ c.opaque
  unfolding optional_fields text ◌==◌ is_challenge_field
  read_opaque =
      param-opt_field_ne _ (text "expires") c.expires _ refl
      ∙ param-opt_field_ne _ (text "digest") c.digest _ refl
      ∙ param-opt_field_ne _ (text "description") c.description _ refl
      ∙ param-opt_field_self (text "opaque") c.opaque custom refl
          (param_custom _ custom refl members)

  read_custom : only_custom optional_fields ≡ custom
  unfolding optional_fields text ◌==◌ is_challenge_field
  read_custom =
      only_custom-opt_field (text "expires") c.expires _ refl
      ∙ only_custom-opt_field (text "digest") c.digest _ refl
      ∙ only_custom-opt_field (text "description") c.description _ refl
      ∙ only_custom-opt_field (text "opaque") c.opaque custom refl
      ∙ only_custom_self custom members

  all_fields : Params
  all_fields =
      (text "id", c.id)
      ∷ (text "realm", c.realm)
      ∷ (text "method", c.method)
      ∷ (text "intent", c.intent)
      ∷ (text "request", c.request)
      ∷ optional_fields

  all_fields_fresh :
      All (IsNew challenge_names) custom → Unique name_of custom → FreshAfter [] all_fields
  unfolding all_fields optional_fields text ◌==◌ in_names
  all_fields_fresh new distinct =
      let (n1, n2, n3, n4, n5, n6, n7, n8, n9) = fresh_names in
      fresh_field (text "id") c.id n1 refl (
        fresh_field (text "realm") c.realm n2 refl (
          fresh_field (text "method") c.method n3 refl (
            fresh_field (text "intent") c.intent n4 refl (
              fresh_field (text "request") c.request n5 refl (
                fresh_opt_field (text "expires") c.expires n6 refl (
                  fresh_opt_field (text "digest") c.digest n7 refl (
                    fresh_opt_field (text "description") c.description n8 refl (
                      fresh_opt_field (text "opaque") c.opaque n9 refl
                        (fresh_custom challenge_names custom new distinct)))))))))

  read_fields :
      challenge_of_params rt all_fields ≡ parse_payment_challenge rt (record c { custom = custom })
  unfolding all_fields challenge_of_params text ◌==◌ is_challenge_field
  read_fields = rw (read_expires, read_digest, read_description, read_opaque, read_custom)

-- The custom members of a challenge are in the order in which they are written, none has the name
-- of another member, and their names are distinct.
pub record HasOrderedCustom (rt : Runtime) (c : PaymentChallenge) : Type 0 where
  pub ordered : custom_fields rt c ≡ c.custom
  pub distinct : Unique name_of c.custom

custom-NotNamed :
    (rt : Runtime) (c : PaymentChallenge) → HasOrderedCustom rt c → All NotNamed c.custom
unfolding custom_fields
custom-NotNamed rt c o =
    rw o.ordered at
      (order_by-All (by_locale rt) NotNamed (only_custom c.custom) (only_custom-NotNamed c.custom))

valid-custom :
    (rt : Runtime) (c : PaymentChallenge)
    → is_payment_challenge rt c ≡ true
    → custom_names_valid c.custom ≡ true
unfolding is_payment_challenge
valid-custom rt c h = ground arith

parse_valid :
    (rt : Runtime) (c : PaymentChallenge)
    → is_payment_challenge rt c ≡ true
    → parse_payment_challenge rt c ≡ ok c
unfolding parse_payment_challenge
parse_valid rt c h = rw h

challenge_fields_lem :
    (rt : Runtime) (c : PaymentChallenge) (o : HasOrderedCustom rt c)
    → challenge_fields rt c ≡ all_fields rt c c.custom (custom-NotNamed rt c o)
unfolding all_fields optional_fields
challenge_fields_lem rt c o = rw o.ordered

-- The fields of a challenge are read back as the challenge.
fields_round_trip :
    (rt : Runtime) (c : PaymentChallenge)
    → HasOrderedCustom rt c
    → is_payment_challenge rt c ≡ true
    → (parse_auth_params (join_fields (challenge_fields rt c)) >>= challenge_of_params rt) ≡ ok c
unfolding in_names has_own
fields_round_trip rt c o valid =
    let members = custom-NotNamed rt c o in
    let new = custom-IsNew c.custom (valid-custom rt c valid) members in
    let fresh = (all_fields_fresh rt c c.custom members new o.distinct).apply [] (λ k h. h) in
    rw (challenge_fields_lem rt c o) (
      rw (parse_auth_params-join_fields (all_fields rt c c.custom members) fresh)
        (read_fields rt c c.custom members ∙ parse_valid rt c valid))

parse_header :
    (rt : Runtime) (body : Text)
    → parse_www_authenticate_payment_header rt (some (payment_auth_scheme ++ 32 ∷ body))
      ≡ to_option (parse_auth_params body >>= challenge_of_params rt)
unfolding parse_www_authenticate_payment_header text ◌==◌ to_lower
parse_header rt body = refl

-- A header that is built from a challenge is parsed to that challenge: the gateway's challenge
-- reaches the client unchanged. The custom members of the challenge have distinct names and stand
-- in the order of their names.
pub parse-build_challenge :
    (rt : Runtime) (c : PaymentChallenge) (header : Text)
    → HasOrderedCustom rt c
    → build_www_authenticate_payment_header rt c ≡ ok header
    → parse_www_authenticate_payment_header rt (some header) ≡ some c
unfolding build_www_authenticate_payment_header parse_payment_challenge
parse-build_challenge rt c header o built = elim (Bool-cases (is_payment_challenge rt c)) [
  | inl valid ↦
      let e : payment_auth_scheme ++ 32 ∷ join_fields (challenge_fields rt c) ≡ header =
        ground arith in
      rw (← e) (
        parse_header rt (join_fields (challenge_fields rt c))
        ∙ ap to_option (fields_round_trip rt c o valid))
  | inr invalid ↦ absurd (ground arith)
]
