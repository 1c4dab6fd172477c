-- ===== src/Core/Http/ParamsRoundTrip.antt =====
-- `buildWwwAuthenticatePaymentHeader` joins its fields by ", "; `parseAuthParams` reads them back.
use fiber_paid_http.Prelude.{
  ℕ, zero, suc, ◌≤◌, ◌<◌, ◌≡◌, refl, sym, ap, ◌∙◌, &&-eq-true, Text, text, ◌==◌, Bool, true, false,
  Option, some, [], ◌∷◌, ◌++◌, append_assoc, append-nil, length, length-append, is_empty, lower,
  arith, Result, ok,
}
use fiber_paid_http.Core.Schemas.{all}
use fiber_paid_http.Core.Http.AuthParams.{
  Params, drop_while, escape_quoted, is_name, is_separator, add_param, auth_param, auth_params,
  has_own, assign, parse_auth_params, field, join_fields,
}
use fiber_paid_http.Core.Http.Scanning.{take_while-append, drop_while-append, quoted-escape_quoted}

-- a lowercase name that a parameter can have, other than `__proto__`
pub record IsParamName (key : Text) : Type 0 where
  pub named : all is_name key ≡ true
  pub nonempty : is_empty key ≡ false
  pub lowercase : lower key ≡ key
  pub not_proto : (key == text "__proto__") ≡ false

-- the names are valid, distinct, and none is among `seen`
abbrev pub AreFresh : Params → Params → Type 0
AreFresh seen [] = Unit {0}
AreFresh seen ((key, value) ∷ fields) =
    IsParamName key × (has_own key seen ≡ false) × AreFresh (seen ++ (key, value) ∷ []) fields

-- the text behind a field
rest_of : Params → Text
rest_of [] = []
rest_of (f ∷ fields) = b',' ∷ 32 ∷ (field f ++ rest_of fields)

field-append :
    (key value rest : Text)
    → field (key, value) ++ rest ≡ key ++ b'=' ∷ b'"' ∷ (escape_quoted value ++ b'"' ∷ rest)
unfolding field
field-append key value rest = simp append_assoc

join_fields-rest_of :
    (f : Text × Text) (fields : Params) → join_fields (f ∷ fields) ≡ field f ++ rest_of fields
unfolding join_fields rest_of
join_fields-rest_of f [] = sym (append-nil (field f))
join_fields-rest_of f (g ∷ fields) = rw (join_fields-rest_of g fields)

not_separator : (c : ℕ) → is_name c ≡ true → is_separator c ≡ false
unfolding is_name is_separator
not_separator c h = ground arith

skip_none : (p : ℕ → Bool) (y : ℕ) (ys : Text) → p y ≡ false → drop_while p (y ∷ ys) ≡ y ∷ ys
skip_none p y ys h = drop_while-append p [] y ys refl h

equals_not_name : is_name b'=' ≡ false
unfolding is_name
equals_not_name = refl

add_param_lem :
    (next : Params → Text → Option (Result Params)) (params : Params) (key value rest : Text)
    → IsParamName key
    → has_own key params ≡ false
    → add_param next params (lower key) (some (value, rest))
      ≡ next (params ++ (key, value) ∷ []) rest
unfolding add_param assign
add_param_lem next params key value rest n fresh = rw (n.lowercase, fresh, n.not_proto)

-- One round reads one field, whatever separators stand before it.
auth_param_field :
    (next : Params → Text → Option (Result Params)) (params : Params) (key value rest before : Text)
    → IsParamName key
    → has_own key params ≡ false
    → drop_while is_separator before ≡ key ++ b'=' ∷ b'"' ∷ (escape_quoted value ++ b'"' ∷ rest)
    → auth_param next params before ≡ next (params ++ (key, value) ∷ []) rest
unfolding auth_param
auth_param_field next params key value rest before n fresh start =
    let body = b'"' ∷ (escape_quoted value ++ b'"' ∷ rest) in
    rw
      (
        start,
        take_while-append is_name key b'=' body n.named equals_not_name,
        drop_while-append is_name key b'=' body n.named equals_not_name,
        n.nonempty,
        quoted-escape_quoted value rest,
      )
      (add_param_lem next params key value rest n fresh)

comma_space : (s : Text) → drop_while is_separator (b',' ∷ 32 ∷ s) ≡ drop_while is_separator s
unfolding drop_while is_separator
comma_space s = refl

-- A field begins with a character of its name, which is no separator.
field_start :
    (key value rest : Text)
    → IsParamName key
    → drop_while is_separator (field (key, value) ++ rest)
      ≡ key ++ b'=' ∷ b'"' ∷ (escape_quoted value ++ b'"' ∷ rest)
field_start [] value rest n = absurd (cc (n.nonempty))
field_start (c ∷ key) value rest n =
    rw (field-append (c ∷ key) value rest)
      (skip_none is_separator c _ (not_separator c (&&-eq-true _ _ n.named).0))

auth_params-rest_of :
    (fuel : ℕ) (params fields : Params)
    → length fields < fuel
    → AreFresh params fields
    → auth_params fuel params (rest_of fields) ≡ some (ok (params ++ fields))
unfolding auth_params rest_of
auth_params-rest_of zero params fields h a = elim h [ ]
auth_params-rest_of (suc fuel) params [] h a = rw (append-nil params)
auth_params-rest_of (suc fuel) params ((key, value) ∷ fields) h a =
    auth_param_field (auth_params fuel) params key value (rest_of fields)
      (b',' ∷ 32 ∷ (field (key, value) ++ rest_of fields)) a.0 a.1
      (comma_space (field (key, value) ++ rest_of fields)
        ∙ field_start key value (rest_of fields) a.0)
    ∙ auth_params-rest_of fuel (params ++ (key, value) ∷ []) fields (omega arith) a.2
    ∙ ap (λ ps. some (ok ps)) (append_assoc params ((key, value) ∷ []) fields)

auth_params-join_fields :
    (fuel : ℕ) (fields : Params)
    → length fields < fuel
    → AreFresh [] fields
    → auth_params fuel [] (join_fields fields) ≡ some (ok fields)
unfolding auth_params join_fields
auth_params-join_fields zero fields h a = elim h [ ]
auth_params-join_fields (suc fuel) [] h a = refl
auth_params-join_fields (suc fuel) (([], value) ∷ fields) h a = absurd (cc (a.0.nonempty))
auth_params-join_fields (suc fuel) ((c ∷ key, value) ∷ fields) h a =
    rw (join_fields-rest_of (c ∷ key, value) fields) (
      auth_param_field (auth_params fuel) [] (c ∷ key) value (rest_of fields)
        (field (c ∷ key, value) ++ rest_of fields) a.0 a.1
        (field_start (c ∷ key) value (rest_of fields) a.0)
      ∙ auth_params-rest_of fuel ((c ∷ key, value) ∷ []) fields (omega arith) a.2)

length-field-pos : (f : Text × Text) → 0 < length (field f)
unfolding field
length-field-pos (key, value) =
    omega (arith, length-append key (b'=' ∷ b'"' ∷ (escape_quoted value ++ b'"' ∷ [])))

length-join_fields : (fields : Params) → length fields ≤ length (join_fields fields)
unfolding join_fields
length-join_fields [] = omega arith
length-join_fields (f ∷ []) = length-field-pos f
length-join_fields (f ∷ g ∷ fields) = omega (
  arith,
  length-append (field f) (b',' ∷ 32 ∷ join_fields (g ∷ fields)),
  length-field-pos f,
  length-join_fields (g ∷ fields),
)

-- Fields with valid, distinct names are read back in order, whatever text their values are.
pub parse_auth_params-join_fields :
    (fields : Params) → AreFresh [] fields → parse_auth_params (join_fields fields) ≡ ok fields
unfolding parse_auth_params
parse_auth_params-join_fields fields a = rw (
    auth_params-join_fields (suc (length (join_fields fields))) fields
      (omega (arith, length-join_fields fields)) a)
