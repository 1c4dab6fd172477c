-- ===== src/Core/Http/FreshNames.antt =====
-- Which names the fields of a challenge have: each is new to the fields before it.
use fiber_paid_http.Prelude.{
  ℕ, ◌≡◌, refl, Text, text, ◌==◌, ==_sym, Bool, true, false, ◌||◌, Option, none, some, List, [],
  ◌∷◌, ◌++◌, lower, to_lower, arith, Bool-cases, All, inl, inr, eqb,
}
use fiber_paid_http.Tables.{has, Unique}
use fiber_paid_http.Core.Schemas.{
  all, is_digit, is_lower_alpha, is_challenge_field, is_auth_param_name, custom_names_valid,
}
use fiber_paid_http.Core.Http.AuthParams.{Params, has_own, is_name}
use fiber_paid_http.Core.Http.ParamsRoundTrip.{IsParamName, AreFresh}
use fiber_paid_http.Core.Http.Challenge.{opt_field, only_custom}

-- the names that were used so far
unfoldable pub in_names : Text → List Text → Bool
in_names key [] = false
in_names key (n ∷ names) = n == key || in_names key names

abbrev pub Within : Params → List Text → Type 0
Within seen names = (k : Text) → has_own k seen ≡ true → in_names k names ≡ true

has_own-append :
    (k key value : Text) (seen : Params)
    → has_own k (seen ++ (key, value) ∷ []) ≡ (has_own k seen || key == k)
unfolding has_own
has_own-append k key value [] = ground arith
has_own-append k key value ((j, v) ∷ seen) = ground (arith, has_own-append k key value seen)

Within-append :
    (key value : Text) (seen : Params) (names : List Text)
    → Within seen names
    → Within (seen ++ (key, value) ∷ []) (key ∷ names)
unfolding in_names
Within-append key value seen names w k h = ground (arith, has_own-append k key value seen, w k)

Within-fresh :
    (key : Text) (seen : Params) (names : List Text)
    → Within seen names
    → in_names key names ≡ false
    → has_own key seen ≡ false
Within-fresh key seen names w h = ground (arith, w key)

-- The fields are fresh after any fields whose names are among `names`.
pub record FreshAfter (names : List Text) (fields : Params) : Type 0 where
  pub apply : (seen : Params) → Within seen names → AreFresh seen fields

module _ {names : List Text} {rest : Params} (key : Text) where
  pub fresh_field :
      (value : Text)
      → IsParamName key
      → in_names key names ≡ false
      → FreshAfter (key ∷ names) rest
      → FreshAfter names ((key, value) ∷ rest)
  fresh_field value n new later = record {
    apply = λ seen w. (
      n,
      Within-fresh key seen names w new,
      later.apply (seen ++ (key, value) ∷ []) (Within-append key value seen names w),
    );
  }

  pub fresh_opt_field :
      (value : Option Text)
      → IsParamName key
      → in_names key names ≡ false
      → FreshAfter (key ∷ names) rest
      → FreshAfter names (opt_field key value rest)
  unfolding in_names
  fresh_opt_field none n new later = record {
    apply = λ seen w. later.apply seen (λ j h. ground (arith, w j h));
  }
  fresh_opt_field (some value) n new later = fresh_field value n new later

abbrev pub name_of : Text × Text → Text
name_of f = f.0

abbrev is_later_char : ℕ → Bool
is_later_char d = is_lower_alpha d || is_digit d || eqb d b'_' || eqb d b'-'

later_chars : (s : Text) → all is_later_char s ≡ true → (all is_name s ≡ true) × (lower s ≡ s)
unfolding is_name to_lower
later_chars [] h = (refl, refl)
later_chars (c ∷ s) h = ground (arith, later_chars s)

-- A name that the schema admits for a custom member is a parameter's name.
custom-IsParamName : (key : Text) → is_auth_param_name key ≡ true → IsParamName key
unfolding is_auth_param_name is_name to_lower text ◌==◌
custom-IsParamName [] h = absurd (cc)
custom-IsParamName (c ∷ s) h = record {
  named = ground (arith, later_chars s);
  nonempty = refl;
  lowercase = ground (arith, later_chars s);
  not_proto = ground arith;
}

abbrev pub NotNamed : Text × Text → Type 0
NotNamed f = is_challenge_field f.0 ≡ false

pub only_custom-NotNamed : (ps : Params) → All NotNamed (only_custom ps)
unfolding only_custom
only_custom-NotNamed [] = tt
only_custom-NotNamed ((key, value) ∷ ps) = elim (Bool-cases (is_challenge_field key)) [
  | inl named ↦ rw named (only_custom-NotNamed ps)
  | inr custom ↦ rw custom (custom, only_custom-NotNamed ps)
]

-- a custom member whose name was not used
abbrev pub IsNew : List Text → Text × Text → Type 0
IsNew names f = IsParamName f.0 × (in_names f.0 names ≡ false)

IsNew-cons :
    (key : Text) (names : List Text) (fields : Params)
    → has name_of key fields ≡ false
    → All (IsNew names) fields
    → All (IsNew (key ∷ names)) fields
unfolding has in_names
IsNew-cons key names [] h a = tt
IsNew-cons key names ((j, v) ∷ fields) h a =
    ((a.0.0, ground (arith, ==_sym key j)), IsNew-cons key names fields (ground arith) a.1)

pub fresh_custom :
    (names : List Text) (fields : Params)
    → All (IsNew names) fields
    → Unique name_of fields
    → FreshAfter names fields
fresh_custom names [] a u = record { apply = λ seen w. tt }
fresh_custom names ((key, value) ∷ fields) a u =
    fresh_field key value a.0.0 a.0.1
      (fresh_custom (key ∷ names) fields (IsNew-cons key names fields u.0 a.1) u.1)

abbrev pub challenge_names : List Text
challenge_names =
    text "opaque"
    ∷ text "description"
    ∷ text "digest"
    ∷ text "expires"
    ∷ text "request"
    ∷ text "intent"
    ∷ text "method"
    ∷ text "realm"
    ∷ text "id"
    ∷ []

challenge_names_lem :
    (key : Text) → is_challenge_field key ≡ false → in_names key challenge_names ≡ false
unfolding is_challenge_field in_names
challenge_names_lem key h = ground (
  arith,
  ==_sym key (text "opaque"),
  ==_sym key (text "description"),
  ==_sym key (text "digest"),
  ==_sym key (text "expires"),
  ==_sym key (text "request"),
  ==_sym key (text "intent"),
  ==_sym key (text "method"),
  ==_sym key (text "realm"),
  ==_sym key (text "id"),
)

pub custom-IsNew :
    (fields : Params)
    → custom_names_valid fields ≡ true
    → All NotNamed fields
    → All (IsNew challenge_names) fields
unfolding custom_names_valid
custom-IsNew [] h a = tt
custom-IsNew ((key, value) ∷ fields) h a = (
  (custom-IsParamName key (ground arith), challenge_names_lem key a.0),
  custom-IsNew fields (ground arith) a.1,
)
