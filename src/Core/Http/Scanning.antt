-- ===== src/Core/Http/Scanning.antt =====
-- Scanning a text that is known to begin with a run of characters.
use fiber_paid_http.Prelude.{
  ℕ, zero, suc, ◌≤◌, ◌<◌, ◌≡◌, refl, Text, Bool, true, false, ◌||◌, Option, none, some, [], ◌∷◌,
  ◌++◌, length, eqb, is_empty, if◌then◌else◌, arith, Bool-cases, inl, inr, Result, not,
}
use fiber_paid_http.Core.Schemas.{all}
use fiber_paid_http.Core.Http.AuthParams.{
  Params, take_while, drop_while, escape_quoted, quoted, read_value, starts_with_equals,
  after_first, is_space, is_name, is_separator, auth_param, auth_params, stop_or_fail, add_param,
  has_own, assign,
}

module _ (p : ℕ → Bool) where
  pub take_while-append :
      (xs : Text) (y : ℕ) (ys : Text)
      → all p xs ≡ true
      → p y ≡ false
      → take_while p (xs ++ y ∷ ys) ≡ xs
  unfolding take_while
  take_while-append [] y ys h e = rw e
  take_while-append (x ∷ xs) y ys h e = ground (arith, take_while-append xs y ys)

  pub drop_while-append :
      (xs : Text) (y : ℕ) (ys : Text)
      → all p xs ≡ true
      → p y ≡ false
      → drop_while p (xs ++ y ∷ ys) ≡ y ∷ ys
  unfolding drop_while
  drop_while-append [] y ys h e = rw e
  drop_while-append (x ∷ xs) y ys h e = ground (arith, drop_while-append xs y ys)

  pub length-drop_while-le : (s : Text) → length (drop_while p s) ≤ length s
  unfolding drop_while
  length-drop_while-le [] = omega arith
  length-drop_while-le (c ∷ s) = ground (arith, length-drop_while-le s)

-- A quoted value is read back, up to its closing quote.
pub quoted-escape_quoted :
    (value rest : Text) → quoted false (escape_quoted value ++ b'"' ∷ rest) ≡ some (value, rest)
unfolding quoted escape_quoted
quoted-escape_quoted [] rest = refl
quoted-escape_quoted (c ∷ value) rest = ground (arith, quoted-escape_quoted value rest)

length_rest : Option (Text × Text) → ℕ
length_rest none = 0
length_rest (some (value, rest)) = length rest

length-quoted-le : (flag : Bool) (s : Text) → length_rest (quoted flag s) ≤ length s
unfolding quoted length_rest
length-quoted-le flag [] = omega arith
length-quoted-le true (c ∷ s) = ground (arith, length-quoted-le false s)
length-quoted-le false (c ∷ s) = ground (arith, length-quoted-le false s, length-quoted-le true s)

length-read_value-le : (s : Text) → length_rest (read_value s) ≤ length s
unfolding read_value length_rest
length-read_value-le [] = omega arith
length-read_value-le (c ∷ s) = elim (Bool-cases (eqb c b'"')) [
  | inl quote ↦ rw quote (omega (arith, length-quoted-le false s))
  | inr bare ↦ rw bare (length-drop_while-le (λ d. not (is_separator d)) (c ∷ s))
]

length-after_first-lt : (s : Text) → starts_with_equals s ≡ true → length (after_first s) < length s
length-after_first-lt [] h = absurd (cc)
length-after_first-lt (c ∷ s) h = omega arith

-- What stands behind a parameter is shorter than the input.
length-tail-lt :
    (input value tail : Text)
    → starts_with_equals (drop_while is_space (drop_while is_name (drop_while is_separator input)))
      ≡ true
    → read_value (
        drop_while is_space
          (after_first (drop_while is_space (drop_while is_name (drop_while is_separator input)))))
      ≡ some (value, tail)
    → length tail < length input
unfolding length_rest
length-tail-lt input value tail eq read =
    let start = drop_while is_separator input in
    let rest = drop_while is_space (drop_while is_name start) in
    let read_le = length-read_value-le (drop_while is_space (after_first rest)) in
    let tail_le : length tail ≤ length (drop_while is_space (after_first rest)) =
      rw read at read_le in
    omega (
      arith,
      length-drop_while-le is_separator input,
      length-drop_while-le is_name start,
      length-drop_while-le is_space (drop_while is_name start),
      length-after_first-lt rest eq,
      length-drop_while-le is_space (after_first rest),
    )

-- The round or the loop has an answer: it did not run out of fuel.
abbrev Answers : Option (Result Params) → Type 0
Answers o = (r : Result Params) × (o ≡ some r)

if-Answers :
    (b : Bool) (x y : Option (Result Params))
    → Answers x
    → (b ≡ false → Answers y)
    → Answers (if b then x else y)
if-Answers true x y hx hy = hx
if-Answers false x y hx hy = hy refl

stop_or_fail-Answers : (b : Bool) (params : Params) → Answers (stop_or_fail b params)
unfolding stop_or_fail
stop_or_fail-Answers true params = (_, refl)
stop_or_fail-Answers false params = (_, refl)

add_param-Answers :
    (next : Params → Text → Option (Result Params)) (params : Params) (key : Text)
    (read : Option (Text × Text))
    → ((value tail : Text) (qs : Params) → read ≡ some (value, tail) → Answers (next qs tail))
    → Answers (add_param next params key read)
unfolding add_param
add_param-Answers next params key none h = (_, refl)
add_param-Answers next params key (some (value, tail)) h =
    if-Answers (has_own key params) _ _ (_, refl)
      (λ fresh. h value tail (assign key value params) refl)

goes_equals : (a b : Bool) → (a || not b) ≡ false → b ≡ true
goes_equals a b h = ground arith

auth_param-Answers :
    (next : Params → Text → Option (Result Params)) (params : Params) (input : Text)
    → ((qs : Params) (t : Text) → length t < length input → Answers (next qs t))
    → Answers (auth_param next params input)
unfolding auth_param
auth_param-Answers next params input continues =
    let start = drop_while is_separator input in
    let raw_key = take_while is_name start in
    let rest = drop_while is_space (drop_while is_name start) in
    if-Answers (is_empty raw_key || not (starts_with_equals rest)) _ _
      (stop_or_fail-Answers _ params)
      λ goes. add_param-Answers next params _ _ λ value tail qs read.
        continues qs tail (length-tail-lt input value tail (goes_equals _ _ goes) read)

-- With fuel above the length of the input the loop does not run out: it returns or throws.
pub auth_params_total :
    (fuel : ℕ) (params : Params) (input : Text)
    → length input < fuel
    → (r : Result Params) × (auth_params fuel params input ≡ some r)
unfolding auth_params
auth_params_total zero params input h = elim h [ ]
auth_params_total (suc fuel) params [] h = (_, refl)
auth_params_total (suc fuel) params (c ∷ s) h =
    auth_param-Answers (auth_params fuel) params (c ∷ s)
      λ qs t shorter. auth_params_total fuel qs t (omega arith)
