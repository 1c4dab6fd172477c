-- ===== src/Fl402/HeaderRoundTrip.antt =====
-- packages/fl402-compat/src/index.ts: the `Authorization: L402` header, printed and read.
use fiber_paid_http.Prelude.{
  ℕ, ◌≡◌, refl, sym, ap, ◌∙◌, arith, Text, text, ◌==◌, Bool, true, false, &&-eq-true, not, none,
  some, [], ◌∷◌, ◌++◌, length, eqb, lower, to_lower, is_empty, subst, ok,
}
use mathlib.Core.List.{reverse, reverse-append, reverse-reverse}
use fiber_paid_http.Core.Schemas.{all, is_hex}
use fiber_paid_http.Core.Http.AuthParams.{is_space, take_while, drop_while}
use fiber_paid_http.Core.Http.Authorization.{trim, first_word, second_word}
use fiber_paid_http.Fl402.Types.{fl402_auth_scheme, strip_prefix, normalize_hex, is_hex_32}
use fiber_paid_http.Fl402.Headers.{
  Fl402Credentials, build_authorization_l402_header, cut_last_colon, credentials_of, l402_in,
  parse_authorization_l402_header,
}

abbrev pub not_space : ℕ → Bool
not_space c = not (is_space c)

abbrev not_colon : ℕ → Bool
not_colon c = not (eqb c b':')

take_while-all : (p : ℕ → Bool) (s : Text) → all p s ≡ true → take_while p s ≡ s
unfolding take_while
take_while-all p [] h = refl
take_while-all p (c ∷ s) h =
    let (first, rest) = &&-eq-true (p c) (all p s) h in
    rw first (ap (λ t. c ∷ t) (take_while-all p s rest))

all-append : (p : ℕ → Bool) (s t : Text) → all p s ≡ true → all p t ≡ true → all p (s ++ t) ≡ true
all-append p [] t h k = k
all-append p (c ∷ s) t h k =
    let (first, rest) = &&-eq-true (p c) (all p s) h in rw first (all-append p s t rest k)

cut_none : (s : Text) → all not_colon s ≡ true → cut_last_colon s ≡ none
unfolding cut_last_colon
cut_none [] h = refl
cut_none (c ∷ s) h =
    let (first, rest) = &&-eq-true (not_colon c) (all not_colon s) h in
    let miss : eqb c b':' ≡ false = ground arith in rw (cut_none s rest, miss) refl

cut_last_colon-append :
    (s t : Text) → all not_colon t ≡ true → cut_last_colon (s ++ b':' ∷ t) ≡ some (s, t)
unfolding cut_last_colon
cut_last_colon-append [] t h = rw (cut_none t h) refl
cut_last_colon-append (c ∷ s) t h = rw (cut_last_colon-append s t h) refl

hex_not_space : (c : ℕ) → is_hex c ≡ true → not_space (to_lower c) ≡ true
unfolding is_space to_lower
hex_not_space c h = ground arith

hex_not_colon : (c : ℕ) → is_hex c ≡ true → not_colon (to_lower c) ≡ true
unfolding to_lower
hex_not_colon c h = ground arith

hex_lower : (c : ℕ) → is_hex c ≡ true → is_hex (to_lower c) ≡ true
unfolding to_lower
hex_lower c h = ground arith

all-lower :
    (p : ℕ → Bool) (s : Text)
    → ((c : ℕ) → is_hex c ≡ true → p (to_lower c) ≡ true)
    → all is_hex s ≡ true
    → all p (lower s) ≡ true
all-lower p [] f h = refl
all-lower p (c ∷ s) f h =
    let (first, rest) = &&-eq-true (is_hex c) (all is_hex s) h in
    rw (f c first) (all-lower p s f rest)

length-lower : (s : Text) → length (lower s) ≡ length s
length-lower [] = refl
length-lower (c ∷ s) = omega (arith, length-lower s)

normalize_hex-is_hex : (s : Text) → is_hex_32 s ≡ true → is_hex_32 (normalize_hex s) ≡ true
unfolding is_hex_32 normalize_hex strip_prefix
normalize_hex-is_hex s h =
    let (long, digits) = &&-eq-true (eqb (length (strip_prefix s)) 64) _ h in
    rw (length-lower (strip_prefix s), long) (all-lower is_hex (strip_prefix s) hex_lower digits)

drop_while_none : (s : Text) → all not_space s ≡ true → drop_while is_space s ≡ s
unfolding drop_while
drop_while_none [] h = refl
drop_while_none (c ∷ s) h =
    let (first, _) = &&-eq-true (not_space c) (all not_space s) h in
    let miss : is_space c ≡ false = ground arith in rw miss refl

drop_while_head : (c : ℕ) (s : Text) → is_space c ≡ false → drop_while is_space (c ∷ s) ≡ c ∷ s
unfolding drop_while
drop_while_head c s h = rw h refl

-- A text that ends with no space on either side is its own trim.
trim_closed :
    (c d : ℕ) (s : Text)
    → is_space c ≡ false
    → is_space d ≡ false
    → trim (c ∷ (s ++ d ∷ [])) ≡ c ∷ (s ++ d ∷ [])
unfolding trim
trim_closed c d s h k =
    let whole : Text = c ∷ (s ++ d ∷ []) in
    let back : reverse whole ≡ d ∷ reverse (c ∷ s) = reverse-append (c ∷ s) (d ∷ []) in
    ap (λ t. reverse (drop_while is_space (reverse t))) (drop_while_head c (s ++ d ∷ []) h)
    ∙ ap (λ t. reverse (drop_while is_space t)) back
    ∙ ap reverse (drop_while_head d (reverse (c ∷ s)) k ∙ sym back)
    ∙ reverse-reverse whole

-- The last character of a text without spaces.
last_of :
    (c : ℕ) (s : Text)
    → all not_space (c ∷ s) ≡ true
    → (t : Text) × (d : ℕ) × (c ∷ s ≡ t ++ d ∷ []) × (is_space d ≡ false)
last_of c [] h = ([], c, refl, ground arith)
last_of c (e ∷ s) h =
    let (_, rest) = &&-eq-true (not_space c) (all not_space (e ∷ s)) h in
    let (t, d, same, end_not_space) = last_of e s rest in
    (c ∷ t, d, ap (λ u. c ∷ u) same, end_not_space)

header_of : Text → Text
header_of word = fl402_auth_scheme ++ (b' ' ∷ word)

-- A header of the scheme and one word.
l402_in_word :
    (c : ℕ) (s : Text)
    → all not_space (c ∷ s) ≡ true
    → l402_in (header_of (c ∷ s)) ≡ credentials_of (cut_last_colon (c ∷ s))
unfolding l402_in header_of text first_word second_word take_while drop_while is_space ◌==◌ to_lower
l402_in_word c s h =
    let (t, d, same, end_not_space) = last_of c s h in
    let scheme = text "402 " in
    let trimmed : trim (header_of (c ∷ s)) ≡ header_of (c ∷ s) =
      ap (λ u. trim (header_of u)) same
      ∙ trim_closed b'L' d (scheme ++ t) refl end_not_space
      ∙ ap header_of (sym same) in
    rw (trimmed, drop_while_none (c ∷ s) h, take_while-all not_space (c ∷ s) h) refl

nonempty_word : (s t : Text) → is_empty s ≡ false → (c : ℕ) × (u : Text) × (s ++ t ≡ c ∷ u)
nonempty_word [] t h = absurd cc
nonempty_word (c ∷ s) t h = (c, s ++ t, refl)

digits_of_hex_32 : (s : Text) → is_hex_32 s ≡ true → all is_hex (strip_prefix s) ≡ true
unfolding is_hex_32
digits_of_hex_32 s h = (&&-eq-true (eqb (length (strip_prefix s)) 64) _ h).1

all_of_normalized :
    (p : ℕ → Bool) (s : Text)
    → p b'0' ≡ true
    → p b'x' ≡ true
    → ((c : ℕ) → is_hex c ≡ true → p (to_lower c) ≡ true)
    → is_hex_32 s ≡ true
    → all p (normalize_hex s) ≡ true
unfolding normalize_hex
all_of_normalized p s zero_ok x_ok f h =
    rw (zero_ok, x_ok) (all-lower p (strip_prefix s) f (digits_of_hex_32 s h))

credentials_of_cut :
    (capability preimage : Text)
    → is_empty capability ≡ false
    → is_hex_32 preimage ≡ true
    → credentials_of (some (capability, preimage))
      ≡ ok (some (record { capability = capability; preimage = preimage }))
credentials_of_cut [] preimage h k = absurd cc
credentials_of_cut (c ∷ s) preimage h k = rw k refl

pub parse-build_l402 :
    (credentials : Fl402Credentials)
    → is_empty credentials.capability ≡ false
    → all not_space credentials.capability ≡ true
    → is_hex_32 credentials.preimage ≡ true
    → parse_authorization_l402_header (some (build_authorization_l402_header credentials))
      ≡ ok (some (record credentials { preimage = normalize_hex credentials.preimage }))
unfolding parse_authorization_l402_header build_authorization_l402_header header_of text
parse-build_l402 credentials some_text no_space digits =
    let capability = credentials.capability in
    let preimage = normalize_hex credentials.preimage in
    let (c, s, same) = nonempty_word capability (b':' ∷ preimage) some_text in
    let spaceless =
      all-append not_space capability (b':' ∷ preimage) no_space
        (all_of_normalized not_space credentials.preimage refl refl hex_not_space digits) in
    let no_colon =
      all_of_normalized not_colon credentials.preimage refl refl hex_not_colon digits in
    ap (λ w. l402_in (header_of w)) same
    ∙ l402_in_word c s (subst (λ w. all not_space w ≡ true) same spaceless)
    ∙ ap (λ w. credentials_of (cut_last_colon w)) (sym same)
    ∙ ap credentials_of (cut_last_colon-append capability preimage no_colon)
    ∙ credentials_of_cut capability preimage some_text
        (normalize_hex-is_hex credentials.preimage digits)
