-- ===== src/Fl402/Headers.antt =====
-- packages/fl402-compat/src/index.ts: the headers of the L402 scheme.
use fiber_paid_http.Prelude.{
  Text, text, ◌==◌, ◌||◌, not, Option, none, some, [], ◌∷◌, ◌++◌, eqb, lower, is_empty, truthy,
  if◌then◌else◌, Result, ok, err, plain_error, ◌>>=◌,
}
use fiber_paid_http.Core.Runtime.{Runtime}
use fiber_paid_http.Core.Http.Authorization.{trim, first_word, second_word}
use fiber_paid_http.Fl402.Types.{
  fl402_auth_scheme, normalize_hex, is_hex_32, Fl402Challenge, parse_fl402_challenge,
}

-- `Pick<FL402Proof, "capability" | "preimage">`
pub record Fl402Credentials : Type 0 where
  pub capability : Text
  pub preimage : Text

abbrev param : Text → Text → Text
param name value = name ++ (text "=\"" ++ (value ++ text "\""))

unfoldable pub build_www_authenticate_l402_header : Runtime → Fl402Challenge → Result Text
build_www_authenticate_l402_header rt challenge = do
  fl402 ← parse_fl402_challenge rt challenge
  ok (
      fl402_auth_scheme
      ++ (text " "
          ++ (param (text "capability") fl402.capability
              ++ (text ", "
                  ++ (param (text "invoice") fl402.invoice
                      ++ (text ", "
                          ++ (param (text "payment_hash") fl402.payment_hash
                              ++ (text ", "
                                  ++ (param (text "amount") fl402.amount
                                      ++ (text ", "
                                          ++ param (text "currency") fl402.currency))))))))))

unfoldable pub build_authorization_l402_header : Fl402Credentials → Text
unfolding normalize_hex
build_authorization_l402_header proof =
    fl402_auth_scheme ++ (b' ' ∷ (proof.capability ++ (b':' ∷ normalize_hex proof.preimage)))

-- `lastIndexOf(":")`, with what stands before it and behind it; none where there is no colon
unfoldable pub cut_last_colon : Text → Option (Text × Text)
cut_last_colon [] = none
cut_last_colon (c ∷ s) =
    let rest = cut_last_colon s in
    elim rest [
      | none ↦ (if eqb c b':' then some ([], s) else none)
      | some (before, after) ↦ some (c ∷ before, after)
    ]

abbrev pub credentials_of : Option (Text × Text) → Result (Option Fl402Credentials)
credentials_of none = err (plain_error (text "invalid-fl402-authorization"))
credentials_of (some ([], after)) = err (plain_error (text "invalid-fl402-authorization"))
credentials_of (some (c ∷ before, after)) =
    if is_hex_32 after
    then ok (some (record { capability = c ∷ before; preimage = after }))
    else err (plain_error (text "ZodError"))

unfoldable pub l402_in : Text → Result (Option Fl402Credentials)
unfolding trim first_word second_word cut_last_colon is_hex_32
l402_in header =
    let trimmed = trim header in
    let credentials = second_word trimmed in
    if not (lower (first_word trimmed) == lower fl402_auth_scheme) || is_empty credentials
    then ok none
    else credentials_of (cut_last_colon credentials)

unfoldable pub parse_authorization_l402_header : Option Text → Result (Option Fl402Credentials)
unfolding l402_in
parse_authorization_l402_header header = elim (truthy header) [
  | none ↦ ok none
  | some h ↦ l402_in h
]
