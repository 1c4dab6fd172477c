-- ===== src/Core/Http/Authorization.antt =====
-- packages/core/src/http.ts: the `Authorization: Payment` header.
use fiber_paid_http.Prelude.{
  ℕ, Text, text, ◌==◌, Bool, not, Option, none, some, ◌++◌, is_empty, if◌then◌else◌, lower, truthy,
  ◌||◌, Result, ok, ◌>>=◌,
}
use mathlib.Core.List.{reverse}
use fiber_paid_http.Core.Types.{PaymentCredential}
use fiber_paid_http.Core.Runtime.{Runtime}
use fiber_paid_http.Core.Encoding.{encode_credential, decode_credential}
use fiber_paid_http.Core.Http.AuthParams.{is_space, take_while, drop_while}

unfoldable pub trim : Text → Text
unfolding drop_while is_space
trim s = reverse (drop_while is_space (reverse (drop_while is_space s)))

abbrev not_space : ℕ → Bool
not_space c = not (is_space c)

-- `split(/\s+/, 2)` of a trimmed text: the first word, and the second, if there is one
unfoldable pub first_word : Text → Text
unfolding take_while is_space
first_word s = take_while not_space s

unfoldable pub second_word : Text → Text
unfolding take_while drop_while is_space
second_word s = take_while not_space (drop_while is_space (drop_while not_space s))

module _ (rt : Runtime) where
  unfoldable pub build_authorization_payment_header : PaymentCredential → Result Text
  build_authorization_payment_header credential = do
    token ← encode_credential rt credential
    ok (text "Payment " ++ token)

  unfoldable pub credential_in : Text → Result (Option PaymentCredential)
  unfolding trim first_word second_word
  credential_in header =
      let trimmed = trim header in
      let token = second_word trimmed in
      if not (lower (first_word trimmed) == text "payment") || is_empty token
      then ok none
      else (decode_credential rt token >>= λ credential. ok (some credential))

  unfoldable pub parse_authorization_payment_header :
      Option Text → Result (Option PaymentCredential)
  unfolding credential_in
  parse_authorization_payment_header header = elim (truthy header) [
    | none ↦ ok none
    | some h ↦ credential_in h
  ]
