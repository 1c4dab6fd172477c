-- ===== src/Core/Crypto.antt =====
-- packages/core/src/crypto.ts: the challenge id binds the challenge to the gateway's secret.
use fiber_paid_http.Prelude.{
  ℕ, Text, ◌==◌, Bool, true, false, not, Option, none, some, List, [], ◌∷◌, ◌++◌, length, eqb,
  if◌then◌else◌, Result, ok, ◌>>=◌,
}
use fiber_paid_http.Core.Types.{PaymentChallenge, PaymentCredential, ResourceDescriptor}
use fiber_paid_http.Core.Json.{resource_json, credential_json}
use fiber_paid_http.Core.Runtime.{Runtime}
use fiber_paid_http.Core.Schemas.{parse_payment_challenge}

-- `value ?? ""`
abbrev pub or_empty : Option Text → Text
or_empty none = []
or_empty (some s) = s

-- `parts.join(separator)` for a separator of one character
pub join : ℕ → List Text → Text
join sep [] = []
join sep (s ∷ []) = s
join sep (s ∷ t ∷ rest) = s ++ sep ∷ join sep (t ∷ rest)

unfoldable pub challenge_binding_input : PaymentChallenge → Text
challenge_binding_input c = join b'|' (
    c.realm
    ∷ c.method
    ∷ c.intent
    ∷ c.request
    ∷ or_empty c.expires
    ∷ or_empty c.digest
    ∷ or_empty c.opaque
    ∷ [])

module _ (rt : Runtime) where
  unfoldable pub timing_safe_equal_string : Text → Text → Bool
  timing_safe_equal_string a b =
      let left = rt.utf8_encode a in
      let right = rt.utf8_encode b in
      if not (eqb (length left) (length right)) then false else left == right

  unfoldable pub bind_challenge_id : PaymentChallenge → Text → Text
  bind_challenge_id c secret = rt.hmac_base64url secret (challenge_binding_input c)

  unfoldable pub verify_challenge_id : PaymentChallenge → Text → Result Bool
  verify_challenge_id c secret = do
    parsed ← parse_payment_challenge rt c
    ok (timing_safe_equal_string parsed.id (bind_challenge_id parsed secret))

  -- `secrets.some(…)`: stops at the first secret that fits
  unfoldable pub verify_challenge_id_with_any_secret : PaymentChallenge → List Text → Result Bool
  verify_challenge_id_with_any_secret c [] = ok false
  verify_challenge_id_with_any_secret c (secret ∷ secrets) =
      let rest = verify_challenge_id_with_any_secret c secrets in
      verify_challenge_id c secret >>= λ fits. if fits then ok true else rest

  unfoldable pub resource_hash : ResourceDescriptor → Text
  resource_hash r = rt.sha256_hex (rt.canonical_json (resource_json r))

  unfoldable pub credential_hash : PaymentCredential → Text
  credential_hash c = rt.sha256_hex (rt.canonical_json (credential_json c))
