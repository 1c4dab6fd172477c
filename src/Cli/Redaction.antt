-- ===== src/Cli/Redaction.antt =====
-- packages/cli/src/ops.ts: what is hidden of a value that is written to a log. No member is named
-- `__proto__`.
pub mod Hidden
pub mod Unchanged
use fiber_paid_http.Prelude.{
  Text, text, Bool, true, false, List, [], ◌∷◌, ◌++◌, map, lower, to_lower, if◌then◌else◌,
}
use fiber_paid_http.Core.JsonValue.{
  Json, null, boolean, number, string, array, object, Items, nil, item, Members, end, member,
}
use fiber_paid_http.Cli.Gateway.{includes}

unfoldable pub default_redacted_keys : List Text
default_redacted_keys =
    text "authorization"
    ∷ text "cookie"
    ∷ text "secret"
    ∷ text "secret_env"
    ∷ text "previous_secret"
    ∷ text "root_key"
    ∷ text "capability"
    ∷ text "preimage"
    ∷ text "credential"
    ∷ text "invoice"
    ∷ text "rpc_auth"
    ∷ text "payee_rpc_auth"
    ∷ text "payer_rpc_auth"
    ∷ text "token"
    ∷ text "password"
    ∷ text "private_key"
    ∷ []

-- The source of a regular expression, whose flags are `gi`, and its replacement.
unfoldable pub sensitive_value_patterns : List (Text × Text)
sensitive_value_patterns =
    (text "\\bBearer\\s+[A-Za-z0-9._~+/=-]+", text "Bearer [REDACTED]")
    ∷ (text "\\bBasic\\s+[A-Za-z0-9+/=-]+", text "Basic [REDACTED]")
    ∷ (text "\\bPayment\\s+[A-Za-z0-9_-]+", text "Payment [REDACTED]")
    ∷ (text "\\bL402\\s+[^\\s,]+", text "L402 [REDACTED]")
    ∷ (text "(authorization=)[^&\\s]+", text "$1[REDACTED]")
    ∷ (text "(rpc_auth=)[^&\\s]+", text "$1[REDACTED]")
    ∷ (text "(secret=)[^&\\s]+", text "$1[REDACTED]")
    ∷ (text "(token=)[^&\\s]+", text "$1[REDACTED]")
    ∷ (text "(capability=)[^&\\s,]+", text "$1[REDACTED]")
    ∷ (text "(preimage=)[^&\\s,]+", text "$1[REDACTED]")
    ∷ (text "(invoice=)[^&\\s,]+", text "$1[REDACTED]")
    ∷ []

pub record LogRedactionPolicy : Type 0 where
  pub enabled : Bool
  pub extra_keys : List Text

unfoldable pub redacted_keys : LogRedactionPolicy → List Text
redacted_keys policy = map lower (default_redacted_keys ++ policy.extra_keys)

unfoldable pub is_hidden : List Text → Text → Bool
unfolding includes to_lower
is_hidden keys key = includes (lower key) keys

-- `replace` takes a pattern, its replacement and the text: the platform's `String.replace`.
module _ (replace : Text → Text → Text → Text) where
  unfoldable pub replace_all : List (Text × Text) → Text → Text
  replace_all [] redacted = redacted
  replace_all ((pattern, replacement) ∷ rest) redacted =
      replace_all rest (replace pattern replacement redacted)

  unfoldable pub redact_string : Text → Text
  unfolding replace_all
  redact_string value = replace_all sensitive_value_patterns value

  unfoldable mutual
    unfolding redact_string is_hidden

    pub redact_value : List Text → Json → Json
    redact_value keys null = null
    redact_value keys (boolean b) = boolean b
    redact_value keys (number n) = number n
    redact_value keys (string value) = string (redact_string value)
    redact_value keys (array entries) = array (redact_items keys entries)
    redact_value keys (object entries) = object (redact_members keys entries)

    pub redact_items : List Text → Items → Items
    redact_items keys nil = nil
    redact_items keys (item entry rest) = item (redact_value keys entry) (redact_items keys rest)

    pub redact_members : List Text → Members → Members
    redact_members keys end = end
    redact_members keys (member key entry rest) =
        let shown = redact_value keys entry in
        member key (if is_hidden keys key then string (text "[REDACTED]") else shown)
          (redact_members keys rest)

  unfoldable pub redact_for_log : LogRedactionPolicy → Json → Json
  unfolding redact_value redacted_keys
  redact_for_log policy value =
      if policy.enabled then redact_value (redacted_keys policy) value else value
