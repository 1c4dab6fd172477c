-- ===== src/Tests/Redacting.antt =====
-- The redaction of logs on concrete values.
use fiber_paid_http.Prelude.{◌≡◌, ◌↔◌, refl, Text, text, ◌==◌, true, if◌then◌else◌, []}
use fiber_paid_http.Core.JsonValue.{Json, string, number, object, end, member}
use fiber_paid_http.Cli.Redaction.{
  LogRedactionPolicy, redacted_keys, is_hidden, redact_for_log, default_redacted_keys,
  sensitive_value_patterns,
}
use fiber_paid_http.Cli.Redaction.Hidden.{
  SameVisible, same_object, same_member, same_end, hidden_member, same_number,
  redact_for_log-SameVisible,
}
use fiber_paid_http.Cli.Redaction.Unchanged.{IsClean, redact_for_log-IsClean}

abbrev policy_2 : LogRedactionPolicy
policy_2 = record { enabled = true; extra_keys = [] }

-- A platform that finds one text by one of the patterns.
abbrev replace_1 : Text → Text → Text → Text
replace_1 pattern replacement s = if s == text "Bearer abc" then text "Bearer [REDACTED]" else s

abbrev logged : Text → Json
logged token =
    object (member (text "Token") (string token) (member (text "status") (number (text "402")) end))

logged-SameVisible :
    SameVisible (is_hidden (redacted_keys policy_2)) (logged (text "a")) (logged (text "b"))
unfolding is_hidden redacted_keys text ◌==◌ default_redacted_keys
logged-SameVisible = same_object _ _ (
    hidden_member (text "Token") (string (text "a")) (string (text "b")) _ _ refl (
      same_member (text "status") (number (text "402")) (number (text "402")) end end
        (same_number (text "402")) same_end))

redact_for_log-SameVisible_example :
    redact_for_log replace_1 policy_2 (logged (text "a"))
    ≡ redact_for_log replace_1 policy_2 (logged (text "b"))
redact_for_log-SameVisible_example =
    redact_for_log-SameVisible replace_1 policy_2 (logged (text "a")) (logged (text "b")) refl
      logged-SameVisible

bearer-redacted :
    redact_for_log replace_1 policy_2
      (object (member (text "header") (string (text "Bearer abc")) end))
    ≡ object (member (text "header") (string (text "Bearer [REDACTED]")) end)
unfolding redact_for_log text ◌==◌ default_redacted_keys sensitive_value_patterns
bearer-redacted = refl

redact_for_log-IsClean_example :
    (redact_for_log replace_1 policy_2 (logged (text "[REDACTED]")) ≡ logged (text "[REDACTED]"))
    ↔ IsClean replace_1 (redacted_keys policy_2) (logged (text "[REDACTED]"))
redact_for_log-IsClean_example =
    redact_for_log-IsClean replace_1 policy_2 (logged (text "[REDACTED]")) refl
