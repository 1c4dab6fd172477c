-- ===== src/Cli/Redaction/Unchanged.antt =====
-- packages/cli/src/ops.ts: which values a log shows as they are.
use fiber_paid_http.Prelude.{
  Text, text, ◌≡◌, ◌↔◌, refl, ap, subst, Bool, true, false, List, Bool-cases, inl, inr,
}
use fiber_paid_http.Core.JsonValue.{
  Json, null, boolean, number, string, array, object, Items, nil, item, Members, end, member,
}
use fiber_paid_http.Cli.Redaction.{
  LogRedactionPolicy, redacted_keys, is_hidden, redact_string, redact_value, redact_items,
  redact_members, redact_for_log,
}

module _ (replace : Text → Text → Text → Text) (keys : List Text) where
  -- Values whose strings the patterns leave alone and whose hidden members, at any depth, are redacted
  -- already.
  mutual
    pub data IsClean : Json → Type 0 where
      clean_null : IsClean null
      clean_boolean : (b : Bool) → IsClean (boolean b)
      clean_number : (n : Text) → IsClean (number n)
      clean_string : (s : Text) → redact_string replace s ≡ s → IsClean (string s)
      clean_array : (xs : Items) → IsCleanItems xs → IsClean (array xs)
      clean_object : (m : Members) → IsCleanMembers m → IsClean (object m)

    pub data IsCleanItems : Items → Type 0 where
      clean_nil : IsCleanItems nil
      clean_item : (v : Json) (xs : Items) → IsClean v → IsCleanItems xs → IsCleanItems (item v xs)

    pub data IsCleanMembers : Members → Type 0 where
      clean_end : IsCleanMembers end
      shown_member :
          (key : Text) (v : Json) (m : Members)
          → is_hidden keys key ≡ false
          → IsClean v
          → IsCleanMembers m
          → IsCleanMembers (member key v m)
      redacted_member :
          (key : Text) (m : Members)
          → is_hidden keys key ≡ true
          → IsCleanMembers m
          → IsCleanMembers (member key (string (text "[REDACTED]")) m)

  mutual
    unfolding redact_value redact_items redact_members

    redact_clean : (v : Json) → IsClean v → redact_value replace keys v ≡ v
    redact_clean _ clean_null = refl
    redact_clean _ (clean_boolean b) = refl
    redact_clean _ (clean_number n) = refl
    redact_clean _ (clean_string s h) = ap string h
    redact_clean _ (clean_array xs h) = ap array (redact_clean_items xs h)
    redact_clean _ (clean_object m h) = ap object (redact_clean_members m h)

    redact_clean_items : (xs : Items) → IsCleanItems xs → redact_items replace keys xs ≡ xs
    redact_clean_items _ clean_nil = refl
    redact_clean_items _ (clean_item v xs h hs) =
        let entry = redact_clean v h in let rest = redact_clean_items xs hs in rw (entry, rest) refl

    redact_clean_members : (m : Members) → IsCleanMembers m → redact_members replace keys m ≡ m
    redact_clean_members _ clean_end = refl
    redact_clean_members _ (shown_member key v m shown h hs) =
        let entry = redact_clean v h in
        let rest = redact_clean_members m hs in rw (shown, entry, rest) refl
    redact_clean_members _ (redacted_member key m is hs) =
        let rest = redact_clean_members m hs in rw (is, rest) refl

  mutual
    unfolding redact_value redact_items redact_members

    IsClean-redacted : (v : Json) → redact_value replace keys v ≡ v → IsClean v
    IsClean-redacted null e = clean_null
    IsClean-redacted (boolean b) e = clean_boolean b
    IsClean-redacted (number n) e = clean_number n
    IsClean-redacted (string s) e = clean_string s cc
    IsClean-redacted (array xs) e = clean_array xs (IsClean-redacted_items xs cc)
    IsClean-redacted (object m) e = clean_object m (IsClean-redacted_members m cc)

    IsClean-redacted_items : (xs : Items) → redact_items replace keys xs ≡ xs → IsCleanItems xs
    IsClean-redacted_items nil e = clean_nil
    IsClean-redacted_items (item v xs) e =
        clean_item v xs (IsClean-redacted v cc) (IsClean-redacted_items xs cc)

    IsClean-redacted_members : (m : Members) → redact_members replace keys m ≡ m → IsCleanMembers m
    IsClean-redacted_members end e = clean_end
    IsClean-redacted_members (member key v m) e = elim (Bool-cases (is_hidden keys key)) [
      | inl hidden ↦
          let same : member key (string (text "[REDACTED]")) (redact_members replace keys m)
              ≡ member key v m =
            rw hidden at e in
          let redacted : string (text "[REDACTED]") ≡ v = cc in
          let rest : redact_members replace keys m ≡ m = cc in
          subst (λ x. IsCleanMembers (member key x m)) redacted
            (redacted_member key m hidden (IsClean-redacted_members m rest))
      | inr shown ↦
          let same : member key (redact_value replace keys v) (redact_members replace keys m)
              ≡ member key v m =
            rw shown at e in
          let entry : redact_value replace keys v ≡ v = cc in
          let rest : redact_members replace keys m ≡ m = cc in
          shown_member key v m shown (IsClean-redacted v entry) (IsClean-redacted_members m rest)
    ]

-- Where the policy is enabled, a value is written to the log as it is exactly if the patterns leave its
-- strings alone and its hidden members, at any depth, are redacted already.
pub redact_for_log-IsClean :
    (replace : Text → Text → Text → Text) (policy : LogRedactionPolicy) (v : Json)
    → policy.enabled ≡ true
    → (redact_for_log replace policy v ≡ v) ↔ IsClean replace (redacted_keys policy) v
unfolding redact_for_log
redact_for_log-IsClean replace policy v on = (
  λ e. IsClean-redacted replace (redacted_keys policy) v (rw on at e),
  λ h. rw on (redact_clean replace (redacted_keys policy) v h),
)
