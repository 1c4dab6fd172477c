-- ===== src/Cli/Redaction/Hidden.antt =====
-- packages/cli/src/ops.ts: what a log says of the hidden members.
use fiber_paid_http.Prelude.{Text, text, ◌≡◌, refl, ap, Bool, true, List}
use fiber_paid_http.Core.JsonValue.{
  Json, null, boolean, number, string, array, object, Items, nil, item, Members, end, member,
}
use fiber_paid_http.Cli.Redaction.{
  LogRedactionPolicy, redacted_keys, is_hidden, redact_value, redact_items, redact_members,
  redact_for_log,
}

module _ (hidden : Text → Bool) where
  -- Values that differ in hidden members at most.
  mutual
    pub data SameVisible : Json → Json → Type 0 where
      same_null : SameVisible null null
      same_boolean : (b : Bool) → SameVisible (boolean b) (boolean b)
      same_number : (n : Text) → SameVisible (number n) (number n)
      same_string : (s : Text) → SameVisible (string s) (string s)
      same_array : (xs ys : Items) → SameVisibleItems xs ys → SameVisible (array xs) (array ys)
      same_object : (m n : Members) → SameVisibleMembers m n → SameVisible (object m) (object n)

    pub data SameVisibleItems : Items → Items → Type 0 where
      same_nil : SameVisibleItems nil nil
      same_item :
          (v w : Json) (xs ys : Items)
          → SameVisible v w
          → SameVisibleItems xs ys
          → SameVisibleItems (item v xs) (item w ys)

    pub data SameVisibleMembers : Members → Members → Type 0 where
      same_end : SameVisibleMembers end end
      same_member :
          (key : Text) (v w : Json) (m n : Members)
          → SameVisible v w
          → SameVisibleMembers m n
          → SameVisibleMembers (member key v m) (member key w n)
      hidden_member :
          (key : Text) (v w : Json) (m n : Members)
          → hidden key ≡ true
          → SameVisibleMembers m n
          → SameVisibleMembers (member key v m) (member key w n)

module _ (replace : Text → Text → Text → Text) where
  mutual
    unfolding redact_value redact_items redact_members

    redact_same :
        (keys : List Text) (v w : Json)
        → SameVisible (is_hidden keys) v w
        → redact_value replace keys v ≡ redact_value replace keys w
    redact_same keys null _ same_null = refl
    redact_same keys (boolean b) _ (same_boolean _) = refl
    redact_same keys (number n) _ (same_number _) = refl
    redact_same keys (string s) _ (same_string _) = refl
    redact_same keys (array xs) _ (same_array _ ys h) = ap array (redact_same_items keys xs ys h)
    redact_same keys (object m) _ (same_object _ n h) = ap object (redact_same_members keys m n h)

    redact_same_items :
        (keys : List Text) (xs ys : Items)
        → SameVisibleItems (is_hidden keys) xs ys
        → redact_items replace keys xs ≡ redact_items replace keys ys
    redact_same_items keys nil _ same_nil = refl
    redact_same_items keys (item v xs) _ (same_item _ w _ ys h hs) =
        let entry = redact_same keys v w h in
        let rest = redact_same_items keys xs ys hs in rw (entry, rest) refl

    redact_same_members :
        (keys : List Text) (m n : Members)
        → SameVisibleMembers (is_hidden keys) m n
        → redact_members replace keys m ≡ redact_members replace keys n
    redact_same_members keys end _ same_end = refl
    redact_same_members keys (member key v m) _ (same_member _ _ w _ n h hs) =
        let entry = redact_same keys v w h in
        let rest = redact_same_members keys m n hs in rw (entry, rest) refl
    redact_same_members keys (member key v m) _ (hidden_member _ _ w _ n h hs) =
        let rest = redact_same_members keys m n hs in
        rw h (ap (member key (string (text "[REDACTED]"))) rest)

  -- Where the policy is enabled, values that differ at most in members whose keys in lower case are
  -- redacted are written to the log alike, at any depth.
  pub redact_for_log-SameVisible :
      (policy : LogRedactionPolicy) (v w : Json)
      → policy.enabled ≡ true
      → SameVisible (is_hidden (redacted_keys policy)) v w
      → redact_for_log replace policy v ≡ redact_for_log replace policy w
  unfolding redact_for_log
  redact_for_log-SameVisible policy v w on h = rw on (redact_same (redacted_keys policy) v w h)
