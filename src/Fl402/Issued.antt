-- ===== src/Fl402/Issued.antt =====
-- packages/fl402-compat/src/index.ts: an issued capability is verified under its root key until it
-- expires.
use fiber_paid_http.Prelude.{
  ℕ, ◌≡◌, refl, ap, ◌∙◌, arith, Text, text, ==_refl, Bool, true, false, not, Option, some, [], ◌∷◌,
  ◌++◌, eqb, is_empty, Result, ok, err, Failure, plain_error, returned, goes_on, goes_past, ensure,
  ◌>>◌, if◌then◌else◌,
}
use fiber_paid_http.Core.Runtime.{Runtime}
use fiber_paid_http.Core.Schemas.{all}
use fiber_paid_http.Core.Encoding.{is_base64url_char, encode_json_base64url}
use fiber_paid_http.Core.Crypto.{timing_safe_equal_string}
use fiber_paid_http.Core.Tokens.Lawful.{IsLawful}
use fiber_paid_http.Core.Tokens.ReadBack.{decode-encode_base64url}
use fiber_paid_http.Fl402.Types.{
  Hashes, fl402_capability_prefix, Fl402Caveats, Fl402CapabilityPayload,
  parse_fl402_capability_payload,
}
use fiber_paid_http.Fl402.Capability.{
  payload_json, split_dots, parts_of, known_parts, is_valid_at, assert_fl402_root_key, sign,
  issue_fl402_capability, decode_fl402_capability, now_ms, verify_fl402_capability,
}
use fiber_paid_http.Fl402.Caveats.{payload_of_json_same}

abbrev not_dot : ℕ → Bool
not_dot c = not (eqb c b'.')

split_dots_word : (s : Text) → all not_dot s ≡ true → split_dots s ≡ s ∷ []
unfolding split_dots
split_dots_word [] h = refl
split_dots_word (c ∷ s) h =
    let c_other : eqb c b'.' ≡ false = ground arith in
    let rest : all not_dot s ≡ true = ground arith in rw (split_dots_word s rest, c_other) refl

split_dots-append :
    (s t : Text) → all not_dot s ≡ true → split_dots (s ++ b'.' ∷ t) ≡ s ∷ split_dots t
unfolding split_dots
split_dots-append [] t h = refl
split_dots-append (c ∷ s) t h =
    let c_other : eqb c b'.' ≡ false = ground arith in
    let rest : all not_dot s ≡ true = ground arith in rw (split_dots-append s t rest, c_other) refl

base64url_has_no_dot : (s : Text) → all is_base64url_char s ≡ true → all not_dot s ≡ true
base64url_has_no_dot [] h = refl
base64url_has_no_dot (c ∷ s) h = ground (arith, base64url_has_no_dot s)

parts_of_capability :
    (encoded signature : Text)
    → is_empty encoded ≡ false
    → is_empty signature ≡ false
    → parts_of (fl402_capability_prefix ∷ encoded ∷ signature ∷ []) ≡ some (encoded, signature)
unfolding parts_of
parts_of_capability [] signature h k = absurd cc
parts_of_capability (e ∷ encoded) [] h k = absurd cc
parts_of_capability (e ∷ encoded) (d ∷ signature) h k = rw (==_refl fl402_capability_prefix) refl

prefix_has_no_dot : all not_dot fl402_capability_prefix ≡ true
unfolding text
prefix_has_no_dot = refl

-- What is needed of the hash: a digest in hex is not empty and has no dot.
pub record HasHexDigests (hashes : Hashes) : Type 0 where
  pub some_digits : (key input : Text) → is_empty (hashes.hmac_hex key input) ≡ false
  pub no_dot : (key input : Text) → all not_dot (hashes.hmac_hex key input) ≡ true

ensure_or :
    {A : Type 0} (test : Bool) (failure : Failure) (next : Result A)
    → (ensure test failure >> next) ≡ (if test then next else err failure)
ensure_or true failure next = refl
ensure_or false failure next = refl

module _ (rt : Runtime) (hashes : Hashes) (lawful : IsLawful rt)
    (digests : HasHexDigests hashes) where
  abbrev pub capability_of : Text → Fl402CapabilityPayload → Text
  capability_of key payload =
      fl402_capability_prefix
      ++ (b'.'
          ∷ (encode_json_base64url rt (payload_json payload)
              ++ (b'.' ∷ sign rt hashes key payload)))

  parts_of-capability :
      (key : Text) (payload : Fl402CapabilityPayload)
      → parts_of (split_dots (capability_of key payload))
        ≡ some (encode_json_base64url rt (payload_json payload), sign rt hashes key payload)
  unfolding encode_json_base64url
  parts_of-capability key payload =
      let encoded = encode_json_base64url rt (payload_json payload) in
      let digest = sign rt hashes key payload in
      let outer =
        split_dots-append fl402_capability_prefix (encoded ++ (b'.' ∷ digest)) prefix_has_no_dot in
      let inner =
        split_dots-append encoded digest (base64url_has_no_dot encoded (lawful.base64url_text _)) in
      let last = split_dots_word digest (digests.no_dot key _) in
      ap parts_of
        (outer ∙ ap (λ ps. fl402_capability_prefix ∷ ps) (inner ∙ ap (λ ps. encoded ∷ ps) last))
      ∙ parts_of_capability encoded digest (lawful.base64url_some (payload_json payload))
          (digests.some_digits key _)

  pub decode-capability :
      (key : Text) (payload : Fl402CapabilityPayload)
      → parse_fl402_capability_payload rt payload ≡ ok payload
      → decode_fl402_capability rt hashes (capability_of key payload)
        ≡ ok (payload, sign rt hashes key payload)
  unfolding decode_fl402_capability
  decode-capability key payload valid =
      let j = payload_json payload in
      let read =
        payload_of_json_same rt hashes payload (lawful.read_back j) (lawful.same j) ∙ valid in
      goes_on _ (ap known_parts (parts_of-capability key payload)) (
        goes_on _ (decode-encode_base64url rt lawful j) (
          rw (lawful.utf8 j, lawful.parses j)
            (goes_on _ read (goes_past _ _ (==_refl (encode_json_base64url rt j)) refl))))

  timing_safe_equal-same : (s : Text) → timing_safe_equal_string rt s s ≡ true
  unfolding timing_safe_equal_string
  timing_safe_equal-same s = ground (arith, ==_refl (rt.utf8_encode s))

  abbrev pub payload_for : Fl402Caveats → Text → Text → Fl402CapabilityPayload
  payload_for caveats nonce issued_at = record {
    domain = fl402_capability_prefix;
    caveats = caveats;
    nonce = nonce;
    issued_at = issued_at;
  }

  parse_payload_lem :
      (p parsed : Fl402CapabilityPayload)
      → parse_fl402_capability_payload rt p ≡ ok parsed
      → (parsed ≡ p) × (parse_fl402_capability_payload rt p ≡ ok p)
  unfolding parse_fl402_capability_payload
  parse_payload_lem p parsed h = ground arith

  issue_lem :
      (key : Text) (caveats : Fl402Caveats) (nonce issued_at capability : Text)
      → issue_fl402_capability rt hashes key caveats nonce issued_at ≡ ok capability
      → (assert_fl402_root_key rt hashes key ≡ ok tt)
        × (parse_fl402_capability_payload rt (payload_for caveats nonce issued_at)
            ≡ ok (payload_for caveats nonce issued_at))
        × (capability ≡ capability_of key (payload_for caveats nonce issued_at))
  unfolding issue_fl402_capability
  issue_lem key caveats nonce issued_at capability h =
      let (u, long, h1) = returned _ (assert_fl402_root_key rt hashes key) h in
      let (payload, h2, h3) =
        returned _ (parse_fl402_capability_payload rt (payload_for caveats nonce issued_at)) h1 in
      let (same, valid) = parse_payload_lem (payload_for caveats nonce issued_at) payload h2 in
      let made : capability ≡ capability_of key payload = cc in
      (long, valid, made ∙ ap (capability_of key) same)

  -- On a lawful platform, an issued capability is verified under its root key, and gives back the caveats, the nonce and
  -- the time it was issued with, exactly from that time until the caveats expire.
  pub verify-issue_capability :
      (key : Text) (caveats : Fl402Caveats) (nonce issued_at capability : Text)
      → issue_fl402_capability rt hashes key caveats nonce issued_at ≡ ok capability
      → (now : Option Text) (clock : ℕ)
      → verify_fl402_capability rt hashes capability key now clock ≡ (
          if is_valid_at
            (now_ms rt hashes now clock)
            (rt.get_time issued_at)
            (rt.get_time caveats.expires_at)
          then ok (payload_for caveats nonce issued_at)
          else err (plain_error (text "expired-fl402-capability")))
  unfolding verify_fl402_capability
  verify-issue_capability key caveats nonce issued_at capability h now clock =
      let payload = payload_for caveats nonce issued_at in
      let (long, valid, made) = issue_lem key caveats nonce issued_at capability h in
      let decoded =
        ap (decode_fl402_capability rt hashes) made ∙ decode-capability key payload valid in
      let in_time =
        is_valid_at (now_ms rt hashes now clock) (rt.get_time issued_at)
          (rt.get_time caveats.expires_at) in
      goes_on _ long (
        goes_on _ decoded (
          goes_past _ _ (timing_safe_equal-same (sign rt hashes key payload))
            (ensure_or in_time (plain_error (text "expired-fl402-capability")) (ok payload))))
