-- ===== src/Tests/Proving.antt =====
-- An F-L402 challenge, its capability and a proof, on the lawful platform with simple hashes.
use fiber_paid_http.Tests.Postfix.{write}
use fiber_paid_http.Tests.Unary.{to_letters}
use fiber_paid_http.Core.Http.AuthParams.{is_space}
use fiber_paid_http.Core.Crypto.{resource_hash}
use fiber_paid_http.Prelude.{
  goes_on, goes_past, ◌>>=◌, ap, ◌∙◌, not, ◌≡◌, refl, Text, text, ◌==◌, true, none, some, [], ◌∷◌,
  to_lower, is_empty, false, if◌then◌else◌, ok, err, plain_error,
}
use fiber_paid_http.Core.Types.{PaymentCredential, testnet, sha256}
use fiber_paid_http.Core.Runtime.{Runtime}
use fiber_paid_http.Core.Schemas.{
  parse_payment_credential, all, is_positive_decimal, is_payment_challenge, custom_names_valid,
  is_challenge_field, is_auth_param_name, is_hash,
}
use fiber_paid_http.Core.Tokens.Lawful.{IsLawful}
use fiber_paid_http.Core.Encoding.{encode_json_base64url}
use fiber_paid_http.Storage.{Database, empty, save_challenge, get_challenge}
use fiber_paid_http.Fl402.Types.{
  Hashes, normalize_hex, Fl402Caveats, Fl402CapabilityPayload, Fl402Challenge, Fl402Proof,
  parse_fl402_proof, is_hex_32, parse_fl402_challenge, parse_fl402_capability_payload,
  parse_fl402_capability_payload, is_fl402_caveats, parse_fl402_caveats, parse_fl402_challenge,
}
use fiber_paid_http.Fl402.Capability.{
  payload_json, is_valid_at, now_ms, issue_fl402_capability, verify_fl402_capability, caveats_json,
}
use fiber_paid_http.Fl402.Proof.{
  ChallengeInput, hash_payment_preimage, caveats_for, challenge_for, issue_fl402_challenge,
  verify_fl402_proof,
}
use fiber_paid_http.Fl402.Headers.{
  Fl402Credentials, build_authorization_l402_header, parse_authorization_l402_header,
}
use fiber_paid_http.Fl402.Issued.{
  decode-capability, HasHexDigests, capability_of, payload_for, verify-issue_capability,
}
use fiber_paid_http.Fl402.Soundness.{IsProven, verify_proof-IsProven}
use fiber_paid_http.Fl402.Completeness.{proof_for, verify_proof-issue}
use fiber_paid_http.Fl402.HeaderRoundTrip.{not_space, parse-build_l402}
use fiber_paid_http.Middleware.Fl402Authorization.{
  stored_challenge, caught, if_given, redeem_fl402_credentials, credential_from_fl402_authorization,
  paid_credential, IsRedeemed, fl402_credential-IsRedeemed,
}
use fiber_paid_http.Tests.{resource_1, hash_1, record_1}
use fiber_paid_http.Tests.Lawful.{lawful_platform, lawful_platform-IsLawful}

-- The hash of a preimage is the preimage.
abbrev hashes_1 : Hashes
hashes_1 = record { hmac_hex = λ key s. text "ab"; sha256_of_hex = λ s. s; blake2b_of_hex = λ s. s }

hashes_1-HasHexDigests : HasHexDigests hashes_1
unfolding text
hashes_1-HasHexDigests = record { some_digits = λ key s. refl; no_dot = λ key s. refl }

abbrev key_1 : Text
key_1 = text "0123456789abcdef0123456789abcdef"

abbrev nonce_1 : Text
nonce_1 = text "00112233445566778899aabbccddeeff"

abbrev issued_1 : Text
issued_1 = 1000 ∷ []

abbrev input_1 : ChallengeInput
input_1 = record {
  invoice = text "fibt1";
  payment_hash = hash_1;
  amount = text "100";
  currency = none;
  expires_at = 2000 ∷ [];
  resource = resource_1;
  challenge_id = text "c1";
  issuer = some (text "server");
  fiber_node_id = none;
  network = some testnet;
  hash_algorithm = some sha256;
}

-- The digest of a resource is long enough on this platform.
abbrev long_platform : Runtime
long_platform = record lawful_platform { sha256_hex = λ s. nonce_1 }

long_platform-IsLawful : IsLawful long_platform
long_platform-IsLawful = record {
  read_back = lawful_platform-IsLawful.read_back;
  parses = lawful_platform-IsLawful.parses;
  same = lawful_platform-IsLawful.same;
  canonical = lawful_platform-IsLawful.canonical;
  utf8 = lawful_platform-IsLawful.utf8;
  base64url = lawful_platform-IsLawful.base64url;
  base64url_text = lawful_platform-IsLawful.base64url_text;
  base64url_some = lawful_platform-IsLawful.base64url_some;
}

abbrev caveats_1 : Fl402Caveats
caveats_1 = caveats_for long_platform hashes_1 input_1

abbrev payload_2 : Fl402CapabilityPayload
payload_2 =
    payload_for long_platform hashes_1 long_platform-IsLawful hashes_1-HasHexDigests caveats_1
      nonce_1 issued_1

abbrev capability_1 : Text
capability_1 =
    capability_of long_platform hashes_1 long_platform-IsLawful hashes_1-HasHexDigests key_1
      payload_2

capability_1-issued :
    issue_fl402_capability long_platform hashes_1 key_1 caveats_1 nonce_1 issued_1 ≡ ok capability_1
unfolding issue_fl402_capability text parse_fl402_capability_payload ◌==◌ is_fl402_caveats
    resource_hash is_positive_decimal is_hex_32
capability_1-issued = refl

verify-issue_capability_example :
    verify_fl402_capability long_platform hashes_1 capability_1 key_1 none 1500 ≡ (
      if is_valid_at (now_ms long_platform hashes_1 none 1500) (some 1000) (some 2000)
      then ok payload_2
      else err (plain_error (text "expired-fl402-capability")))
verify-issue_capability_example =
    verify-issue_capability long_platform hashes_1 long_platform-IsLawful hashes_1-HasHexDigests
      key_1 caveats_1 nonce_1 issued_1 capability_1 capability_1-issued none 1500

abbrev challenge_4 : Fl402Challenge
challenge_4 = challenge_for long_platform hashes_1 input_1 caveats_1 capability_1

challenge_4-issued :
    issue_fl402_challenge long_platform hashes_1 key_1 input_1 nonce_1 issued_1 ≡ ok challenge_4
unfolding issue_fl402_challenge parse_fl402_caveats is_fl402_caveats text resource_hash
    is_positive_decimal is_hex_32 parse_fl402_capability_payload ◌==◌ parse_fl402_challenge
challenge_4-issued = refl

abbrev proof_2 : Fl402Proof
proof_2 =
    proof_for long_platform hashes_1 long_platform-IsLawful hashes_1-HasHexDigests challenge_4
      hash_1

proof_2-allowed : parse_fl402_proof proof_2 ≡ ok proof_2
unfolding parse_fl402_proof text is_hex_32
proof_2-allowed = refl

proof_2-fits :
    normalize_hex (hash_payment_preimage long_platform hashes_1 hash_1 challenge_4.hash_algorithm)
    ≡ normalize_hex challenge_4.payment_hash
unfolding text hash_payment_preimage to_lower
proof_2-fits = refl

verify_proof-issue_example :
    verify_fl402_proof long_platform hashes_1 challenge_4 proof_2 key_1 none 1500 ≡ ok payload_2
verify_proof-issue_example =
    verify_proof-issue long_platform hashes_1 long_platform-IsLawful hashes_1-HasHexDigests key_1
      input_1 nonce_1 issued_1 challenge_4 challenge_4-issued hash_1 proof_2-allowed proof_2-fits
      none 1500 refl

verify_proof-IsProven_example :
    IsProven long_platform hashes_1 challenge_4 proof_2 key_1 none 1500 payload_2
verify_proof-IsProven_example =
    verify_proof-IsProven long_platform hashes_1 challenge_4 proof_2 key_1 none 1500 payload_2
      verify_proof-issue_example

abbrev credentials_1 : Fl402Credentials
credentials_1 = record { capability = text "cap:1"; preimage = hash_1 }

hash_1-hex : is_hex_32 hash_1 ≡ true
unfolding is_hex_32 text
hash_1-hex = refl

abbrev credentials_2 : Fl402Credentials
credentials_2 = record { capability = capability_1; preimage = hash_1 }

credentials_2-spaceless : all not_space capability_1 ≡ true
unfolding text is_space encode_json_base64url to_letters write payload_json caveats_json
    resource_hash
credentials_2-spaceless = refl

nonempty_2 : is_empty capability_1 ≡ false
unfolding text
nonempty_2 = refl

abbrev header_2 : Text
header_2 = build_authorization_l402_header credentials_2

hash_1-normal : normalize_hex hash_1 ≡ hash_1
unfolding text normalize_hex to_lower
hash_1-normal = refl

header_2-parsed : parse_authorization_l402_header (some header_2) ≡ ok (some credentials_2)
header_2-parsed =
    parse-build_l402 credentials_2 nonempty_2 credentials_2-spaceless hash_1-hex
    ∙ ap (λ h. ok (some (record credentials_2 { preimage = h }))) hash_1-normal

abbrev db_1 : Database
db_1 = save_challenge record_1 empty

abbrev credential_4 : PaymentCredential
credential_4 = paid_credential long_platform hashes_1 key_1 record_1 caveats_1

payload_2-valid : parse_fl402_capability_payload long_platform payload_2 ≡ ok payload_2
unfolding parse_fl402_capability_payload ◌==◌ text is_fl402_caveats resource_hash
    is_positive_decimal is_hex_32
payload_2-valid = refl

record_1-stored : stored_challenge (get_challenge caveats_1.challenge_id db_1) ≡ ok record_1
unfolding get_challenge save_challenge empty ◌==◌ text
record_1-stored = refl

challenge_4-valid : parse_fl402_challenge long_platform challenge_4 ≡ ok challenge_4
unfolding parse_fl402_challenge text is_hex_32 is_positive_decimal resource_hash
challenge_4-valid = refl

credential_4-allowed : parse_payment_credential long_platform credential_4 ≡ ok credential_4
unfolding parse_payment_credential is_payment_challenge text ◌==◌ custom_names_valid
    is_challenge_field is_auth_param_name is_hash
credential_4-allowed = refl

id_given : not (is_empty caveats_1.challenge_id) ≡ true
unfolding text
id_given = refl

credentials_2-redeemed :
    redeem_fl402_credentials long_platform hashes_1 key_1 credentials_2 db_1 1500 ≡ ok credential_4
unfolding redeem_fl402_credentials
credentials_2-redeemed =
    goes_on _
      (decode-capability long_platform hashes_1 long_platform-IsLawful hashes_1-HasHexDigests key_1
        payload_2 payload_2-valid)
      (goes_past _ _ id_given (
        goes_on _ record_1-stored (
          goes_on _ challenge_4-valid (
            goes_on _ proof_2-allowed
              (goes_on _ verify_proof-issue_example credential_4-allowed)))))

credential_4-redeemed :
    credential_from_fl402_authorization long_platform hashes_1 key_1 (some header_2) db_1 1500
    ≡ ok (some credential_4)
unfolding credential_from_fl402_authorization
credential_4-redeemed =
    ap (λ r. caught (r >>= if_given long_platform hashes_1 key_1 db_1 1500)) header_2-parsed
    ∙ ap (λ r. caught (r >>= λ c. ok (some c))) credentials_2-redeemed

fl402_credential-IsRedeemed_example :
    IsRedeemed long_platform hashes_1 key_1 (some header_2) db_1 1500 credential_4
fl402_credential-IsRedeemed_example =
    fl402_credential-IsRedeemed long_platform hashes_1 key_1 (some header_2) db_1 1500 credential_4
      credential_4-redeemed
