-- ===== src/Middleware/Fl402Authorization.antt =====
-- packages/server-middleware/src/index.ts: `credentialFromFl402Authorization`, for a gateway with a
-- root key.
use fiber_paid_http.Prelude.{
  ℕ, ◌≡◌, sym, ap, ◌∙◌, subst, arith, Text, text, Bool, ◌&&◌, ◌||◌, not, Option, none, some, eqb,
  is_empty, if◌then◌else◌, Failure, http_error, plain_error, Result, ok, err, returned, passed,
  fail_with, ensure, ◌>>=◌, ◌>>◌,
}
use fiber_paid_http.Core.JsonValue.{end}
use fiber_paid_http.Core.Types.{PaymentCredential}
use fiber_paid_http.Core.Runtime.{Runtime}
use fiber_paid_http.Core.Schemas.{all, is_digit, is_lower_alpha, parse_payment_credential}
use fiber_paid_http.Storage.{ChallengeRecord, Database, get_challenge}
use fiber_paid_http.Fl402.Types.{
  Hashes, normalize_hex, Fl402Caveats, Fl402CapabilityPayload, Fl402Challenge, Fl402Proof,
  parse_fl402_challenge, parse_fl402_proof,
}
use fiber_paid_http.Fl402.Capability.{decode_fl402_capability}
use fiber_paid_http.Fl402.Proof.{hash_payment_preimage, verify_fl402_proof}
use fiber_paid_http.Fl402.Headers.{Fl402Credentials, parse_authorization_l402_header}
use fiber_paid_http.Fl402.Soundness.{described, IsSigned, verify_proof-IsProven}

abbrev error_message : Failure → Text
error_message (http_error e) = e.message
error_message (plain_error message) = message

-- /^[a-z0-9-]+$/
unfoldable is_error_code : Text → Bool
is_error_code s = not (is_empty s) && all (λ c. is_lower_alpha c || is_digit c || eqb c b'-') s

unfoldable pub fl402_payment_error : Failure → Failure
unfolding is_error_code
fl402_payment_error error =
    let message = error_message error in
    fail_with (if is_error_code message then message else text "invalid-fl402-proof")
      (text "F-L402 proof is invalid") 402

-- `catch (error) { throw fl402PaymentError(error); }`
abbrev pub caught : {A : Type 0} → Result A → Result A
caught (ok value) = ok value
caught (err e) = err (fl402_payment_error e)

abbrev pub stored_challenge : Option ChallengeRecord → Result ChallengeRecord
stored_challenge none = err (plain_error (text "invalid-challenge"))
stored_challenge (some found) = ok found

module _ (rt : Runtime) (hashes : Hashes) (root_key : Text) where
  abbrev pub proof_of : Fl402Credentials → Fl402Caveats → Fl402Proof
  proof_of parsed caveats = record {
    capability = parsed.capability;
    preimage = parsed.preimage;
    payment_hash = caveats.payment_hash;
    hash_algorithm = caveats.hash_algorithm;
  }

  abbrev pub paid_credential : ChallengeRecord → Fl402Caveats → PaymentCredential
  paid_credential found caveats = record {
    challenge = found.challenge;
    source = none;
    payload = record { payment_hash = caveats.payment_hash; extra = end };
    extra = end;
  }

  -- What is done with the credentials of the header.
  unfoldable pub redeem_fl402_credentials :
      Fl402Credentials → Database → ℕ → Result PaymentCredential
  unfolding decode_fl402_capability verify_fl402_proof
  redeem_fl402_credentials parsed db now = do
    (payload, signature) ← decode_fl402_capability rt hashes parsed.capability
    let caveats = payload.caveats
    ensure (not (is_empty caveats.challenge_id)) (plain_error (text "invalid-fl402-capability"))
    found ← stored_challenge (get_challenge caveats.challenge_id db)
    challenge ←
        parse_fl402_challenge rt
          (described rt hashes caveats parsed.capability caveats.payment_hash)
    proof ← parse_fl402_proof (proof_of parsed caveats)
    verified ← verify_fl402_proof rt hashes challenge proof root_key none now
    parse_payment_credential rt (paid_credential found caveats)

  abbrev pub if_given : Database → ℕ → Option Fl402Credentials → Result (Option PaymentCredential)
  if_given db now none = ok none
  if_given db now (some parsed) =
      redeem_fl402_credentials parsed db now >>= λ credential. ok (some credential)

  unfoldable pub credential_from_fl402_authorization :
      Option Text → Database → ℕ → Result (Option PaymentCredential)
  unfolding parse_authorization_l402_header redeem_fl402_credentials fl402_payment_error
  credential_from_fl402_authorization header db now =
      caught (parse_authorization_l402_header header >>= if_given db now)

  -- What is known of a credential that came of an L402 header.
  pub record IsRedeemed (header : Option Text) (db : Database) (now : ℕ)
      (credential : PaymentCredential) : Type 0 where
    pub given : Fl402Credentials
    pub in_header : parse_authorization_l402_header header ≡ ok (some given)
    pub payload : Fl402CapabilityPayload
    pub signed : IsSigned rt hashes given.capability root_key none now payload
    pub found : ChallengeRecord
    pub stored : get_challenge payload.caveats.challenge_id db ≡ some found
    pub paid :
        normalize_hex
          (hash_payment_preimage rt hashes given.preimage payload.caveats.hash_algorithm)
        ≡ normalize_hex payload.caveats.payment_hash
    pub made : credential ≡ paid_credential found payload.caveats
    pub allowed : parse_payment_credential rt credential ≡ ok credential

  parse_challenge_lem :
      (c parsed : Fl402Challenge) → parse_fl402_challenge rt c ≡ ok parsed → parsed ≡ c
  unfolding parse_fl402_challenge
  parse_challenge_lem c parsed h = ground arith

  parse_proof_lem : (p parsed : Fl402Proof) → parse_fl402_proof p ≡ ok parsed → parsed ≡ p
  unfolding parse_fl402_proof
  parse_proof_lem p parsed h = ground arith

  parse_credential_lem :
      (c parsed : PaymentCredential)
      → parse_payment_credential rt c ≡ ok parsed
      → (parsed ≡ c) × (parse_payment_credential rt c ≡ ok c)
  unfolding parse_payment_credential
  parse_credential_lem c parsed h = ground arith

  stored_lem :
      (o : Option ChallengeRecord) (found : ChallengeRecord)
      → stored_challenge o ≡ ok found
      → o ≡ some found
  stored_lem none found h = absurd cc
  stored_lem (some r) found h = cc

  pack :
      (header : Option Text) (db : Database) (now : ℕ) (given : Fl402Credentials)
      (payload verified : Fl402CapabilityPayload) (signature : Text) (found : ChallengeRecord)
      (challenge : Fl402Challenge) (proof : Fl402Proof) (credential : PaymentCredential)
      → parse_authorization_l402_header header ≡ ok (some given)
      → decode_fl402_capability rt hashes given.capability ≡ ok (payload, signature)
      → stored_challenge (get_challenge payload.caveats.challenge_id db) ≡ ok found
      → parse_fl402_proof (proof_of given payload.caveats) ≡ ok proof
      → verify_fl402_proof rt hashes challenge proof root_key none now ≡ ok verified
      → parse_payment_credential rt (paid_credential found payload.caveats) ≡ ok credential
      → IsRedeemed header db now credential
  pack header db now given payload verified signature found challenge proof credential in_header
        decoded known given_proof proven last =
      let (made, allowed) =
        parse_credential_lem (paid_credential found payload.caveats) credential last in
      let same_proof = parse_proof_lem (proof_of given payload.caveats) proof given_proof in
      let facts =
        verify_proof-IsProven rt hashes challenge (proof_of given payload.caveats) root_key none now
          verified
          (subst (λ p. verify_fl402_proof rt hashes challenge p root_key none now ≡ ok verified)
            same_proof proven) in
      let both : ◌≡◌ {A = Result (Fl402CapabilityPayload × Text)} (ok (payload, signature))
          (ok (verified, facts.capability.signature)) =
        sym decoded ∙ facts.capability.carries in
      let same : verified ≡ payload = cc in
      record {
        given = given;
        in_header = in_header;
        payload = payload;
        signed =
            subst (IsSigned rt hashes given.capability root_key none now) same facts.capability;
        found = found;
        stored = stored_lem _ found known;
        paid =
            subst
              (λ p.
                normalize_hex
                  (hash_payment_preimage rt hashes given.preimage p.caveats.hash_algorithm)
                ≡ normalize_hex p.caveats.payment_hash)
              same facts.knows_preimage;
        made = made;
        allowed = subst (λ c. parse_payment_credential rt c ≡ ok c) (sym made) allowed;
      }

  caught_lem :
      (r : Result (Option PaymentCredential)) (out : Option PaymentCredential)
      → caught r ≡ ok out
      → r ≡ ok out
  caught_lem (ok value) out h = h
  caught_lem (err e) out h = absurd cc

  given_lem :
      (header : Option Text) (db : Database) (now : ℕ) (given : Fl402Credentials)
      (credential : PaymentCredential)
      → parse_authorization_l402_header header ≡ ok (some given)
      → redeem_fl402_credentials given db now ≡ ok credential
      → IsRedeemed header db now credential
  unfolding redeem_fl402_credentials
  given_lem header db now given credential in_header h =
      let (parts, decoded, h1) =
        returned _ (decode_fl402_capability rt hashes given.capability) h in
      let (_, h2) = passed (not (is_empty parts.0.caveats.challenge_id)) _ _ h1 in
      let (found, known, h3) =
        returned _ (stored_challenge (get_challenge parts.0.caveats.challenge_id db)) h2 in
      let (challenge, _, h4) =
        returned _
          (parse_fl402_challenge rt
            (described rt hashes parts.0.caveats given.capability parts.0.caveats.payment_hash))
          h3 in
      let (proof, given_proof, h5) =
        returned _ (parse_fl402_proof (proof_of given parts.0.caveats)) h4 in
      let (verified, proven, last) =
        returned _ (verify_fl402_proof rt hashes challenge proof root_key none now) h5 in
      pack header db now given parts.0 verified parts.1 found challenge proof credential in_header
        decoded known given_proof proven last

  option_lem :
      (header : Option Text) (db : Database) (now : ℕ) (o : Option Fl402Credentials)
      (credential : PaymentCredential)
      → parse_authorization_l402_header header ≡ ok o
      → if_given db now o ≡ ok (some credential)
      → IsRedeemed header db now credential
  option_lem header db now none credential k h = absurd cc
  option_lem header db now (some given) credential k h =
      let (c, redeemed, last) = returned _ (redeem_fl402_credentials given db now) h in
      let same : c ≡ credential = cc in
      given_lem header db now given credential k (redeemed ∙ ap ok same)

  -- A credential that the gateway makes of an L402 header is for the stored challenge that a capability names, which the root key
  -- signed and which is valid now; the header's preimage hashes to the payment hash of its caveats; and the
  -- credential names that hash.
  pub fl402_credential-IsRedeemed :
      (header : Option Text) (db : Database) (now : ℕ) (credential : PaymentCredential)
      → credential_from_fl402_authorization header db now ≡ ok (some credential)
      → IsRedeemed header db now credential
  unfolding credential_from_fl402_authorization
  fl402_credential-IsRedeemed header db now credential h =
      let inner =
        caught_lem (parse_authorization_l402_header header >>= if_given db now) (some credential)
          h in
      let (o, k, last) = returned _ (parse_authorization_l402_header header) inner in
      option_lem header db now o credential k last
