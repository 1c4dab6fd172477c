-- ===== src/Middleware/Acceptance.antt =====
-- A challenge that `issueChallenge` saved and the credential that pays for it.
use fiber_paid_http.Prelude.{
  ℕ, ◌+◌, ◌*◌, ◌≤◌, ◌≡◌, refl, sym, ap, ◌∙◌, Text, ==_refl, ==_iff, opt_eq, opt_eq_iff, true, false,
  ◌||◌, not, Option, none, some, List, ◌∷◌, arith, ltb, eqb_iff, length, truthy, is_some, ok,
  returned, goes_on, goes_past, subst,
}
use fiber_paid_http.Core.Types.{PaymentChallenge, PaymentCredential, FiberChargeRequest}
use fiber_paid_http.Core.Json.{challenge_json, resource_json, charge_json}
use fiber_paid_http.Core.Runtime.{Runtime}
use fiber_paid_http.Core.Schemas.{parse_payment_challenge, parse_payment_credential}
use fiber_paid_http.Core.Crypto.{
  challenge_binding_input, bind_challenge_id, timing_safe_equal_string, verify_challenge_id,
  verify_challenge_id_with_any_secret,
}
use fiber_paid_http.Core.ChargeEncoding.{encode_fiber_charge_request, decode_fiber_charge_request}
use fiber_paid_http.Core.Tokens.Lawful.{IsLawful}
use fiber_paid_http.Core.Tokens.ChargeTokens.{decode-encode_charge, encode_charge_lem}
use fiber_paid_http.Core.Resource.{HttpRequest}
use fiber_paid_http.Tables.{has, find}
use fiber_paid_http.Storage.{ChallengeRecord, Database, id, get_challenge, save_challenge}
use fiber_paid_http.Middleware.Config.{
  MiddlewareConfig, Gateway, PaidRouteConfig, create_middleware,
}
use fiber_paid_http.Middleware.Verify.{
  check_credential, assert_not_expired, resource_descriptor_for_gateway, known_record,
}
use fiber_paid_http.Middleware.Issue.{
  challenge_record, unbound_challenge, bound, ttl_seconds, expires_at,
}

-- What is needed of `Date`: ISO texts are read back, and are not empty.
pub record HasDates (rt : Runtime) : Type 0 where
  pub read_back : (n : ℕ) → rt.get_time (rt.to_iso_string n) ≡ some n
  pub not_empty : (n : ℕ) → truthy (some (rt.to_iso_string n)) ≡ some (rt.to_iso_string n)

gateway_secrets :
    (c : MiddlewareConfig) (gateway : Gateway)
    → create_middleware c ≡ ok gateway
    → gateway.verification_secrets ≡ gateway.secret ∷ c.previous_secrets
unfolding create_middleware
gateway_secrets c gateway h = ground arith

module _ (rt : Runtime) (gateway : Gateway) (route : PaidRouteConfig) (request : HttpRequest)
    (now : ℕ) (charge : FiberChargeRequest) where
  abbrev made_record : PaymentChallenge → ChallengeRecord
  made_record challenge = record {
    challenge = challenge;
    charge_request = charge;
    resource_binding = resource_descriptor_for_gateway rt gateway request;
    created_at = rt.to_iso_string now;
    expires_at = expires_at rt gateway route now;
    consumed_at = none;
  }

  -- What a record holds that was made for an invoice.
  record IsIssued (found : ChallengeRecord) : Type 0 where
    token : Text
    encoded : encode_fiber_charge_request rt charge ≡ ok token
    valid : parse_payment_challenge rt found.challenge ≡ ok found.challenge
    made :
        found
        ≡ made_record (
            bound rt gateway route (
              unbound_challenge rt gateway route
                (resource_descriptor_for_gateway rt gateway request)
                now
                token))

  parse_lem :
      (c parsed : PaymentChallenge)
      → parse_payment_challenge rt c ≡ ok parsed
      → (parsed ≡ c) × (parse_payment_challenge rt c ≡ ok c)
  unfolding parse_payment_challenge
  parse_lem c parsed h = ground arith

  ok_lem : (r found : ChallengeRecord) → ok r ≡ ok found → found ≡ r
  ok_lem r found h = cc

  pack :
      (token : Text) (unbound challenge : PaymentChallenge) (found : ChallengeRecord)
      → encode_fiber_charge_request rt charge ≡ ok token
      → parse_payment_challenge rt (
          unbound_challenge rt gateway route
            (resource_descriptor_for_gateway rt gateway request)
            now
            token)
        ≡ ok unbound
      → parse_payment_challenge rt (bound rt gateway route unbound) ≡ ok challenge
      → ok (made_record challenge) ≡ ok found
      → IsIssued found
  pack token unbound challenge found encoded first second last =
      let (u, _) = parse_lem _ unbound first in
      let (same, valid) = parse_lem (bound rt gateway route unbound) challenge second in
      let same' = same ∙ ap (bound rt gateway route) u in
      let made = ok_lem (made_record challenge) found last ∙ ap made_record same' in
      let named = ap (λ r. r.challenge) made in
      record {
        token = token;
        encoded = encoded;
        valid =
            subst (λ c. parse_payment_challenge rt c ≡ ok c) (sym named)
              (subst
                (λ c.
                  parse_payment_challenge rt (bound rt gateway route c)
                  ≡ ok (bound rt gateway route c))
                u valid);
        made = made;
      }

  challenge_record-IsIssued :
      (found : ChallengeRecord)
      → challenge_record rt gateway route request now charge ≡ ok found
      → IsIssued found
  unfolding challenge_record
  challenge_record-IsIssued found h =
      let resource = resource_descriptor_for_gateway rt gateway request in
      let (token, encoded, h1) = returned _ (encode_fiber_charge_request rt charge) h in
      let (unbound, first, h2) =
        returned _
          (parse_payment_challenge rt (unbound_challenge rt gateway route resource now token)) h1 in
      let (challenge, second, last) =
        returned _ (parse_payment_challenge rt (bound rt gateway route unbound)) h2 in
      pack token unbound challenge found encoded first second last

  timing_safe_equal_self : (s : Text) → timing_safe_equal_string rt s s ≡ true
  unfolding timing_safe_equal_string
  timing_safe_equal_self s =
      rw (((eqb_iff (length (rt.utf8_encode s)) _).1 refl), ==_refl (rt.utf8_encode s)) refl

  verify_bound :
      (unbound : PaymentChallenge) (secrets : List Text)
      → parse_payment_challenge rt (bound rt gateway route unbound)
        ≡ ok (bound rt gateway route unbound)
      → verify_challenge_id_with_any_secret rt
          (bound rt gateway route unbound)
          (gateway.secret ∷ secrets)
        ≡ ok true
  unfolding verify_challenge_id_with_any_secret verify_challenge_id bind_challenge_id
      challenge_binding_input
  verify_bound unbound secrets valid =
      rw valid (rw (timing_safe_equal_self (bind_challenge_id rt unbound gateway.secret)) refl)

  issued_current :
      (c : PaymentChallenge) (later : ℕ)
      → HasDates rt
      → later ≤ now + ttl_seconds rt gateway route * 1000 + gateway.clock_skew_seconds * 1000
      → c.expires ≡ some (expires_at rt gateway route now)
      → assert_not_expired rt gateway c later ≡ ok tt
  unfolding assert_not_expired
  issued_current c later dates in_time e =
      let at = now + ttl_seconds rt gateway route * 1000 in
      let early : ltb (at + gateway.clock_skew_seconds * 1000) later ≡ false = ground arith in
      rw (e, assert_not_expired, dates.not_empty at, dates.read_back at, early) refl

  get-save :
      (found : ChallengeRecord) (db : Database)
      → found.consumed_at ≡ none
      → has id found.challenge.id db.challenges ≡ false
      → get_challenge found.challenge.id (save_challenge found db) ≡ some found
  unfolding get_challenge save_challenge find
  get-save found db fresh new =
      let row : find id found.challenge.id (record found { consumed_at = none } ∷ db.challenges)
          ≡ some (record found { consumed_at = none }) =
        rw (==_refl found.challenge.id) refl in
      rw (new, get_challenge, row) (ap (λ o. some (record found { consumed_at = o })) (sym fresh))

  digest_ok_self :
      (c : PaymentChallenge) (r : Option Text)
      → c.digest ≡ r
      → (not (is_some (truthy c.digest)) || opt_eq c.digest r) ≡ true
  digest_ok_self c r h = ground (arith, opt_eq_iff c.digest r)

  accept :
      (found : ChallengeRecord) (credential : PaymentCredential) (db : Database) (later : ℕ)
      → IsLawful rt
      → HasDates rt
      → (previous : List Text) → gateway.verification_secrets ≡ gateway.secret ∷ previous
      → IsIssued found
      → get_challenge found.challenge.id db ≡ some found
      → parse_payment_credential rt credential ≡ ok credential
      → credential.challenge ≡ found.challenge
      → credential.payload.payment_hash ≡ charge.method_details.payment_hash
      → later ≤ now + ttl_seconds rt gateway route * 1000 + gateway.clock_skew_seconds * 1000
      → check_credential rt gateway request credential db later
        ≡ ok (record {
          credential = credential;
          challenge = found.challenge;
          charge_request = charge;
        })
  unfolding check_credential unbound_challenge
  accept found credential db later lawful dates previous secrets issued stored valid same paid
        in_time =
      let (charge_valid, _) = encode_charge_lem rt charge issued.token issued.encoded in
      let made = issued.made in
      let named = ap (λ r. r.challenge) made in
      let unbound =
        unbound_challenge rt gateway route (resource_descriptor_for_gateway rt gateway request) now
          issued.token in
      let bound_valid = subst (λ c. parse_payment_challenge rt c ≡ ok c) named issued.valid in
      let binding =
        ap (verify_challenge_id_with_any_secret rt found.challenge) secrets
        ∙ ap (λ c. verify_challenge_id_with_any_secret rt c (gateway.secret ∷ previous)) named
        ∙ verify_bound unbound previous bound_valid in
      let decoded =
        ap (λ c. decode_fiber_charge_request rt c.request) named
        ∙ decode-encode_charge rt charge issued.token lawful issued.encoded in
      let known = ap known_record (ap (λ c. get_challenge c.id db) same ∙ stored) in
      let current =
        issued_current found.challenge later dates in_time (ap (λ c. c.expires) named) in
      let digest =
        digest_ok_self found.challenge (resource_descriptor_for_gateway rt gateway request).digest
          (ap (λ c. c.digest) named) in
      let echo = (==_iff _ _).1 (ap (λ c. rt.canonical_json (challenge_json c)) same) in
      let resource =
        (==_iff _ _).1
          (ap (λ r. rt.canonical_json (resource_json r.resource_binding)) (sym made)) in
      let stored_charge =
        (==_iff _ _).1 (ap (λ r. rt.canonical_json (charge_json r.charge_request)) (sym made)) in
      goes_on _ valid (
        goes_on _ known (
          goes_on _ issued.valid (
            goes_past _ _ echo (
              goes_on _ binding (
                goes_on _ current (
                  goes_past _ _ resource (
                    goes_past _ _ digest (
                      goes_on _ decoded (
                        goes_on _ charge_valid (
                          goes_past _ _ stored_charge
                            (goes_past _ _ ((==_iff _ _).1 paid) refl)))))))))))

-- Whoever pays the invoice of a challenge is let through: a challenge that was issued and saved for a
-- request, under an id that was not stored before, and echoed with the payment hash of its invoice in a credential that the schema
-- allows, passes all the checks of the gateway for the same request until the clock skew after it expires.
pub check_credential-issue :
    (rt : Runtime)
    → IsLawful rt
    → HasDates rt
    → (config : MiddlewareConfig) (gateway : Gateway) → create_middleware config ≡ ok gateway
    → (route : PaidRouteConfig) (request : HttpRequest) (now : ℕ) (charge : FiberChargeRequest)
    → (found : ChallengeRecord) → challenge_record rt gateway route request now charge ≡ ok found
    → (db : Database) → has id found.challenge.id db.challenges ≡ false
    → (credential : PaymentCredential) → parse_payment_credential rt credential ≡ ok credential
    → credential.challenge ≡ found.challenge
    → credential.payload.payment_hash ≡ charge.method_details.payment_hash
    → (later : ℕ)
    → later ≤ now + ttl_seconds rt gateway route * 1000 + gateway.clock_skew_seconds * 1000
    → check_credential rt gateway request credential (save_challenge found db) later
      ≡ ok
          (record { credential = credential; challenge = found.challenge; charge_request = charge })
check_credential-issue rt lawful dates config gateway built route request now charge found made db
      new credential valid same paid later in_time =
    let issued = challenge_record-IsIssued rt gateway route request now charge found made in
    let fresh = ap (λ r. r.consumed_at) issued.made in
    let stored = get-save rt gateway route request now charge found db fresh new in
    accept rt gateway route request now charge found credential (save_challenge found db) later
      lawful dates config.previous_secrets (gateway_secrets config gateway built) issued stored
      valid same paid in_time
