-- ===== src/X402/Credential.antt =====
-- packages/x402-compat/src/index.ts: x402 payment payloads and the MPP credentials of them.
use fiber_paid_http.Prelude.{
  ℕ, ◌≡◌, refl, sym, ap, ◌∙◌, subst, arith, Text, text, ◌==◌, ==_refl, ==_iff, true, Option, some,
  eqb, ok, returned, passed, goes_on, goes_past,
}
use fiber_paid_http.Core.JsonValue.{end}
use fiber_paid_http.Core.Types.{
  FiberChargeRequest, FiberCredentialPayload, PaymentChallenge, PaymentCredential,
}
use fiber_paid_http.Core.Runtime.{Runtime}
use fiber_paid_http.Core.Schemas.{parse_payment_challenge, parse_payment_credential}
use fiber_paid_http.Core.ChargeEncoding.{decode_fiber_charge_request}
use fiber_paid_http.X402.Types.{
  x402_version, X402FiberRequirements, parse_x402_payload, parse_x402_requirements,
  requirements_json, ResourceInfo, PaymentPayload,
}
use fiber_paid_http.X402.Conversion.{
  resource_expected, parse_optional_resource, fiber_charge_to_x402_requirements,
  payment_credential_to_x402_payload, parse_payment_payload_v2, x402_payment_payload_to_credential,
}
use fiber_paid_http.X402.RoundTrip.{IsRequired, requirements-IsRequired}

parse_payload_lem :
    (p parsed : FiberCredentialPayload)
    → parse_x402_payload p ≡ ok parsed
    → (parsed ≡ p) × (parse_x402_payload p ≡ ok p)
unfolding parse_x402_payload
parse_payload_lem p parsed h = ground arith

module _ (rt : Runtime) where
  -- The MPP credential for a challenge and a payload that came by x402.
  abbrev pub x402_credential : PaymentChallenge → FiberCredentialPayload → PaymentCredential
  x402_credential challenge payload = record {
    challenge = challenge;
    source = some (text "x402");
    payload = payload;
    extra = end;
  }

  parse_credential_lem :
      (c parsed : PaymentCredential)
      → parse_payment_credential rt c ≡ ok parsed
      → (parsed ≡ c) × (parse_payment_challenge rt c.challenge ≡ ok c.challenge)
  unfolding parse_payment_credential parse_payment_challenge
  parse_credential_lem c parsed h = ground arith

  credential_allowed :
      (c : PaymentCredential)
      → parse_payment_credential rt c ≡ ok c
      → parse_payment_credential rt (x402_credential c.challenge c.payload)
        ≡ ok (x402_credential c.challenge c.payload)
  unfolding parse_payment_credential text
  credential_allowed c h = ground arith

  -- What is known of the x402 payload of a credential.
  record IsPayloadOf (credential : PaymentCredential) (n : ℕ) (p : PaymentPayload) : Type 0 where
    charge : FiberChargeRequest
    decoded : decode_fiber_charge_request rt credential.challenge.request ≡ ok charge
    accepts : fiber_charge_to_x402_requirements rt charge n ≡ ok p.accepted
    same_version : p.version ≡ x402_version
    same_payload : p.payload ≡ credential.payload
    strict : parse_x402_payload p.payload ≡ ok p.payload
    credential_valid : parse_payment_credential rt credential ≡ ok credential
    challenge_valid : parse_payment_challenge rt credential.challenge ≡ ok credential.challenge

  pack :
      (credential c : PaymentCredential) (n : ℕ) (resource : Option ResourceInfo)
      (charge : FiberChargeRequest) (accepted : X402FiberRequirements)
      (payload : FiberCredentialPayload) (p : PaymentPayload)
      → parse_payment_credential rt credential ≡ ok c
      → decode_fiber_charge_request rt c.challenge.request ≡ ok charge
      → fiber_charge_to_x402_requirements rt charge n ≡ ok accepted
      → parse_x402_payload c.payload ≡ ok payload
      → (ok (record {
        version = x402_version;
        resource = resource;
        accepted = accepted;
        payload = payload;
      }))
        ≡ ok p
      → IsPayloadOf credential n p
  pack credential c n resource charge accepted payload p h decoded accepts k last =
      let (same, challenge_valid) = parse_credential_lem credential c h in
      let (payload_same, strict) = parse_payload_lem c.payload payload k in
      let made : p ≡ record {
        version = x402_version;
        resource = resource;
        accepted = accepted;
        payload = payload;
      } =
        cc in
      let payload_at = ap (λ x. x.payload) made in
      record {
        charge = charge;
        decoded = ap (λ x. decode_fiber_charge_request rt x.challenge.request) (sym same) ∙ decoded;
        accepts = accepts ∙ ap (λ x. ok x.accepted) (sym made);
        same_version = ap (λ x. x.version) made;
        same_payload = payload_at ∙ payload_same ∙ ap (λ x. x.payload) same;
        strict = subst (λ x. parse_x402_payload x ≡ ok x) (sym (payload_at ∙ payload_same)) strict;
        credential_valid = h ∙ ap ok same;
        challenge_valid = challenge_valid;
      }

  payload-IsPayloadOf :
      (credential : PaymentCredential) (n : ℕ) (given : Option ResourceInfo) (p : PaymentPayload)
      → payment_credential_to_x402_payload rt credential n given ≡ ok p
      → IsPayloadOf credential n p
  unfolding payment_credential_to_x402_payload
  payload-IsPayloadOf credential n given p h =
      let (c, h0, h1) = returned _ (parse_payment_credential rt credential) h in
      let (resource, _, h2) = returned _ (parse_optional_resource given) h1 in
      let (charge, decoded, h3) =
        returned _ (decode_fiber_charge_request rt c.challenge.request) h2 in
      let (accepted, accepts, h4) = returned _ (fiber_charge_to_x402_requirements rt charge n) h3 in
      let (payload, strict, last) = returned _ (parse_x402_payload c.payload) h4 in
      pack credential c n resource charge accepted payload p h0 decoded accepts strict last

  same_timeout :
      (charge : FiberChargeRequest) (n : ℕ) (req : X402FiberRequirements)
      → IsRequired rt charge n req
      → (req.max_timeout_seconds ≡ n)
        × (req.fiber.payment_hash ≡ charge.method_details.payment_hash)
  same_timeout charge n req known =
      (ap (λ r. r.max_timeout_seconds) known.made, ap (λ r. r.fiber.payment_hash) known.made)

  pub x402_payload-round_trip :
      (credential : PaymentCredential) (max_timeout_seconds : ℕ) (given : Option ResourceInfo)
      (payload : PaymentPayload)
      → payment_credential_to_x402_payload rt credential max_timeout_seconds given ≡ ok payload
      → (charge : FiberChargeRequest)
      → decode_fiber_charge_request rt credential.challenge.request ≡ ok charge
      → credential.payload.payment_hash ≡ charge.method_details.payment_hash
      → (expected : Option Text) → resource_expected expected payload.resource ≡ true
      → x402_payment_payload_to_credential rt payload credential.challenge expected
        ≡ ok (x402_credential credential.challenge credential.payload)
  unfolding x402_payment_payload_to_credential parse_payment_payload_v2
  x402_payload-round_trip credential n given p h charge decoded paid expected fits =
      let known = payload-IsPayloadOf credential n given p h in
      let both : ok known.charge ≡ ok charge = sym known.decoded ∙ decoded in
      let charge_same : known.charge ≡ charge = cc in
      let required = requirements-IsRequired rt known.charge n p.accepted known.accepts in
      let (timeout, hash) = same_timeout known.charge n p.accepted required in
      let version : eqb p.version x402_version ≡ true = rw known.same_version refl in
      let again = ap (fiber_charge_to_x402_requirements rt known.charge) timeout ∙ known.accepts in
      let hit = (==_iff _ _).1 (
        ap (λ x. x.payment_hash) known.same_payload
        ∙ paid
        ∙ ap (λ x. x.method_details.payment_hash) (sym charge_same)
        ∙ sym hash) in
      let allowed = credential_allowed credential known.credential_valid in
      goes_on _ (goes_past _ _ version (goes_on _ required.valid refl)) (
        goes_on _ known.challenge_valid (
          goes_past _ _ fits (
            goes_on _ known.decoded (
              goes_on _ again (
                goes_past _ _ (==_refl _) (
                  goes_on _ known.strict (
                    goes_past _ _ hit (
                      ap (λ x. parse_payment_credential rt (x402_credential credential.challenge x))
                        known.same_payload
                      ∙ allowed))))))))

  -- What is known of a credential that an x402 payload became.
  pub record IsBacked (payload : PaymentPayload) (challenge : PaymentChallenge)
      (expected_url : Option Text) (out : PaymentCredential) : Type 0 where
    pub charge : FiberChargeRequest
    pub decoded : decode_fiber_charge_request rt challenge.request ≡ ok charge
    pub expected : X402FiberRequirements
    pub required :
        fiber_charge_to_x402_requirements rt charge payload.accepted.max_timeout_seconds
        ≡ ok expected
    pub same_requirements :
        rt.canonical_json (requirements_json expected)
        ≡ rt.canonical_json (requirements_json payload.accepted)
    pub same_resource : resource_expected expected_url payload.resource ≡ true
    pub same_hash : payload.payload.payment_hash ≡ charge.method_details.payment_hash
    pub made : out ≡ x402_credential challenge payload.payload

  parse_v2_lem : (p q : PaymentPayload) → parse_payment_payload_v2 rt p ≡ ok q → q ≡ p
  unfolding parse_payment_payload_v2
  parse_v2_lem p q h =
      let (_, h1) = passed (eqb p.version x402_version) _ _ h in
      let (_, _, last) = returned _ (parse_x402_requirements rt p.accepted) h1 in cc

  parse_challenge_lem :
      (c parsed : PaymentChallenge) → parse_payment_challenge rt c ≡ ok parsed → parsed ≡ c
  unfolding parse_payment_challenge
  parse_challenge_lem c parsed h = ground arith

  pack-IsBacked :
      (p q : PaymentPayload) (c d : PaymentChallenge) (url : Option Text)
      (charge : FiberChargeRequest) (expected : X402FiberRequirements)
      (payload : FiberCredentialPayload) (out : PaymentCredential)
      → parse_payment_payload_v2 rt p ≡ ok q
      → parse_payment_challenge rt c ≡ ok d
      → resource_expected url q.resource ≡ true
      → decode_fiber_charge_request rt d.request ≡ ok charge
      → fiber_charge_to_x402_requirements rt charge q.accepted.max_timeout_seconds ≡ ok expected
      → (rt.canonical_json (requirements_json expected)
          == rt.canonical_json (requirements_json q.accepted))
        ≡ true
      → parse_x402_payload q.payload ≡ ok payload
      → (payload.payment_hash == expected.fiber.payment_hash) ≡ true
      → parse_payment_credential rt (x402_credential d payload) ≡ ok out
      → IsBacked p c url out
  pack-IsBacked p q c d url charge expected payload out h k fits decoded required same strict hit
        last =
      let (payload_same, _) = parse_payload_lem q.payload payload strict in
      let (made, _) = parse_credential_lem (x402_credential d payload) out last in
      let known =
        requirements-IsRequired rt charge q.accepted.max_timeout_seconds expected required in
      let (_, hash) = same_timeout charge q.accepted.max_timeout_seconds expected known in
      let backed : IsBacked q d url out = record {
        charge = charge;
        decoded = decoded;
        expected = expected;
        required = required;
        same_requirements = (==_iff _ _).0 same;
        same_resource = fits;
        same_hash = ap (λ x. x.payment_hash) (sym payload_same) ∙ (==_iff _ _).0 hit ∙ hash;
        made = made ∙ ap (x402_credential d) payload_same;
      } in
      subst (λ x. IsBacked p x url out) (parse_challenge_lem c d k)
        (subst (λ x. IsBacked x d url out) (parse_v2_lem p q h) backed)

  -- An x402 payload becomes a credential only if the requirements that it accepts have the same canonical JSON as those of the
  -- charge in the challenge, it has the charge's payment hash and is for the resource that is expected; the
  -- credential is for that challenge, with the payload's payment.
  pub x402_payload-IsBacked :
      (payload : PaymentPayload) (challenge : PaymentChallenge) (expected_url : Option Text)
      (out : PaymentCredential)
      → x402_payment_payload_to_credential rt payload challenge expected_url ≡ ok out
      → IsBacked payload challenge expected_url out
  unfolding x402_payment_payload_to_credential
  x402_payload-IsBacked p c url out h =
      let (q, h0, h1) = returned _ (parse_payment_payload_v2 rt p) h in
      let (d, h2, h3) = returned _ (parse_payment_challenge rt c) h1 in
      let (fits, h4) = passed (resource_expected url q.resource) _ _ h3 in
      let (charge, decoded, h5) = returned _ (decode_fiber_charge_request rt d.request) h4 in
      let (expected, required, h6) =
        returned _ (fiber_charge_to_x402_requirements rt charge q.accepted.max_timeout_seconds)
          h5 in
      let (same, h7) =
        passed
          (rt.canonical_json (requirements_json expected)
            == rt.canonical_json (requirements_json q.accepted))
          _ _ h6 in
      let (payload, strict, h8) = returned _ (parse_x402_payload q.payload) h7 in
      let (hit, last) = passed (payload.payment_hash == expected.fiber.payment_hash) _ _ h8 in
      pack-IsBacked p q c d url charge expected payload out h0 h2 fits decoded required same strict
        hit last
