-- ===== src/F402/Conversion.antt =====
-- What the conversions of F402 keep.
use fiber_paid_http.Prelude.{
  ◌≡◌, refl, sym, ap, ◌∙◌, ◌↔◌, arith, Text, ◌==◌, ==_iff, true, Option, none, some, lower, ok,
  returned, passed, goes_on, goes_past,
}
use fiber_paid_http.Core.JsonValue.{end}
use fiber_paid_http.Core.Types.{
  FiberChargeRequest, PaymentChallenge, PaymentCredential, ResourceDescriptor,
}
use fiber_paid_http.Core.Runtime.{Runtime}
use fiber_paid_http.Core.Schemas.{
  parse_charge_request, parse_payment_challenge, parse_payment_credential,
}
use fiber_paid_http.Core.Crypto.{bind_challenge_id}
use fiber_paid_http.Core.ChargeEncoding.{encode_fiber_charge_request, decode_fiber_charge_request}
use fiber_paid_http.Core.Tokens.Lawful.{IsLawful}
use fiber_paid_http.Core.Tokens.ChargeTokens.{decode-encode_charge}
use fiber_paid_http.F402.{
  F402Challenge, F402Proof, parse_f402_challenge, parse_f402_proof, charge_of, pending_challenge,
  f402_challenge_to_fiber_charge_request, f402_challenge_to_mpp, f402_proof_to_credential,
  mpp_challenge_to_f402_body,
}

module _ (rt : Runtime) where
  parse_charge_lem :
      (r parsed : FiberChargeRequest) → parse_charge_request rt r ≡ ok parsed → parsed ≡ r
  unfolding parse_charge_request
  parse_charge_lem r parsed h = ground arith

  parse_challenge_lem :
      (c parsed : PaymentChallenge)
      → parse_payment_challenge rt c ≡ ok parsed
      → (parsed ≡ c) × (parse_payment_challenge rt parsed ≡ ok parsed)
  unfolding parse_payment_challenge
  parse_challenge_lem c parsed h = ground arith

  parse_f402_lem : (c parsed : F402Challenge) → parse_f402_challenge rt c ≡ ok parsed → parsed ≡ c
  unfolding parse_f402_challenge
  parse_f402_lem c parsed h = ground arith

  charge_of_f402 :
      (f402 : F402Challenge) (charge : FiberChargeRequest)
      → f402_challenge_to_fiber_charge_request rt f402 ≡ ok charge
      → charge ≡ charge_of rt f402
  unfolding f402_challenge_to_fiber_charge_request
  charge_of_f402 f402 charge h =
      let (parsed, first, rest) = returned _ (parse_f402_challenge rt f402) h in
      parse_charge_lem _ charge rest ∙ ap (charge_of rt) (parse_f402_lem f402 parsed first)

  -- What is known of the challenge that an F402 challenge becomes.
  record IsConverted (f402 : F402Challenge) (c : PaymentChallenge) : Type 0 where
    decoded : decode_fiber_charge_request rt c.request ≡ ok (charge_of rt f402)
    valid : parse_payment_challenge rt c ≡ ok c
    expires_same : c.expires ≡ some f402.expires_at

  pack :
      (f402 parsed : F402Challenge) (charge : FiberChargeRequest) (token realm secret : Text)
      (digest : Option Text) (unbound c : PaymentChallenge)
      → IsLawful rt
      → parsed ≡ f402
      → f402_challenge_to_fiber_charge_request rt parsed ≡ ok charge
      → encode_fiber_charge_request rt charge ≡ ok token
      → parse_payment_challenge rt (pending_challenge rt realm token parsed.expires_at digest)
        ≡ ok unbound
      → parse_payment_challenge rt (record unbound { id = bind_challenge_id rt unbound secret })
        ≡ ok c
      → IsConverted f402 c
  pack f402 parsed charge token realm secret digest unbound c lawful same h encoded first second =
      let (u, _) = parse_challenge_lem _ unbound first in
      let (v, valid) = parse_challenge_lem _ c second in
      let charge_same = charge_of_f402 parsed charge h ∙ ap (charge_of rt) same in
      record {
        decoded =
            ap (decode_fiber_charge_request rt) (ap (λ x. x.request) v ∙ ap (λ x. x.request) u)
            ∙ decode-encode_charge rt charge token lawful encoded
            ∙ ap ok charge_same;
        valid = valid;
        expires_same =
            ap (λ x. x.expires) v ∙ ap (λ x. x.expires) u ∙ ap (λ x. some x.expires_at) same;
      }

  f402_challenge_to_mpp-IsConverted :
      (f402 : F402Challenge) (resource : ResourceDescriptor) (realm secret : Text)
      (c : PaymentChallenge)
      → IsLawful rt
      → f402_challenge_to_mpp rt f402 resource realm secret ≡ ok c
      → IsConverted f402 c
  unfolding f402_challenge_to_mpp
  f402_challenge_to_mpp-IsConverted f402 resource realm secret c lawful h =
      let (parsed, h0, h1) = returned _ (parse_f402_challenge rt f402) h in
      let (charge, h2, h3) = returned _ (f402_challenge_to_fiber_charge_request rt parsed) h1 in
      let (token, h4, h5) = returned _ (encode_fiber_charge_request rt charge) h3 in
      let (unbound, h6, h7) =
        returned _
          (parse_payment_challenge rt
            (pending_challenge rt realm token parsed.expires_at resource.digest))
          h5 in
      pack f402 parsed charge token realm secret resource.digest unbound c lawful
        (parse_f402_lem f402 parsed h0) h2 h4 h6 h7

  -- On a lawful platform, the F402 body of the MPP challenge of an F402 challenge says what that challenge said, with
  -- the currency in lower case and the id of the MPP challenge.
  pub f402_body-challenge_to_mpp :
      (f402 : F402Challenge) (resource : ResourceDescriptor) (realm secret : Text)
      (c : PaymentChallenge)
      → IsLawful rt
      → f402_challenge_to_mpp rt f402 resource realm secret ≡ ok c
      → mpp_challenge_to_f402_body rt c
        ≡ ok (record {
          invoice = f402.invoice;
          payment_hash = f402.payment_hash;
          amount = f402.amount;
          currency = lower f402.currency;
          expires_at = some f402.expires_at;
          challenge_id = c.id;
          network = f402.network;
          hash_algorithm = f402.hash_algorithm;
        })
  unfolding mpp_challenge_to_f402_body
  f402_body-challenge_to_mpp f402 resource realm secret c lawful h =
      let made = f402_challenge_to_mpp-IsConverted f402 resource realm secret c lawful h in
      goes_on _ made.valid (goes_on _ made.decoded (rw made.expires_same refl))

  abbrev pub credential_for : F402Proof → PaymentChallenge → PaymentCredential
  credential_for proof c = record {
    challenge = c;
    source = none;
    payload = record { payment_hash = proof.payment_hash; extra = end };
    extra = end;
  }

  parse_proof_lem :
      (p parsed : F402Proof)
      → parse_f402_proof p ≡ ok parsed
      → (parsed ≡ p) × (parse_f402_proof p ≡ ok p)
  unfolding parse_f402_proof
  parse_proof_lem p parsed h = ground arith

  credential_allowed :
      (proof : F402Proof) (c : PaymentChallenge)
      → parse_f402_proof proof ≡ ok proof
      → parse_payment_challenge rt c ≡ ok c
      → parse_payment_credential rt (credential_for proof c) ≡ ok (credential_for proof c)
  unfolding parse_f402_proof parse_payment_challenge parse_payment_credential
  credential_allowed proof c h k = ground arith

  same_hash :
      (f402 : F402Challenge) (proof p : F402Proof) (c d : PaymentChallenge)
      (request : FiberChargeRequest)
      → decode_fiber_charge_request rt c.request ≡ ok (charge_of rt f402)
      → p ≡ proof
      → d ≡ c
      → decode_fiber_charge_request rt d.request ≡ ok request
      → (p.payment_hash == request.method_details.payment_hash) ≡ true
      → proof.payment_hash ≡ f402.payment_hash
  same_hash f402 proof p c d request decoded same_proof same_challenge h k =
      let both : ok request ≡ ok (charge_of rt f402) =
        sym h ∙ ap (λ x. decode_fiber_charge_request rt x.request) same_challenge ∙ decoded in
      let request' : request ≡ charge_of rt f402 = cc in
      ap (λ x. x.payment_hash) (sym same_proof)
      ∙ (==_iff _ _).0 k
      ∙ ap (λ x. x.method_details.payment_hash) request'

  -- On a lawful platform, a proof becomes a credential for the MPP challenge of an F402 challenge exactly if the schema allows the
  -- proof and it has the payment hash of the F402 challenge.
  pub f402_proof_iff :
      (f402 : F402Challenge) (resource : ResourceDescriptor) (realm secret : Text)
      (c : PaymentChallenge)
      → IsLawful rt
      → f402_challenge_to_mpp rt f402 resource realm secret ≡ ok c
      → (proof : F402Proof)
      → (f402_proof_to_credential rt proof c ≡ ok (credential_for proof c))
        ↔ ((parse_f402_proof proof ≡ ok proof) × (proof.payment_hash ≡ f402.payment_hash))
  unfolding f402_proof_to_credential
  f402_proof_iff f402 resource realm secret c lawful h proof =
      let made = f402_challenge_to_mpp-IsConverted f402 resource realm secret c lawful h in
      (
        λ k.
            let (p, h0, h1) = returned _ (parse_f402_proof proof) k in
            let (d, h2, h3) = returned _ (parse_payment_challenge rt c) h1 in
            let (request, h4, h5) = returned _ (decode_fiber_charge_request rt d.request) h3 in
            let (hit, _) = passed (p.payment_hash == request.method_details.payment_hash) _ _ h5 in
            let (same_proof, allowed) = parse_proof_lem proof p h0 in
            let (same_challenge, _) = parse_challenge_lem c d h2 in
            (
              allowed,
              same_hash f402 proof p c d request made.decoded same_proof same_challenge h4 hit,
            ),
        λ k. goes_on _ k.0 (
            goes_on _ made.valid (
              goes_on _ made.decoded
                (goes_past _ _ ((==_iff _ _).1 k.1) (credential_allowed proof c k.0 made.valid)))),
      )
