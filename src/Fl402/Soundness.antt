-- ===== src/Fl402/Soundness.antt =====
-- packages/fl402-compat/src/index.ts: what a verified proof shows, and which proofs are verified.
use fiber_paid_http.Prelude.{
  ℕ, ◌≡◌, refl, sym, ap, ◌∙◌, subst, arith, Text, text, ◌==◌, ==_iff, opt_eq, opt_eq_iff, true,
  ◌&&◌, &&-eq-true, Option, some, ok, returned, passed,
}
use fiber_paid_http.Core.Types.{
  FiberNetwork, mainnet, testnet, dev, FiberHashAlgorithm, ckb_hash, sha256,
}
use fiber_paid_http.Core.Runtime.{Runtime}
use fiber_paid_http.Core.Crypto.{timing_safe_equal_string}
use fiber_paid_http.Fl402.Types.{
  Hashes, normalize_hex, Fl402Caveats, Fl402CapabilityPayload, Fl402Challenge, Fl402Proof,
  parse_fl402_challenge, parse_fl402_proof,
}
use fiber_paid_http.Fl402.Capability.{
  sign, is_valid_at, now_ms, assert_fl402_root_key, decode_fl402_capability,
  verify_fl402_capability,
}
use fiber_paid_http.Fl402.Proof.{
  same_network, same_algorithm, hash_payment_preimage, verify_fl402_proof,
}

same_network_lem : (a b : FiberNetwork) → same_network a b ≡ true → a ≡ b
unfolding text ◌==◌
same_network_lem mainnet mainnet h = refl
same_network_lem mainnet testnet h = absurd cc
same_network_lem mainnet dev h = absurd cc
same_network_lem testnet mainnet h = absurd cc
same_network_lem testnet testnet h = refl
same_network_lem testnet dev h = absurd cc
same_network_lem dev mainnet h = absurd cc
same_network_lem dev testnet h = absurd cc
same_network_lem dev dev h = refl

same_algorithm_lem : (a b : FiberHashAlgorithm) → same_algorithm a b ≡ true → a ≡ b
unfolding text ◌==◌
same_algorithm_lem ckb_hash ckb_hash h = refl
same_algorithm_lem ckb_hash sha256 h = absurd cc
same_algorithm_lem sha256 ckb_hash h = absurd cc
same_algorithm_lem sha256 sha256 h = refl

module _ (rt : Runtime) (hashes : Hashes) where
  -- The challenge that caveats describe, up to the spelling of the payment hash.
  abbrev pub described : Fl402Caveats → Text → Text → Fl402Challenge
  described caveats capability payment_hash = record {
    challenge_id = caveats.challenge_id;
    capability = capability;
    invoice = caveats.invoice;
    payment_hash = payment_hash;
    amount = caveats.amount;
    currency = caveats.currency;
    expires_at = caveats.expires_at;
    resource = some caveats.url;
    resource_hash = caveats.resource_hash;
    issuer = caveats.issuer;
    fiber_node_id = caveats.fiber_node_id;
    network = caveats.network;
    hash_algorithm = caveats.hash_algorithm;
  }

  -- What is known of a capability that was verified.
  pub record IsSigned (capability key : Text) (now : Option Text) (clock : ℕ)
      (payload : Fl402CapabilityPayload) : Type 0 where
    pub signature : Text
    pub carries : decode_fl402_capability rt hashes capability ≡ ok (payload, signature)
    pub signed : timing_safe_equal_string rt (sign rt hashes key payload) signature ≡ true
    pub in_time :
        is_valid_at
          (now_ms rt hashes now clock)
          (rt.get_time payload.issued_at)
          (rt.get_time payload.caveats.expires_at)
        ≡ true

  -- What is known of a proof that was verified.
  pub record IsProven (challenge : Fl402Challenge) (proof : Fl402Proof) (key : Text)
      (now : Option Text) (clock : ℕ) (payload : Fl402CapabilityPayload) : Type 0 where
    pub capability : IsSigned proof.capability key now clock payload
    pub for_challenge :
        challenge ≡ described payload.caveats proof.capability challenge.payment_hash
    pub same_hash :
        normalize_hex challenge.payment_hash ≡ normalize_hex payload.caveats.payment_hash
    pub named_hash : normalize_hex proof.payment_hash ≡ normalize_hex payload.caveats.payment_hash
    pub knows_preimage :
        normalize_hex
          (hash_payment_preimage rt hashes proof.preimage payload.caveats.hash_algorithm)
        ≡ normalize_hex payload.caveats.payment_hash

  pack-IsSigned :
      (capability key signature : Text) (now : Option Text) (clock : ℕ)
      (payload out : Fl402CapabilityPayload)
      → decode_fl402_capability rt hashes capability ≡ ok (payload, signature)
      → timing_safe_equal_string rt (sign rt hashes key payload) signature ≡ true
      → is_valid_at
          (now_ms rt hashes now clock)
          (rt.get_time payload.issued_at)
          (rt.get_time payload.caveats.expires_at)
        ≡ true
      → ok payload ≡ ok out
      → IsSigned capability key now clock out
  pack-IsSigned capability key signature now clock payload out carries signed in_time last =
      let same : payload ≡ out = cc in
      subst (IsSigned capability key now clock) same
        (record { signature = signature; carries = carries; signed = signed; in_time = in_time })

  verify_capability-IsSigned :
      (capability key : Text) (now : Option Text) (clock : ℕ) (out : Fl402CapabilityPayload)
      → verify_fl402_capability rt hashes capability key now clock ≡ ok out
      → IsSigned capability key now clock out
  unfolding verify_fl402_capability
  verify_capability-IsSigned capability key now clock out h =
      let (_, long, h1) = returned _ (assert_fl402_root_key rt hashes key) h in
      let (parts, carries, h2) = returned _ (decode_fl402_capability rt hashes capability) h1 in
      let (signed, h3) =
        passed (timing_safe_equal_string rt (sign rt hashes key parts.0) parts.1) _ _ h2 in
      let (in_time, last) =
        passed
          (is_valid_at (now_ms rt hashes now clock) (rt.get_time parts.0.issued_at)
            (rt.get_time parts.0.caveats.expires_at))
          _ _ h3 in
      pack-IsSigned capability key parts.1 now clock parts.0 out carries signed in_time last

  -- The tests of `verifyFl402Proof` behind the one of the capability.
  record IsTested (challenge : Fl402Challenge) (proof : Fl402Proof)
      (payload : Fl402CapabilityPayload) : Type 0 where
    hash_of_both :
        (normalize_hex challenge.payment_hash == normalize_hex payload.caveats.payment_hash
          && normalize_hex proof.payment_hash == normalize_hex payload.caveats.payment_hash)
        ≡ true
    preimage_fits :
        (normalize_hex (hash_payment_preimage rt hashes proof.preimage proof.hash_algorithm)
          == normalize_hex payload.caveats.payment_hash)
        ≡ true
    resource_hash_same : (challenge.resource_hash == payload.caveats.resource_hash) ≡ true
    resource_same : opt_eq challenge.resource (some payload.caveats.url) ≡ true
    id_same : (challenge.challenge_id == payload.caveats.challenge_id) ≡ true
    invoice_same : (challenge.invoice == payload.caveats.invoice) ≡ true
    amount_same : (challenge.amount == payload.caveats.amount) ≡ true
    currency_same : (challenge.currency == payload.caveats.currency) ≡ true
    expiry_same : (challenge.expires_at == payload.caveats.expires_at) ≡ true
    issuer_same : opt_eq challenge.issuer payload.caveats.issuer ≡ true
    node_same : opt_eq challenge.fiber_node_id payload.caveats.fiber_node_id ≡ true
    network_same : same_network challenge.network payload.caveats.network ≡ true
    algorithm_of_both :
        (same_algorithm challenge.hash_algorithm payload.caveats.hash_algorithm
          && same_algorithm proof.hash_algorithm payload.caveats.hash_algorithm)
        ≡ true

  described_of_tests :
      (challenge : Fl402Challenge) (proof : Fl402Proof) (payload : Fl402CapabilityPayload)
      → (challenge.capability == proof.capability) ≡ true
      → IsTested challenge proof payload
      → challenge ≡ described payload.caveats proof.capability challenge.payment_hash
  described_of_tests challenge proof payload same t =
      let algorithms =
        &&-eq-true (same_algorithm challenge.hash_algorithm payload.caveats.hash_algorithm) _
          t.algorithm_of_both in
      λ i. record {
        challenge_id = (==_iff _ _).0 t.id_same i;
        capability = (==_iff _ _).0 same i;
        invoice = (==_iff _ _).0 t.invoice_same i;
        payment_hash = challenge.payment_hash;
        amount = (==_iff _ _).0 t.amount_same i;
        currency = (==_iff _ _).0 t.currency_same i;
        expires_at = (==_iff _ _).0 t.expiry_same i;
        resource = (opt_eq_iff _ _).0 t.resource_same i;
        resource_hash = (==_iff _ _).0 t.resource_hash_same i;
        issuer = (opt_eq_iff _ _).0 t.issuer_same i;
        fiber_node_id = (opt_eq_iff _ _).0 t.node_same i;
        network = same_network_lem _ _ t.network_same i;
        hash_algorithm = same_algorithm_lem _ _ algorithms.0 i;
      }

  IsProven-of_tests :
      (challenge : Fl402Challenge) (proof : Fl402Proof) (key : Text) (now : Option Text) (clock : ℕ)
      (payload : Fl402CapabilityPayload)
      → IsSigned proof.capability key now clock payload
      → (challenge.capability == proof.capability) ≡ true
      → IsTested challenge proof payload
      → IsProven challenge proof key now clock payload
  IsProven-of_tests challenge proof key now clock payload signed same t =
      let hashes_same =
        &&-eq-true
          (normalize_hex challenge.payment_hash == normalize_hex payload.caveats.payment_hash) _
          t.hash_of_both in
      let algorithms =
        &&-eq-true (same_algorithm challenge.hash_algorithm payload.caveats.hash_algorithm) _
          t.algorithm_of_both in
      record {
        capability = signed;
        for_challenge = described_of_tests challenge proof payload same t;
        same_hash = (==_iff _ _).0 hashes_same.0;
        named_hash = (==_iff _ _).0 hashes_same.1;
        knows_preimage =
            ap (λ a. normalize_hex (hash_payment_preimage rt hashes proof.preimage a))
              (sym (same_algorithm_lem _ _ algorithms.1))
            ∙ (==_iff _ _).0 t.preimage_fits;
      }

  parse_challenge_lem :
      (c parsed : Fl402Challenge) → parse_fl402_challenge rt c ≡ ok parsed → parsed ≡ c
  unfolding parse_fl402_challenge
  parse_challenge_lem c parsed h = ground arith

  parse_proof_lem : (p parsed : Fl402Proof) → parse_fl402_proof p ≡ ok parsed → parsed ≡ p
  unfolding parse_fl402_proof
  parse_proof_lem p parsed h = ground arith

  pack-IsProven :
      (challenge c : Fl402Challenge) (proof p : Fl402Proof) (key : Text) (now : Option Text)
      (clock : ℕ) (payload out : Fl402CapabilityPayload)
      → parse_fl402_challenge rt challenge ≡ ok c
      → parse_fl402_proof proof ≡ ok p
      → (c.capability == p.capability) ≡ true
      → verify_fl402_capability rt hashes p.capability key now clock ≡ ok payload
      → IsTested c p payload
      → ok payload ≡ ok out
      → IsProven challenge proof key now clock out
  pack-IsProven challenge c proof p key now clock payload out h k same verified tests last =
      let out_same : payload ≡ out = cc in
      let proven =
        IsProven-of_tests c p key now clock payload
          (verify_capability-IsSigned p.capability key now clock payload verified) same tests in
      subst (IsProven challenge proof key now clock) out_same (
        subst (λ x. IsProven challenge x key now clock payload) (parse_proof_lem proof p k)
          (subst (λ x. IsProven x p key now clock payload) (parse_challenge_lem challenge c h)
            proven))

  -- A verified proof: its capability carries the returned payload with a signature that the root key makes, and is
  -- verified between its issue and its expiry; the challenge says what the caveats say; and the preimage hashes, by
  -- the algorithm of the caveats, to their payment hash, up to the spelling of hashes.
  pub verify_proof-IsProven :
      (challenge : Fl402Challenge) (proof : Fl402Proof) (key : Text) (now : Option Text) (clock : ℕ)
      (out : Fl402CapabilityPayload)
      → verify_fl402_proof rt hashes challenge proof key now clock ≡ ok out
      → IsProven challenge proof key now clock out
  unfolding verify_fl402_proof
  verify_proof-IsProven challenge proof key now clock out h =
      let (c, h0, h1) = returned _ (parse_fl402_challenge rt challenge) h in
      let (p, k0, h2) = returned _ (parse_fl402_proof proof) h1 in
      let (same, h3) = passed (c.capability == p.capability) _ _ h2 in
      let (payload, verified, h4) =
        returned _ (verify_fl402_capability rt hashes p.capability key now clock) h3 in
      let expected = normalize_hex payload.caveats.payment_hash in
      let (t1, h5) =
        passed
          (normalize_hex c.payment_hash == expected && normalize_hex p.payment_hash == expected) _ _
          h4 in
      let (t2, h6) =
        passed
          (normalize_hex (hash_payment_preimage rt hashes p.preimage p.hash_algorithm) == expected)
          _ _ h5 in
      let (t3, h7) = passed (c.resource_hash == payload.caveats.resource_hash) _ _ h6 in
      let (t4, h8) = passed (opt_eq c.resource (some payload.caveats.url)) _ _ h7 in
      let (t5, h9) = passed (c.challenge_id == payload.caveats.challenge_id) _ _ h8 in
      let (t6, h10) = passed (c.invoice == payload.caveats.invoice) _ _ h9 in
      let (t7, h11) = passed (c.amount == payload.caveats.amount) _ _ h10 in
      let (t8, h12) = passed (c.currency == payload.caveats.currency) _ _ h11 in
      let (t9, h13) = passed (c.expires_at == payload.caveats.expires_at) _ _ h12 in
      let (t10, h14) = passed (opt_eq c.issuer payload.caveats.issuer) _ _ h13 in
      let (t11, h15) = passed (opt_eq c.fiber_node_id payload.caveats.fiber_node_id) _ _ h14 in
      let (t12, h16) = passed (same_network c.network payload.caveats.network) _ _ h15 in
      let (t13, last) =
        passed
          (same_algorithm c.hash_algorithm payload.caveats.hash_algorithm
            && same_algorithm p.hash_algorithm payload.caveats.hash_algorithm)
          _ _ h16 in
      let tests : IsTested c p payload = record {
        hash_of_both = t1;
        preimage_fits = t2;
        resource_hash_same = t3;
        resource_same = t4;
        id_same = t5;
        invoice_same = t6;
        amount_same = t7;
        currency_same = t8;
        expiry_same = t9;
        issuer_same = t10;
        node_same = t11;
        network_same = t12;
        algorithm_of_both = t13;
      } in
      pack-IsProven challenge c proof p key now clock payload out h0 k0 same verified tests last
