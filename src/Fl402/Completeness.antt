-- ===== src/Fl402/Completeness.antt =====
-- packages/fl402-compat/src/index.ts: whoever knows the preimage passes `verifyFl402Proof`.
use fiber_paid_http.Prelude.{
  ℕ, ◌≡◌, refl, sym, ap, ◌∙◌, subst, arith, Text, ==_iff, ==_refl, opt_eq_iff, Bool, true, ◌&&◌,
  Option, ok, returned, goes_on, goes_past,
}
use fiber_paid_http.Core.Runtime.{Runtime}
use fiber_paid_http.Core.Tokens.Lawful.{IsLawful}
use fiber_paid_http.Fl402.Types.{
  Hashes, normalize_hex, Fl402Caveats, Fl402Challenge, Fl402Proof, parse_fl402_caveats,
  parse_fl402_challenge, parse_fl402_proof,
}
use fiber_paid_http.Fl402.Capability.{
  is_valid_at, now_ms, issue_fl402_capability, verify_fl402_capability,
}
use fiber_paid_http.Fl402.Issued.{HasHexDigests, payload_for, verify-issue_capability}
use fiber_paid_http.Fl402.Proof.{
  ChallengeInput, hash_payment_preimage, caveats_for, challenge_for, issue_fl402_challenge,
  verify_fl402_proof,
}

both_true : (a b : Bool) → a ≡ true → b ≡ true → (a && b) ≡ true
both_true a b h k = ground arith

module _ (rt : Runtime) (hashes : Hashes) (lawful : IsLawful rt)
    (digests : HasHexDigests hashes) where
  parse_caveats_lem : (c parsed : Fl402Caveats) → parse_fl402_caveats rt c ≡ ok parsed → parsed ≡ c
  unfolding parse_fl402_caveats
  parse_caveats_lem c parsed h = ground arith

  parse_challenge_lem :
      (c parsed : Fl402Challenge)
      → parse_fl402_challenge rt c ≡ ok parsed
      → (parsed ≡ c) × (parse_fl402_challenge rt c ≡ ok c)
  unfolding parse_fl402_challenge
  parse_challenge_lem c parsed h = ground arith

  -- The challenge that is issued, with its capability.
  abbrev issued : ChallengeInput → Text → Fl402Challenge
  issued input capability = challenge_for rt hashes input (caveats_for rt hashes input) capability

  issue_challenge_lem :
      (key : Text) (input : ChallengeInput) (nonce issued_at : Text) (challenge : Fl402Challenge)
      → issue_fl402_challenge rt hashes key input nonce issued_at ≡ ok challenge
      → (capability : Text) × (issue_fl402_capability rt hashes key
            (caveats_for rt hashes input)
            nonce
            issued_at
          ≡ ok capability)
        × (challenge ≡ issued input capability)
        × (parse_fl402_challenge rt (issued input capability) ≡ ok (issued input capability))
  unfolding issue_fl402_challenge
  issue_challenge_lem key input nonce issued_at challenge h =
      let (caveats, h0, h1) = returned _ (parse_fl402_caveats rt (caveats_for rt hashes input)) h in
      let (capability, h2, h3) =
        returned _ (issue_fl402_capability rt hashes key caveats nonce issued_at) h1 in
      let same = parse_caveats_lem (caveats_for rt hashes input) caveats h0 in
      let (made, valid) =
        parse_challenge_lem (challenge_for rt hashes input caveats capability) challenge h3 in
      (
        capability,
        subst (λ c. issue_fl402_capability rt hashes key c nonce issued_at ≡ ok capability) same h2,
        made ∙ ap (λ c. challenge_for rt hashes input c capability) same,
        subst
            (λ c.
              parse_fl402_challenge rt (challenge_for rt hashes input c capability)
              ≡ ok (challenge_for rt hashes input c capability))
            same valid,
      )

  -- A proof for a challenge with a preimage.
  abbrev pub proof_for : Fl402Challenge → Text → Fl402Proof
  proof_for challenge preimage = record {
    capability = challenge.capability;
    preimage = preimage;
    payment_hash = challenge.payment_hash;
    hash_algorithm = challenge.hash_algorithm;
  }

  verify_issued :
      (key : Text) (input : ChallengeInput) (nonce issued_at capability preimage : Text)
      (now : Option Text) (clock : ℕ)
      → issue_fl402_capability rt hashes key (caveats_for rt hashes input) nonce issued_at
        ≡ ok capability
      → parse_fl402_challenge rt (issued input capability) ≡ ok (issued input capability)
      → parse_fl402_proof (proof_for (issued input capability) preimage)
        ≡ ok (proof_for (issued input capability) preimage)
      → normalize_hex
          (hash_payment_preimage rt hashes preimage (caveats_for rt hashes input).hash_algorithm)
        ≡ normalize_hex input.payment_hash
      → is_valid_at
          (now_ms rt hashes now clock)
          (rt.get_time issued_at)
          (rt.get_time input.expires_at)
        ≡ true
      → verify_fl402_proof rt hashes
          (issued input capability)
          (proof_for (issued input capability) preimage)
          key
          now
          clock
        ≡ ok (payload_for rt hashes lawful digests (caveats_for rt hashes input) nonce issued_at)
  unfolding verify_fl402_proof
  verify_issued key input nonce issued_at capability preimage now clock h valid allowed fits
        in_time =
      let verified : verify_fl402_capability rt hashes capability key now clock
          ≡ ok
              (payload_for rt hashes lawful digests (caveats_for rt hashes input) nonce issued_at) =
        verify-issue_capability rt hashes lawful digests key (caveats_for rt hashes input) nonce
          issued_at capability h now clock
        ∙ rw in_time refl in
      let hash_same = ==_refl (normalize_hex input.payment_hash) in
      goes_on _ valid (
        goes_on _ allowed (
          goes_past _ _ (==_refl capability) (
            goes_on _ verified (
              goes_past _ _ (both_true _ _ hash_same hash_same) (
                goes_past _ _ ((==_iff _ _).1 fits) (
                  goes_past _ _ (==_refl _) (
                    goes_past _ _ ((opt_eq_iff _ _).1 refl) (
                      goes_past _ _ (==_refl _) (
                        goes_past _ _ (==_refl _) (
                          goes_past _ _ (==_refl _) (
                            goes_past _ _ (==_refl _) (
                              goes_past _ _ (==_refl _) (
                                goes_past _ _ ((opt_eq_iff _ _).1 refl) (
                                  goes_past _ _ ((opt_eq_iff _ _).1 refl) (
                                    goes_past _ _ (==_refl _) (
                                      goes_past _ _ (both_true _ _ (==_refl _) (==_refl _))
                                        refl))))))))))))))))

  -- On a lawful platform, an issued challenge and a proof with its capability and payment hash and a preimage that hashes to
  -- that hash are verified, from the time of issue until the challenge expires.
  pub verify_proof-issue :
      (key : Text) (input : ChallengeInput) (nonce issued_at : Text) (challenge : Fl402Challenge)
      → issue_fl402_challenge rt hashes key input nonce issued_at ≡ ok challenge
      → (preimage : Text)
      → parse_fl402_proof (proof_for challenge preimage) ≡ ok (proof_for challenge preimage)
      → normalize_hex (hash_payment_preimage rt hashes preimage challenge.hash_algorithm)
        ≡ normalize_hex challenge.payment_hash
      → (now : Option Text) (clock : ℕ)
      → is_valid_at
          (now_ms rt hashes now clock)
          (rt.get_time issued_at)
          (rt.get_time challenge.expires_at)
        ≡ true
      → verify_fl402_proof rt hashes challenge (proof_for challenge preimage) key now clock
        ≡ ok (payload_for rt hashes lawful digests (caveats_for rt hashes input) nonce issued_at)
  verify_proof-issue key input nonce issued_at challenge h preimage =
      let (capability, made, same, valid) =
        issue_challenge_lem key input nonce issued_at challenge h in
      subst
        (λ c.
          parse_fl402_proof (proof_for c preimage) ≡ ok (proof_for c preimage)
          → normalize_hex (hash_payment_preimage rt hashes preimage c.hash_algorithm)
            ≡ normalize_hex c.payment_hash
          → (now : Option Text) (clock : ℕ)
          → is_valid_at (now_ms rt hashes now clock) (rt.get_time issued_at)
              (rt.get_time c.expires_at)
            ≡ true
          → verify_fl402_proof rt hashes c (proof_for c preimage) key now clock
            ≡ ok (
                payload_for rt hashes lawful digests (caveats_for rt hashes input) nonce issued_at))
        (sym same)
        (λ allowed fits now clock.
          verify_issued key input nonce issued_at capability preimage now clock made valid allowed
            fits)
