-- ===== src/Fl402/Types.antt =====
-- packages/fl402-compat/src/index.ts: the schemas as tests of a value of the inferred type, with the
-- defaults filled in, and what the package takes from other libraries.
use fiber_paid_http.Prelude.{
  Text, text, ◌==◌, Bool, ◌&&◌, ◌||◌, not, Option, [], ◌∷◌, length, ltb, eqb, lower, if◌then◌else◌,
  Result, ok, err, plain_error,
}
use fiber_paid_http.Core.Types.{FiberNetwork, FiberHashAlgorithm}
use fiber_paid_http.Core.Runtime.{Runtime}
use fiber_paid_http.Core.Schemas.{all, is_hex, nonempty, is_positive_decimal}

-- Hashes of node:crypto and @noble/hashes, in hex without a prefix.
pub record Hashes : Type 0 where
  -- `createHmac("sha256", key).update(input).digest("hex")`
  pub hmac_hex : Text → Text → Text
  -- `createHash("sha256").update(Buffer.from(hex, "hex")).digest("hex")`
  pub sha256_of_hex : Text → Text
  -- `blake2b(Buffer.from(hex, "hex"), …)` with the personalization "ckb-default-hash"
  pub blake2b_of_hex : Text → Text

abbrev pub fl402_auth_scheme : Text
fl402_auth_scheme = text "L402"

abbrev pub fl402_capability_prefix : Text
fl402_capability_prefix = text "fiber-l402-capability-v1"

-- `value.replace(/^0x/i, "")`
unfoldable pub strip_prefix : Text → Text
strip_prefix [] = []
strip_prefix (z ∷ []) = z ∷ []
strip_prefix (z ∷ x ∷ s) = if eqb z b'0' && (eqb x b'x' || eqb x b'X') then s else z ∷ x ∷ s

unfoldable pub normalize_hex : Text → Text
unfolding strip_prefix
normalize_hex value = b'0' ∷ b'x' ∷ lower (strip_prefix value)

-- Hex32Schema: /^(0x)?[a-f0-9]{64}$/i
unfoldable pub is_hex_32 : Text → Bool
unfolding strip_prefix
is_hex_32 s = eqb (length (strip_prefix s)) 64 && all is_hex (strip_prefix s)

pub record Fl402Caveats : Type 0 where
  pub challenge_id : Text
  pub resource_hash : Text
  pub method : Text
  pub url : Text
  pub amount : Text
  pub currency : Text
  pub payment_hash : Text
  pub invoice : Text
  pub expires_at : Text
  pub issuer : Option Text
  pub fiber_node_id : Option Text
  pub network : FiberNetwork
  pub hash_algorithm : FiberHashAlgorithm

pub record Fl402CapabilityPayload : Type 0 where
  pub domain : Text
  pub caveats : Fl402Caveats
  pub nonce : Text
  pub issued_at : Text

pub record Fl402Challenge : Type 0 where
  pub challenge_id : Text
  pub capability : Text
  pub invoice : Text
  pub payment_hash : Text
  pub amount : Text
  pub currency : Text
  pub expires_at : Text
  pub resource : Option Text
  pub resource_hash : Text
  pub issuer : Option Text
  pub fiber_node_id : Option Text
  pub network : FiberNetwork
  pub hash_algorithm : FiberHashAlgorithm

pub record Fl402Proof : Type 0 where
  pub capability : Text
  pub preimage : Text
  pub payment_hash : Text
  pub hash_algorithm : FiberHashAlgorithm

-- FL402ProofSchema
unfoldable pub parse_fl402_proof : Fl402Proof → Result Fl402Proof
parse_fl402_proof p =
    if nonempty p.capability && is_hex_32 p.preimage && is_hex_32 p.payment_hash
    then ok p
    else err (plain_error (text "ZodError"))

module _ (rt : Runtime) where
  unfoldable pub is_fl402_caveats : Fl402Caveats → Bool
  is_fl402_caveats c =
      nonempty c.challenge_id
      && not (ltb (length c.resource_hash) 32)
      && nonempty c.method
      && nonempty c.url
      && is_positive_decimal c.amount
      && nonempty c.currency
      && is_hex_32 c.payment_hash
      && nonempty c.invoice
      && rt.is_datetime c.expires_at

  -- FL402CaveatsSchema
  unfoldable pub parse_fl402_caveats : Fl402Caveats → Result Fl402Caveats
  parse_fl402_caveats c = if is_fl402_caveats c then ok c else err (plain_error (text "ZodError"))

  -- FL402CapabilityPayloadSchema
  unfoldable pub parse_fl402_capability_payload :
      Fl402CapabilityPayload → Result Fl402CapabilityPayload
  parse_fl402_capability_payload p =
      if p.domain == fl402_capability_prefix
        && is_fl402_caveats p.caveats
        && not (ltb (length p.nonce) 16)
        && rt.is_datetime p.issued_at
      then ok p
      else err (plain_error (text "ZodError"))

  -- FL402ChallengeSchema
  unfoldable pub parse_fl402_challenge : Fl402Challenge → Result Fl402Challenge
  parse_fl402_challenge c =
      if nonempty c.challenge_id
        && nonempty c.capability
        && nonempty c.invoice
        && is_hex_32 c.payment_hash
        && is_positive_decimal c.amount
        && rt.is_datetime c.expires_at
        && not (ltb (length c.resource_hash) 32)
      then ok c
      else err (plain_error (text "ZodError"))
