-- ===== src/Fl402/Caveats.antt =====
-- packages/fl402-compat/src/index.ts: what a capability's payload is read as after it was printed.
use fiber_paid_http.Prelude.{◌≡◌, refl, ap, ◌∙◌, Text, text, ◌==◌, Option, some, ok, ◌>>=◌}
use fiber_paid_http.Core.JsonValue.{Json, string, Members, end, member}
use fiber_paid_http.Core.Types.{FiberNetwork, FiberHashAlgorithm}
use fiber_paid_http.Core.Json.{network_name, algorithm_name, optional}
use fiber_paid_http.Core.Runtime.{Runtime}
use fiber_paid_http.Core.Encoding.{get}
use fiber_paid_http.Core.ChargeEncoding.{network_of, algorithm_of}
use fiber_paid_http.Core.Tokens.SameJson.{
  SameJson, SameMember, neither, both, same_members, read_text, read_optional, read_object,
  string_option,
}
use fiber_paid_http.Core.Tokens.ReadBack.{get_skipped, get_found}
use fiber_paid_http.Core.Tokens.ChargeTokens.{network_of-network_name, algorithm_of-algorithm_name}
use fiber_paid_http.Fl402.Types.{
  Hashes, Fl402Caveats, Fl402CapabilityPayload, parse_fl402_capability_payload,
}
use fiber_paid_http.Fl402.Capability.{
  caveats_json, payload_json, network_or_dev, algorithm_or_ckb_hash, caveats_of_json,
  payload_of_json,
}

read_network :
    (n : FiberNetwork) (o p : Option Json)
    → SameMember o p
    → o ≡ some (string (network_name n))
    → network_or_dev p ≡ ok n
read_network n o p neither e = absurd cc
read_network n o p (both v w h) e =
    ap (λ t. t >>= network_of) (read_text (network_name n) _ _ (both v w h) e)
    ∙ network_of-network_name n

read_algorithm :
    (a : FiberHashAlgorithm) (o p : Option Json)
    → SameMember o p
    → o ≡ some (string (algorithm_name a))
    → algorithm_or_ckb_hash p ≡ ok a
read_algorithm a o p neither e = absurd cc
read_algorithm a o p (both v w h) e =
    ap (λ t. t >>= algorithm_of) (read_text (algorithm_name a) _ _ (both v w h) e)
    ∙ algorithm_of-algorithm_name a

module _ (issuer node : Option Text) (network algorithm : Text) where
  abbrev tail : Members
  tail = optional (text "issuer") issuer (
      optional (text "fiberNodeId") node (
        member (text "network") (string network)
          (member (text "hashAlgorithm") (string algorithm) end)))

  get-issuer : get (text "issuer") tail ≡ string_option issuer
  unfolding text ◌==◌ get
  get-issuer =
      get_found (text "issuer") issuer _
        (get_skipped (text "issuer") (text "fiberNodeId") node _ refl)

  get-node : get (text "fiberNodeId") tail ≡ string_option node
  unfolding text ◌==◌ get
  get-node =
      get_skipped (text "fiberNodeId") (text "issuer") issuer _ refl
      ∙ get_found (text "fiberNodeId") node _ refl

  get-network : get (text "network") tail ≡ some (string network)
  unfolding text ◌==◌ get
  get-network =
      get_skipped (text "network") (text "issuer") issuer _ refl
      ∙ get_skipped (text "network") (text "fiberNodeId") node _ refl

  get-algorithm : get (text "hashAlgorithm") tail ≡ some (string algorithm)
  unfolding text ◌==◌ get
  get-algorithm =
      get_skipped (text "hashAlgorithm") (text "issuer") issuer _ refl
      ∙ get_skipped (text "hashAlgorithm") (text "fiberNodeId") node _ refl

read_caveats :
    (c : Fl402Caveats) (o p : Option Json)
    → SameMember o p
    → o ≡ some (caveats_json c)
    → caveats_of_json p ≡ ok c
unfolding caveats_of_json caveats_json get text ◌==◌
read_caveats c o p h e =
    let (n, same, members) = read_object _ o p h e in
    let network = network_name c.network in
    let algorithm = algorithm_name c.hash_algorithm in
    let issuer = get-issuer c.issuer c.fiber_node_id network algorithm in
    let node = get-node c.issuer c.fiber_node_id network algorithm in
    let network_member = get-network c.issuer c.fiber_node_id network algorithm in
    let algorithm_member = get-algorithm c.issuer c.fiber_node_id network algorithm in
    rw same (
      rw
        (
          read_text c.challenge_id _ _ (members (text "challengeId")) refl,
          read_text c.resource_hash _ _ (members (text "resourceHash")) refl,
          read_text c.method _ _ (members (text "method")) refl,
          read_text c.url _ _ (members (text "url")) refl,
          read_text c.amount _ _ (members (text "amount")) refl,
          read_text c.currency _ _ (members (text "currency")) refl,
          read_text c.payment_hash _ _ (members (text "paymentHash")) refl,
          read_text c.invoice _ _ (members (text "invoice")) refl,
          read_text c.expires_at _ _ (members (text "expiresAt")) refl,
          read_optional c.issuer _ _ (members (text "issuer")) issuer,
          read_optional c.fiber_node_id _ _ (members (text "fiberNodeId")) node,
          read_network c.network _ _ (members (text "network")) network_member,
          read_algorithm c.hash_algorithm _ _ (members (text "hashAlgorithm")) algorithm_member,
        )
        refl)

-- A printed payload is read as itself, if the schema allows it.
pub payload_of_json_same :
    (rt : Runtime) (hashes : Hashes) (p : Fl402CapabilityPayload) (w : Json)
    → SameJson (payload_json p) w
    → payload_of_json rt hashes w ≡ parse_fl402_capability_payload rt p
unfolding payload_json payload_of_json get text ◌==◌
payload_of_json_same rt hashes p w h =
    let (n, same, members) = same_members _ w h in
    rw same (
      rw
        (
          read_text p.domain _ _ (members (text "domain")) refl,
          read_caveats p.caveats _ _ (members (text "caveats")) refl,
          read_text p.nonce _ _ (members (text "nonce")) refl,
          read_text p.issued_at _ _ (members (text "issuedAt")) refl,
        )
        refl)
