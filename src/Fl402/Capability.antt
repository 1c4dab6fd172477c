-- ===== src/Fl402/Capability.antt =====
-- packages/fl402-compat/src/index.ts: `issueFl402Capability`, `decodeFl402Capability` and
-- `verifyFl402Capability`.
use fiber_paid_http.Prelude.{
  ℕ, Text, text, ◌==◌, Bool, false, ◌||◌, not, Option, none, some, List, [], ◌∷◌, ◌++◌, length, ltb,
  eqb, truthy, if◌then◌else◌, Result, ok, err, plain_error, ensure, ◌>>=◌, ◌>>◌,
}
use fiber_paid_http.Core.JsonValue.{Json, object, string, end, member}
use fiber_paid_http.Core.Types.{FiberNetwork, dev, FiberHashAlgorithm, ckb_hash}
use fiber_paid_http.Core.Json.{optional, network_name, algorithm_name}
use fiber_paid_http.Core.Runtime.{Runtime}
use fiber_paid_http.Core.Encoding.{
  zod_error, get, text_of, optional_text_of, base64url_decode, encode_json_base64url, json_of,
}
use fiber_paid_http.Core.ChargeEncoding.{network_of, algorithm_of}
use fiber_paid_http.Core.Crypto.{timing_safe_equal_string}
use fiber_paid_http.Fl402.Types.{
  Hashes, fl402_capability_prefix, Fl402Caveats, Fl402CapabilityPayload,
  parse_fl402_capability_payload,
}

unfoldable pub caveats_json : Fl402Caveats → Json
caveats_json c = object (
    member (text "challengeId") (string c.challenge_id) (
      member (text "resourceHash") (string c.resource_hash) (
        member (text "method") (string c.method) (
          member (text "url") (string c.url) (
            member (text "amount") (string c.amount) (
              member (text "currency") (string c.currency) (
                member (text "paymentHash") (string c.payment_hash) (
                  member (text "invoice") (string c.invoice) (
                    member (text "expiresAt") (string c.expires_at) (
                      optional (text "issuer") c.issuer (
                        optional (text "fiberNodeId") c.fiber_node_id (
                          member (text "network") (string (network_name c.network)) (
                            member (text "hashAlgorithm") (string (algorithm_name c.hash_algorithm))
                              end)))))))))))))

unfoldable pub payload_json : Fl402CapabilityPayload → Json
payload_json p = object (
    member (text "domain") (string p.domain) (
      member (text "caveats") (caveats_json p.caveats) (
        member (text "nonce") (string p.nonce)
          (member (text "issuedAt") (string p.issued_at) end))))

-- A member with a default.
abbrev pub network_or_dev : Option Json → Result FiberNetwork
network_or_dev none = ok dev
network_or_dev (some v) = text_of (some v) >>= network_of

abbrev pub algorithm_or_ckb_hash : Option Json → Result FiberHashAlgorithm
algorithm_or_ckb_hash none = ok ckb_hash
algorithm_or_ckb_hash (some v) = text_of (some v) >>= algorithm_of

unfoldable pub caveats_of_json : Option Json → Result Fl402Caveats
unfolding get network_of algorithm_of
caveats_of_json (some (object m)) = do
  challenge_id ← text_of (get (text "challengeId") m)
  resource_hash ← text_of (get (text "resourceHash") m)
  method ← text_of (get (text "method") m)
  url ← text_of (get (text "url") m)
  amount ← text_of (get (text "amount") m)
  currency ← text_of (get (text "currency") m)
  payment_hash ← text_of (get (text "paymentHash") m)
  invoice ← text_of (get (text "invoice") m)
  expires_at ← text_of (get (text "expiresAt") m)
  issuer ← optional_text_of (get (text "issuer") m)
  fiber_node_id ← optional_text_of (get (text "fiberNodeId") m)
  network ← network_or_dev (get (text "network") m)
  hash_algorithm ← algorithm_or_ckb_hash (get (text "hashAlgorithm") m)
  ok (record {
    challenge_id = challenge_id;
    resource_hash = resource_hash;
    method = method;
    url = url;
    amount = amount;
    currency = currency;
    payment_hash = payment_hash;
    invoice = invoice;
    expires_at = expires_at;
    issuer = issuer;
    fiber_node_id = fiber_node_id;
    network = network;
    hash_algorithm = hash_algorithm;
  })
caveats_of_json _ = zod_error

-- `capability.split(".")`
unfoldable pub split_dots : Text → List Text
split_dots [] = [] ∷ []
split_dots (c ∷ s) =
    let rest = split_dots s in
    if eqb c b'.' then [] ∷ rest else elim rest [ [] ↦ (c ∷ []) ∷ [] | (t ∷ ts) ↦ (c ∷ t) ∷ ts ]

-- `const [prefix, encoded, signature, extra]` and the test of these
unfoldable pub parts_of : List Text → Option (Text × Text)
parts_of (prefix ∷ (e ∷ encoded) ∷ (d ∷ signature) ∷ []) =
    if prefix == fl402_capability_prefix then some (e ∷ encoded, d ∷ signature) else none
parts_of (prefix ∷ (e ∷ encoded) ∷ (d ∷ signature) ∷ [] ∷ rest) =
    if prefix == fl402_capability_prefix then some (e ∷ encoded, d ∷ signature) else none
parts_of _ = none

abbrev pub known_parts : Option (Text × Text) → Result (Text × Text)
known_parts none = err (plain_error (text "invalid-fl402-capability"))
known_parts (some parts) = ok parts

-- `issuedMs > nowMs || nowMs > expiresMs`, and NaN, negated
abbrev pub is_valid_at : Option ℕ → Option ℕ → Option ℕ → Bool
is_valid_at none issued expires = false
is_valid_at (some now) none expires = false
is_valid_at (some now) (some issued) none = false
is_valid_at (some now) (some issued) (some expires) = not (ltb now issued || ltb expires now)

module _ (rt : Runtime) (hashes : Hashes) where
  unfoldable pub payload_of_json : Json → Result Fl402CapabilityPayload
  unfolding get caveats_of_json
  payload_of_json (object m) = do
    domain ← text_of (get (text "domain") m)
    caveats ← caveats_of_json (get (text "caveats") m)
    nonce ← text_of (get (text "nonce") m)
    issued_at ← text_of (get (text "issuedAt") m)
    parse_fl402_capability_payload rt
        (record { domain = domain; caveats = caveats; nonce = nonce; issued_at = issued_at })
  payload_of_json _ = zod_error

  unfoldable pub assert_fl402_root_key : Text → Result (Unit {0})
  assert_fl402_root_key root_key =
      ensure (not (ltb (length (rt.utf8_encode root_key)) 32))
        (plain_error (text "fl402-root-key-too-short"))

  -- `hmacHex(rootKey, payload)`
  abbrev pub sign : Text → Fl402CapabilityPayload → Text
  sign root_key payload = hashes.hmac_hex root_key (rt.canonical_json (payload_json payload))

  -- `nonce` and `issuedAt` are given, drawn at random and read from the clock where the input has none.
  unfoldable pub issue_fl402_capability : Text → Fl402Caveats → Text → Text → Result Text
  unfolding assert_fl402_root_key encode_json_base64url
  issue_fl402_capability root_key caveats nonce issued_at = do
    assert_fl402_root_key root_key
    payload ← parse_fl402_capability_payload rt (record {
      domain = fl402_capability_prefix;
      caveats = caveats;
      nonce = nonce;
      issued_at = issued_at;
    })
    ok (
        fl402_capability_prefix
        ++ (b'.'
            ∷ (encode_json_base64url rt (payload_json payload) ++ (b'.' ∷ sign root_key payload))))

  unfoldable pub decode_fl402_capability : Text → Result (Fl402CapabilityPayload × Text)
  unfolding split_dots parts_of base64url_decode payload_of_json encode_json_base64url
  decode_fl402_capability capability = do
    (encoded, signature) ← known_parts (parts_of (split_dots capability))
    bytes ← base64url_decode rt encoded
    value ← json_of (rt.parse_json (rt.utf8_decode bytes))
    payload ← payload_of_json value
    ensure (encode_json_base64url rt (payload_json payload) == encoded)
        (plain_error (text "invalid-fl402-capability"))
    ok (payload, signature)

  -- `input.now ? new Date(input.now).getTime() : Date.now()`
  abbrev pub now_ms : Option Text → ℕ → Option ℕ
  now_ms now clock = elim (truthy now) [ none ↦ some clock | some given ↦ rt.get_time given ]

  unfoldable pub verify_fl402_capability :
      Text → Text → Option Text → ℕ → Result Fl402CapabilityPayload
  unfolding assert_fl402_root_key decode_fl402_capability timing_safe_equal_string
  verify_fl402_capability capability root_key now clock = do
    assert_fl402_root_key root_key
    (payload, signature) ← decode_fl402_capability capability
    ensure (timing_safe_equal_string rt (sign root_key payload) signature)
        (plain_error (text "bad-fl402-capability-signature"))
    ensure
        (is_valid_at (now_ms now clock) (rt.get_time payload.issued_at)
          (rt.get_time payload.caveats.expires_at))
        (plain_error (text "expired-fl402-capability"))
    ok payload
