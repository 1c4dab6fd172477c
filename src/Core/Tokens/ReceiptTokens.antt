-- ===== src/Core/Tokens/ReceiptTokens.antt =====
-- packages/core/src/encoding.ts: `encodeReceipt` and `decodeReceipt`.
use fiber_paid_http.Prelude.{◌≤◌, ◌≡◌, ◌∙◌, refl, Text, text, ◌==◌, false, length, ltb, arith, ok}
use fiber_paid_http.Core.JsonValue.{Json}
use fiber_paid_http.Core.Types.{PaymentReceipt}
use fiber_paid_http.Core.Json.{receipt_json}
use fiber_paid_http.Core.Runtime.{Runtime}
use fiber_paid_http.Core.Schemas.{parse_payment_receipt}
use fiber_paid_http.Core.Encoding.{
  get, max_mpp_token_length, encode_json_base64url, receipt_of_json, encode_receipt, decode_receipt,
}
use fiber_paid_http.Core.Tokens.SameJson.{SameJson, same_members, read_text}
use fiber_paid_http.Core.Tokens.Lawful.{IsLawful}
use fiber_paid_http.Core.Tokens.ReadBack.{decode-encode_json}

receipt_of_json_same :
    (rt : Runtime) (r : PaymentReceipt) (w : Json)
    → SameJson (receipt_json r) w
    → receipt_of_json rt w ≡ parse_payment_receipt rt r
unfolding receipt_json receipt_of_json get text ◌==◌
receipt_of_json_same rt r w h =
    let (n, same, members) = same_members _ w h in
    rw same (
      rw
        (
          read_text r.status _ _ (members (text "status")) refl,
          read_text r.method _ _ (members (text "method")) refl,
          read_text r.timestamp _ _ (members (text "timestamp")) refl,
          read_text r.reference _ _ (members (text "reference")) refl,
          read_text r.challenge_id _ _ (members (text "challengeId")) refl,
        )
        refl)

encode_receipt_lem :
    (rt : Runtime) (r : PaymentReceipt) (token : Text)
    → encode_receipt rt r ≡ ok token
    → (parse_payment_receipt rt r ≡ ok r) × (encode_json_base64url rt (receipt_json r) ≡ token)
unfolding encode_receipt parse_payment_receipt
encode_receipt_lem rt r token h = ground arith

-- On a lawful platform a receipt that was encoded decodes to itself, where its token is not longer
-- than the limit of MPP tokens.
pub decode-encode_receipt :
    (rt : Runtime) (r : PaymentReceipt) (token : Text)
    → IsLawful rt
    → encode_receipt rt r ≡ ok token
    → length token ≤ max_mpp_token_length
    → decode_receipt rt token ≡ ok r
unfolding decode_receipt
decode-encode_receipt rt r token lawful h short =
    let (valid, e) = encode_receipt_lem rt r token h in
    let limit : ltb max_mpp_token_length (length token) ≡ false = ground arith in
    rw limit (
      rw (← e) (
        rw (decode-encode_json rt lawful (receipt_json r)) (
          receipt_of_json_same rt r (lawful.read_back (receipt_json r))
            (lawful.same (receipt_json r))
          ∙ valid)))
