-- ===== src/X402/Types.antt =====
-- packages/x402-compat/src/index.ts: the schemas as tests of values in the shape that they describe,
-- and what is read of the messages of @x402/core. A number is natural: the schema refuses any other.
use fiber_paid_http.Prelude.{
  ℕ, zero, suc, ◌+◌, ◌/◌, ◌%◌, Text, text, ◌==◌, Bool, true, false, ◌&&◌, ◌||◌, not, Option, List,
  [], ◌∷◌, drop, take, length, ltb, eqb, if◌then◌else◌, Result, ok, err, plain_error,
}
use fiber_paid_http.Core.JsonValue.{Json, object, string, number, Members, end, member}
use fiber_paid_http.Core.Types.{FiberUdtTypeScript, FiberHashAlgorithm, FiberCredentialPayload}
use fiber_paid_http.Core.Json.{optional, optional_script, algorithm_name}
use fiber_paid_http.Core.Runtime.{Runtime}
use fiber_paid_http.Core.Schemas.{
  all, nonempty, opt_all, is_lower_alpha, is_digit, is_hash, is_hex_text, is_positive_decimal,
  is_udt_type_script,
}

abbrev pub x402_version : ℕ
x402_version = 2

abbrev pub x402_fiber_scheme : Text
x402_fiber_scheme = text "exact"

abbrev pub x402_fiber_profile : Text
x402_fiber_profile = text "fiber-charge-v1"

-- X402FiberDetailsSchema
pub record X402FiberDetails : Type 0 where
  pub profile : Text
  pub currency : Text
  pub description : Option Text
  pub external_id : Option Text
  pub invoice : Text
  pub invoice_currency : Option Text
  pub invoice_expires_at : Option Text
  pub invoice_udt_script : Option Text
  pub payment_hash : Text
  pub hash_algorithm : FiberHashAlgorithm
  pub udt_type_script : Option FiberUdtTypeScript

-- X402FiberRequirementsSchema
pub record X402FiberRequirements : Type 0 where
  pub scheme : Text
  pub network : Text
  pub amount : Text
  pub asset : Text
  pub pay_to : Text
  pub max_timeout_seconds : ℕ
  pub fiber : X402FiberDetails

-- X402FiberNetworkSchema
unfoldable pub is_x402_network : Text → Bool
is_x402_network s = s == text "fiber:mainnet" || s == text "fiber:testnet" || s == text "fiber:dev"

-- /^fiber:[a-z0-9._-]+$/
unfoldable pub is_asset : Text → Bool
is_asset s =
    take 6 s == text "fiber:"
    && nonempty (drop 6 s)
    && all (λ c. is_lower_alpha c || is_digit c || eqb c b'.' || eqb c b'_' || eqb c b'-')
        (drop 6 s)

-- X402FiberPaymentPayloadSchema, which is strict
abbrev pub is_end : Members → Bool
is_end end = true
is_end (member key value rest) = false

unfoldable pub parse_x402_payload : FiberCredentialPayload → Result FiberCredentialPayload
parse_x402_payload p =
    if is_hash p.payment_hash && is_end p.extra then ok p else err (plain_error (text "ZodError"))

module _ (rt : Runtime) where
  unfoldable pub is_x402_details : X402FiberDetails → Bool
  is_x402_details d =
      d.profile == x402_fiber_profile
      && nonempty d.currency
      && opt_all nonempty d.description
      && opt_all nonempty d.external_id
      && nonempty d.invoice
      && opt_all nonempty d.invoice_currency
      && opt_all rt.is_datetime d.invoice_expires_at
      && opt_all (λ s. is_hex_text s && ltb 2 (length s)) d.invoice_udt_script
      && is_hash d.payment_hash
      && is_udt_type_script d.udt_type_script

  unfoldable pub parse_x402_requirements : X402FiberRequirements → Result X402FiberRequirements
  unfolding is_x402_details
  parse_x402_requirements r =
      if r.scheme == x402_fiber_scheme
        && is_x402_network r.network
        && is_positive_decimal r.amount
        && is_asset r.asset
        && nonempty r.pay_to
        && ltb 0 r.max_timeout_seconds
        && not (ltb 86400 r.max_timeout_seconds)
        && is_x402_details r.fiber
      then ok r
      else err (plain_error (text "ZodError"))

-- A number below 10 ^ fuel in decimal digits.
unfoldable digits : ℕ → ℕ → Text → Text
digits zero n later = later
digits (suc fuel) n later =
    let more = digits fuel (n / 10) ((b'0' + n % 10) ∷ later) in
    if ltb n 10 then (b'0' + n) ∷ later else more

-- The requirements as `canonicalJson` is given them. A timeout has at most five digits.
unfoldable pub requirements_json : X402FiberRequirements → Json
unfolding digits
requirements_json r = object (
    member (text "scheme") (string r.scheme) (
      member (text "network") (string r.network) (
        member (text "amount") (string r.amount) (
          member (text "asset") (string r.asset) (
            member (text "payTo") (string r.pay_to) (
              member (text "maxTimeoutSeconds") (number (digits 5 r.max_timeout_seconds [])) (
                member (text "extra")
                  (object (
                    member (text "fiber")
                      (object (
                        member (text "profile") (string r.fiber.profile) (
                          member (text "currency") (string r.fiber.currency) (
                            optional (text "description") r.fiber.description (
                              optional (text "externalId") r.fiber.external_id (
                                member (text "invoice") (string r.fiber.invoice) (
                                  optional (text "invoiceCurrency") r.fiber.invoice_currency (
                                    optional (text "invoiceExpiresAt") r.fiber.invoice_expires_at (
                                      optional (text "invoiceUdtScript") r.fiber.invoice_udt_script
                                        (member (text "paymentHash") (string r.fiber.payment_hash) (
                                          member (text "hashAlgorithm")
                                            (string (algorithm_name r.fiber.hash_algorithm))
                                            (optional_script r.fiber.udt_type_script))))))))))))
                      end))
                  end)))))))

pub record ResourceInfo : Type 0 where
  pub url : Text
  pub description : Option Text

-- `extensions.fiber` of a message
pub record ChallengeExtension : Type 0 where
  pub profile : Text
  pub challenge_id : Text
  pub expires : Option Text
  pub digest : Option Text

pub record PaymentRequired : Type 0 where
  pub version : ℕ
  pub error : Option Text
  pub resource : Option ResourceInfo
  pub accepts : List X402FiberRequirements
  pub fiber : Option ChallengeExtension

pub record PaymentPayload : Type 0 where
  pub version : ℕ
  pub resource : Option ResourceInfo
  pub accepted : X402FiberRequirements
  pub payload : FiberCredentialPayload

pub record SettleResponse : Type 0 where
  pub success : Bool
  pub transaction : Text
  pub network : Text
  pub amount : Text
  pub profile : Text
  pub challenge_id : Text
  pub receipt_timestamp : Text
