-- ===== src/Core/Json.antt =====
-- The JSON of each record that is serialised: a member that is `undefined` is
-- left out, as `JSON.stringify` and JCS do.
use fiber_paid_http.Prelude.{Text, text, Option, none, some, List, [], ◌∷◌}
use fiber_paid_http.Core.JsonValue.{Json, object, string, Members, end, member}
use fiber_paid_http.Core.Types.{
  ResourceDescriptor, FiberUdtTypeScript, FiberNetwork, mainnet, testnet, dev, FiberHashAlgorithm,
  ckb_hash, sha256, FiberChargeMethodDetails, FiberChargeRequest, PaymentChallenge,
  PaymentCredential, PaymentReceipt,
}

abbrev pub optional : Text → Option Text → Members → Members
optional key none rest = rest
optional key (some value) rest = member key (string value) rest

abbrev pub custom_members : List (Text × Text) → Members
custom_members [] = end
custom_members ((key, value) ∷ rest) = member key (string value) (custom_members rest)

pub challenge_json : PaymentChallenge → Json
challenge_json c = object (
    member (text "id") (string c.id) (
      member (text "realm") (string c.realm) (
        member (text "method") (string c.method) (
          member (text "intent") (string c.intent) (
            member (text "request") (string c.request) (
              optional (text "expires") c.expires (
                optional (text "digest") c.digest (
                  optional (text "description") c.description
                    (optional (text "opaque") c.opaque (custom_members c.custom))))))))))

pub resource_json : ResourceDescriptor → Json
resource_json r = object (
    member (text "method") (string r.method) (
      member (text "url") (string r.url)
        (optional (text "digest") r.digest (optional (text "contentType") r.content_type end))))

abbrev pub network_name : FiberNetwork → Text
network_name mainnet = text "mainnet"
network_name testnet = text "testnet"
network_name dev = text "dev"

abbrev pub algorithm_name : FiberHashAlgorithm → Text
algorithm_name ckb_hash = text "ckb_hash"
algorithm_name sha256 = text "sha256"

unfoldable pub script_json : FiberUdtTypeScript → Json
script_json s = object (
    member (text "code_hash") (string s.code_hash)
      (member (text "hash_type") (string s.hash_type) (member (text "args") (string s.args) end)))

abbrev pub optional_script : Option FiberUdtTypeScript → Members
optional_script none = end
optional_script (some s) = member (text "udtTypeScript") (script_json s) end

unfoldable pub details_json : FiberChargeMethodDetails → Json
unfolding script_json
details_json d = object (
    member (text "invoice") (string d.invoice) (
      member (text "paymentHash") (string d.payment_hash) (
        member (text "network") (string (network_name d.network)) (
          member (text "hashAlgorithm") (string (algorithm_name d.hash_algorithm)) (
            optional (text "invoiceCurrency") d.invoice_currency (
              optional (text "invoiceExpiresAt") d.invoice_expires_at (
                optional (text "invoiceUdtScript") d.invoice_udt_script
                  (optional_script d.udt_type_script))))))))

unfoldable pub charge_json : FiberChargeRequest → Json
unfolding details_json script_json
charge_json r = object (
    member (text "amount") (string r.amount) (
      member (text "currency") (string r.currency) (
        optional (text "recipient") r.recipient (
          optional (text "description") r.description (
            optional (text "externalId") r.external_id
              (member (text "methodDetails") (details_json r.method_details) end))))))

pub credential_json : PaymentCredential → Json
credential_json c = object (
    member (text "challenge") (challenge_json c.challenge) (
      optional (text "source") c.source (
        member (text "payload")
          (object (member (text "paymentHash") (string c.payload.payment_hash) c.payload.extra))
          c.extra)))

unfoldable pub receipt_json : PaymentReceipt → Json
receipt_json r = object (
    member (text "status") (string r.status) (
      member (text "method") (string r.method) (
        member (text "timestamp") (string r.timestamp) (
          member (text "reference") (string r.reference)
            (member (text "challengeId") (string r.challenge_id) end)))))
