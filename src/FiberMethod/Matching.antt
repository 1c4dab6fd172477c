-- ===== src/FiberMethod/Matching.antt =====
-- packages/fiber-method/src/index.ts: `assertInvoiceMatches`. A member of the input that is not given
-- is none.
use fiber_paid_http.Prelude.{
  ℕ, Text, text, ◌==◌, opt_eq, Bool, true, false, ◌&&◌, ◌||◌, not, Option, none, some, lower, ltb,
  truthy, Result, ok, err, ◌>>=◌, ◌>>◌, ensure, fail_with, Failure,
}
use fiber_paid_http.Core.Types.{
  FiberNetwork, FiberHashAlgorithm, ckb_hash, sha256, FiberUdtTypeScript,
}
use fiber_paid_http.Core.Runtime.{Runtime}
use fiber_paid_http.FiberMethod.Status.{same_network, fiber_network_from_currency}
use fiber_paid_http.FiberMethod.Script.{serialize_fiber_udt_type_script}
use fiber_paid_http.FiberMethod.Invoice.{
  FiberInvoiceResult, Numerals, currency_of, extract_invoice_payment_hash, extract_invoice_amount,
  extract_invoice_udt_script, extract_invoice_expires_at, invoice_hash_algorithm,
}

pub record Expected : Type 0 where
  pub invoice_address : Option Text
  pub payment_hash : Text
  pub amount : Text
  pub currency : Text
  pub network : FiberNetwork
  pub hash_algorithm : FiberHashAlgorithm
  pub udt_type_script : Option FiberUdtTypeScript
  pub invoice_expires_at : Option Text
  pub invoice_udt_script : Option Text
  pub require_unexpired : Bool

unfoldable pub same_hex_32 : Text → Text → Bool
same_hex_32 left right = lower left == lower right

abbrev pub same_algorithm : FiberHashAlgorithm → FiberHashAlgorithm → Bool
same_algorithm ckb_hash ckb_hash = true
same_algorithm sha256 sha256 = true
same_algorithm _ _ = false

-- `!expected || actual === expected`
abbrev pub agrees : Option Text → Option Text → Bool
agrees none actual = true
agrees (some expected) actual = opt_eq actual (some expected)

abbrev lower_option : Option Text → Option Text
lower_option none = none
lower_option (some s) = some (lower s)

abbrev wrong : Text → Text → Failure
wrong code message = fail_with code message 402

abbrev present : Option Text → Failure → Result Text
present none e = err e
present (some s) e = ok s

abbrev serialized : Option FiberUdtTypeScript → Result (Option Text)
serialized none = ok none
serialized (some script) = serialize_fiber_udt_type_script script >>= λ s. ok (some (lower s))

-- `Date.parse(expiresAt) <= Date.now()`, negated; a text that is no date is not refused
abbrev is_future : Option ℕ → ℕ → Bool
is_future none now = true
is_future (some at) now = ltb now at

unfoldable pub assert_invoice_matches :
    Runtime → Numerals → FiberInvoiceResult → Expected → ℕ → Result (Unit {0})
unfolding same_hex_32 serialize_fiber_udt_type_script fiber_network_from_currency
assert_invoice_matches rt numerals invoice expected now = do
  ensure (agrees (truthy expected.invoice_address) invoice.invoice_address)
      (wrong (text "wrong-invoice") (text "Fiber invoice address does not match the challenge"))
  payment_hash ← extract_invoice_payment_hash invoice
  ensure (same_hex_32 payment_hash expected.payment_hash) (
      wrong (text "wrong-payment-hash")
        (text "Fiber invoice payment hash does not match the challenge"))
  amount ← extract_invoice_amount rt numerals invoice
  ensure (opt_eq (truthy amount) (some expected.amount))
      (wrong (text "wrong-amount") (text "Fiber invoice amount does not match the challenge"))
  currency ←
      present (truthy (currency_of invoice))
        (wrong (text "wrong-currency") (text "Fiber invoice currency does not match the challenge"))
  ensure (lower currency == lower expected.currency)
      (wrong (text "wrong-currency") (text "Fiber invoice currency does not match the challenge"))
  network ← fiber_network_from_currency currency
  ensure (same_network network expected.network)
      (wrong (text "wrong-network") (text "Fiber invoice network does not match the challenge"))
  ensure (same_algorithm (invoice_hash_algorithm invoice) expected.hash_algorithm) (
      wrong (text "wrong-hash-algorithm")
        (text "Fiber invoice hash algorithm does not match the challenge"))
  expected_udt ← serialized expected.udt_type_script
  ensure
      (opt_eq (lower_option (extract_invoice_udt_script invoice)) expected_udt
        && agrees (lower_option (truthy expected.invoice_udt_script))
            (lower_option (extract_invoice_udt_script invoice)))
      (wrong (text "wrong-udt") (text "Fiber invoice UDT type script does not match the challenge"))
  expires_at ←
      present (truthy (extract_invoice_expires_at rt numerals invoice))
        (wrong (text "wrong-expiry") (text "Fiber invoice expiry metadata is missing"))
  ensure (agrees (truthy expected.invoice_expires_at) (some expires_at))
      (wrong (text "wrong-expiry") (text "Fiber invoice expiry does not match the challenge"))
  ensure (not expected.require_unexpired || is_future (rt.get_time expires_at) now)
      (wrong (text "expired-challenge") (text "Fiber invoice has expired"))
