-- ===== src/FiberMethod/Invoice.antt =====
-- packages/fiber-method/src/index.ts: what the RPC answers, and what is read of it. A quantity of a
-- Fiber node is unsigned; `BigInt` and the printing of numbers are parameters.
use fiber_paid_http.Prelude.{
  ℕ, ◌+◌, ◌*◌, Text, text, ◌==◌, Bool, true, false, ◌||◌, Option, none, some, List, [], ◌∷◌, take,
  lower, ltb, truthy, if◌then◌else◌, Result, ok, err, fail_with, plain_error,
}
use fiber_paid_http.Core.JsonValue.{Json, null, string, Members}
use fiber_paid_http.Core.Types.{FiberHashAlgorithm, ckb_hash, sha256}
use fiber_paid_http.Core.Runtime.{Runtime}
use fiber_paid_http.Core.Encoding.{get}

-- A number stands as its `String(n)`.
pub data Quantity : Type 0 where
  quantity_text : Text → Quantity
  quantity_number : Text → Quantity

-- The language's integers.
pub record Numerals : Type 0 where
  -- `BigInt(s)` of an unsigned text; none where it throws
  pub big_int : Text → Option ℕ
  -- `Number.isSafeInteger(n)` for the number that prints so
  pub is_safe_integer : Text → Bool
  -- `n.toString(10)`
  pub decimal : ℕ → Text

pub record FiberInvoiceData : Type 0 where
  pub payment_hash : Option Text
  pub timestamp : Option Quantity
  pub attrs : List Members

pub record FiberInvoice : Type 0 where
  pub amount : Option Quantity
  pub currency : Option Text
  pub data_part : Option FiberInvoiceData

pub record FiberInvoiceResult : Type 0 where
  pub invoice_address : Option Text
  pub invoice : Option FiberInvoice

pub record FiberInvoiceStatusResult : Type 0 where
  pub result : FiberInvoiceResult
  pub status : Option Text

pub record FiberPaymentResult : Type 0 where
  pub payment_hash : Option Text
  pub status : Option Text
  pub failed_error : Option Text

abbrev pub data_of : FiberInvoiceResult → Option FiberInvoiceData
data_of result = elim result.invoice [ none ↦ none | some invoice ↦ invoice.data_part ]

abbrev pub currency_of : FiberInvoiceResult → Option Text
currency_of result = elim result.invoice [ none ↦ none | some invoice ↦ invoice.currency ]

abbrev hash_of : Option FiberInvoiceData → Option Text
hash_of none = none
hash_of (some d) = truthy d.payment_hash

abbrev attrs_of : Option FiberInvoiceData → List Members
attrs_of none = []
attrs_of (some d) = d.attrs

abbrev found_hash : Option Text → Result Text
found_hash none = err (
    fail_with (text "fiber-invoice-missing-payment-hash")
      (text "Fiber new_invoice did not return a payment hash") 502)
found_hash (some payment_hash) = ok payment_hash

unfoldable pub extract_invoice_payment_hash : FiberInvoiceResult → Result Text
extract_invoice_payment_hash result = found_hash (hash_of (data_of result))

abbrev is_present : Option Json → Bool
is_present (some null) = false
is_present (some _) = true
is_present none = false

-- `attr[snake] ?? attr[camel]`
abbrev either_name : Text → Text → Members → Option Json
either_name snake camel attr =
    if is_present (get snake attr) then get snake attr else get camel attr

abbrev text_member : Option Json → Option Text
text_member (some (string s)) = some s
text_member _ = none

-- the loop over the attributes
unfoldable pub attribute : Text → Text → List Members → Option Text
unfolding get
attribute snake camel [] = none
attribute snake camel (attr ∷ attrs) =
    let later = attribute snake camel attrs in
    elim (text_member (either_name snake camel attr)) [ none ↦ later | some value ↦ some value ]

unfoldable pub invoice_attribute : FiberInvoiceResult → Text → Text → Option Text
unfolding attribute
invoice_attribute result snake camel = attribute snake camel (attrs_of (data_of result))

unfoldable pub extract_invoice_udt_script : FiberInvoiceResult → Option Text
unfolding invoice_attribute
extract_invoice_udt_script result = invoice_attribute result (text "udt_script") (text "udtScript")

abbrev is_sha256 : Option Text → Bool
is_sha256 none = false
is_sha256 (some value) = lower value == text "sha256"

unfoldable pub hash_algorithm : List Members → FiberHashAlgorithm
unfolding get
hash_algorithm [] = ckb_hash
hash_algorithm (attr ∷ attrs) =
    let later = hash_algorithm attrs in
    if is_sha256 (text_member (either_name (text "hash_algorithm") (text "hashAlgorithm") attr))
    then sha256
    else later

unfoldable pub invoice_hash_algorithm : FiberInvoiceResult → FiberHashAlgorithm
unfolding hash_algorithm
invoice_hash_algorithm result = hash_algorithm (attrs_of (data_of result))

abbrev pub max_safe_integer : ℕ
max_safe_integer = 9007199254740991

-- beyond it `toISOString` throws
abbrev max_date : ℕ
max_date = 8640000000000000

module _ (rt : Runtime) (numerals : Numerals) where
  abbrev printed_amount : Option ℕ → Result (Option Text)
  printed_amount none = err (plain_error (text "SyntaxError"))
  printed_amount (some n) = ok (some (numerals.decimal n))

  abbrev amount_text : Option Quantity → Result (Option Text)
  amount_text none = ok none
  amount_text (some (quantity_number n)) = ok (some n)
  amount_text (some (quantity_text s)) =
      if take 2 s == text "0x" then printed_amount (numerals.big_int s) else ok (some s)

  unfoldable pub extract_invoice_amount : FiberInvoiceResult → Result (Option Text)
  extract_invoice_amount result =
      amount_text (elim result.invoice [ none ↦ none | some invoice ↦ invoice.amount ])

  -- none where it throws
  unfoldable pub parse_fiber_quantity : Quantity → Option ℕ
  parse_fiber_quantity (quantity_text s) = numerals.big_int s
  parse_fiber_quantity (quantity_number n) =
      if numerals.is_safe_integer n then numerals.big_int n else none

  abbrev expiry_of : Option ℕ → Option ℕ → Option Text
  expiry_of (some timestamp_ms) (some expiry_seconds) =
      if ltb max_safe_integer (timestamp_ms + expiry_seconds * 1000)
        || ltb max_date (timestamp_ms + expiry_seconds * 1000)
      then none
      else some (rt.to_iso_string (timestamp_ms + expiry_seconds * 1000))
  expiry_of _ _ = none

  abbrev expires_at : Option Quantity → Option Text → Option Text
  expires_at (some timestamp) (some expiry) =
      expiry_of (parse_fiber_quantity timestamp) (numerals.big_int expiry)
  expires_at _ _ = none

  abbrev timestamp_of : Option FiberInvoiceData → Option Quantity
  timestamp_of none = none
  timestamp_of (some d) = d.timestamp

  unfoldable pub extract_invoice_expires_at : FiberInvoiceResult → Option Text
  unfolding invoice_attribute parse_fiber_quantity
  extract_invoice_expires_at result =
      expires_at (timestamp_of (data_of result))
        (truthy (invoice_attribute result (text "expiry_time") (text "expiryTime")))
