-- ===== src/Storage/Queries.antt =====
-- packages/storage/src/index.ts: the ordered queries and the audit of the stored receipts.
use fiber_paid_http.Prelude.{
  ℕ, ◌-◌, Text, ◌==◌, Bool, List, [], ◌∷◌, map, if◌then◌else◌, length, truthy,
}
use fiber_paid_http.Core.Types.{PaymentReceipt}
use fiber_paid_http.Core.Runtime.{Runtime}
use fiber_paid_http.Core.Schemas.{is_payment_receipt}
use fiber_paid_http.Sorting.{text_le, order_by}
use fiber_paid_http.Storage.{DeliveryOutcome, Database}

-- `ORDER BY reference`
abbrev pub by_reference : PaymentReceipt → PaymentReceipt → Bool
by_reference r s = text_le r.reference s.reference

unfoldable pub list_receipts : Database → List PaymentReceipt
unfolding order_by text_le
list_receipts db = order_by by_reference db.receipts

-- `ORDER BY recorded_at, challenge_id`
unfoldable pub by_recorded_at : DeliveryOutcome → DeliveryOutcome → Bool
by_recorded_at o p =
    if o.recorded_at == p.recorded_at
    then text_le o.challenge_id p.challenge_id
    else text_le o.recorded_at p.recorded_at

-- An empty text in an optional column is dropped, as an absent one is.
abbrev pub outcome_of_row : DeliveryOutcome → DeliveryOutcome
outcome_of_row row = record row {
  receipt_reference = truthy row.receipt_reference;
  error_code = truthy row.error_code;
  error_message = truthy row.error_message;
}

unfoldable pub read_delivery_outcomes : Database → List DeliveryOutcome
unfolding order_by text_le by_recorded_at
read_delivery_outcomes db = map outcome_of_row (order_by by_recorded_at db.delivery_outcomes)

pub record ReceiptAuditReport : Type 0 where
  pub receipts : ℕ
  pub valid : ℕ
  pub invalid : ℕ
  pub invalid_receipt_references : List Text

module _ (rt : Runtime) where
  -- the loop of `auditSqliteReceipts`
  unfoldable pub invalid_references : List PaymentReceipt → List Text
  invalid_references [] = []
  invalid_references (r ∷ rest) =
      let others = invalid_references rest in
      if is_payment_receipt rt r then others else r.reference ∷ others

  unfoldable pub audit_sqlite_receipts : Database → ReceiptAuditReport
  unfolding invalid_references list_receipts
  audit_sqlite_receipts db =
      let receipts = list_receipts db in
      let invalid = invalid_references receipts in
      record {
        receipts = length receipts;
        valid = length receipts - length invalid;
        invalid = length invalid;
        invalid_receipt_references = invalid;
      }
