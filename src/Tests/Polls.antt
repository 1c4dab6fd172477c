-- ===== src/Tests/Polls.antt =====
-- A node that answers that an invoice is open, and then that it is paid.
use fiber_paid_http.Prelude.{
  ℕ, zero, suc, ◌-◌, ◌≤◌, ◌≡◌, refl, Text, text, ◌==◌, true, none, some, [], ◌∷◌, Result, ok, arith,
}
use fiber_paid_http.Core.JsonValue.{string, end, member}
use fiber_paid_http.Core.Types.{FiberCredentialPayload, settled}
use fiber_paid_http.FiberMethod.Status.{testnet_mode, is_invoice_paid_status}
use fiber_paid_http.FiberMethod.Invoice.{
  FiberInvoiceResult, FiberInvoiceStatusResult, Numerals, quantity_number,
}
use fiber_paid_http.FiberMethod.Polling.{
  poll, wait_for, judge_invoice, invoice_timeout, wait_for_fiber_invoice_paid,
}
use fiber_paid_http.FiberMethod.Polling.Waiting.{Advances, wait_ends, wait_paid}
use fiber_paid_http.FiberMethod.Adapter.{FiberMethodAdapter, FiberReceiptEvidence}
use fiber_paid_http.Tests.{hash_1, now_text}

abbrev numerals_1 : Numerals
numerals_1 = record {
  big_int = λ s. some 7;
  is_safe_integer = λ s. true;
  decimal = λ n. text "100";
}

abbrev invoice_1 : FiberInvoiceResult
invoice_1 = record {
  invoice_address = some (text "fibt1");
  invoice = some (record {
    amount = some (quantity_number (text "100"));
    currency = some (text "Fibt");
    data_part = some (record {
      payment_hash = some hash_1;
      timestamp = some (quantity_number (text "7"));
      attrs = member (text "expiry_time") (string (text "0x7")) end ∷ [];
    });
  });
}

abbrev with_status : Text → FiberInvoiceStatusResult
with_status status = record { result = invoice_1; status = some status }

abbrev answers : ℕ → Result FiberInvoiceStatusResult
answers zero = ok (with_status (text "Open"))
answers (suc i) = ok (with_status (text "Paid"))

abbrev ticks : ℕ → ℕ
ticks i = i

abbrev adapter_1 : FiberMethodAdapter
adapter_1 = record {
  mode = testnet_mode;
  asset = text "CKB";
  currency = text "Fibt";
  node_id = none;
  rpc_label = none;
  udt_type_script = none;
  settlement_timeout_ms = 3;
  settlement_poll_ms = 1;
}

ticks-Advances : Advances ticks 1
ticks-Advances = record { starts = omega arith; sleeps = λ i. omega arith }

wait_ends_example :
    (r : Result FiberInvoiceStatusResult) × (poll
        (judge_invoice hash_1)
        (invoice_timeout hash_1)
        ticks
        answers
        3
        5
        0
        none
      ≡ some r)
    × (wait_for (judge_invoice hash_1) (invoice_timeout hash_1) ticks answers 3 ≡ r)
wait_ends_example =
    wait_ends (judge_invoice hash_1) (invoice_timeout hash_1) ticks answers 3 1 (omega arith)
      ticks-Advances

waited : wait_for_fiber_invoice_paid hash_1 ticks answers 3 1 ≡ ok (with_status (text "Paid"))
unfolding wait_for_fiber_invoice_paid text ◌==◌
waited = refl

wait_paid_example :
    (i : ℕ) × (answers i ≡ ok (with_status (text "Paid")))
    × (is_invoice_paid_status (some (text "Paid")) ≡ true)
    × (ticks (suc i) - ticks 0 ≤ 3)
wait_paid_example = wait_paid hash_1 ticks answers 3 1 (with_status (text "Paid")) waited

abbrev payload_1 : FiberCredentialPayload
payload_1 = record { payment_hash = hash_1; extra = end }

abbrev evidence_1 : FiberReceiptEvidence
evidence_1 = record {
  payment_hash = hash_1;
  amount_shannons = text "100";
  settlement = record {
    status = settled;
    payment_hash = some hash_1;
    invoice_id = some (text "fibt1");
    tx_hash = none;
    provider = some (text "fiber-rpc");
    observed_at = now_text;
  };
}
