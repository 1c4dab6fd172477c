-- ===== src/FiberMethod/Adapter/Evidence.antt =====
-- What `verifyPayload` has seen when it returns evidence.
use fiber_paid_http.Prelude.{ℕ, suc, ◌-◌, ◌≤◌, ◌≡◌, true, Result, ok}
use fiber_paid_http.Core.Types.{FiberChargeRequest}
use fiber_paid_http.Core.Runtime.{Runtime}
use fiber_paid_http.FiberMethod.Status.{is_invoice_paid_status}
use fiber_paid_http.FiberMethod.Invoice.{FiberInvoiceStatusResult, Numerals}
use fiber_paid_http.FiberMethod.Matching.{assert_invoice_matches}
use fiber_paid_http.FiberMethod.Adapter.{FiberMethodAdapter, expected_after_payment}

-- The node's answer behind evidence for a request.
pub record IsPaidInvoice (rt : Runtime) (numerals : Numerals) (adapter : FiberMethodAdapter)
    (request : FiberChargeRequest) (clock : ℕ → ℕ) (ask : ℕ → Result FiberInvoiceStatusResult)
    (now : ℕ) : Type 0 where
  pub number : ℕ
  pub invoice : FiberInvoiceStatusResult
  pub answered : ask number ≡ ok invoice
  pub paid : is_invoice_paid_status invoice.status ≡ true
  pub in_time : clock (suc number) - clock 0 ≤ adapter.settlement_timeout_ms
  pub matching :
      assert_invoice_matches rt numerals invoice.result
        (expected_after_payment rt numerals adapter request)
        now
      ≡ ok tt
