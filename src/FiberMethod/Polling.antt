-- ===== src/FiberMethod/Polling.antt =====
-- packages/fiber-method/src/index.ts: `waitForFiberPaymentSuccess` and `waitForFiberInvoicePaid`.
-- `clock 0` is `started`, `clock (suc i)` is `Date.now()` in the test before the poll with number i,
-- and `ask i` is that poll's answer.
pub mod Waiting
use fiber_paid_http.Prelude.{
  ℕ, zero, suc, ◌+◌, ◌-◌, ◌≤◌, ◌<◌, ◌≡◌, refl, Text, text, ◌==◌, Bool, true, false, ◌&&◌, ◌||◌,
  Option, none, some, ◌++◌, leb, ltb, if◌then◌else◌, arith, Result, ok, err, ◌>>=◌, ◌>>◌, ensure,
  plain_error, fail_with, Failure, Bool-cases, inl, inr,
}
use fiber_paid_http.FiberMethod.Status.{is_payment_success_status, is_invoice_paid_status}
use fiber_paid_http.FiberMethod.Invoice.{FiberInvoiceStatusResult, FiberPaymentResult}

-- What a poll's answer means for the loop.
pub data Verdict : Type 0 where
  accepted : Verdict
  refused : Failure → Verdict
  pending : Verdict

module _ {A : Type 0} (judge : A → Verdict) (timed_out : Option A → Failure) (clock : ℕ → ℕ)
    (ask : ℕ → Result A) (timeout_ms : ℕ) where
  abbrev pub judged : (Option A → Option (Result A)) → A → Verdict → Option (Result A)
  judged next last accepted = some (ok last)
  judged next last (refused e) = some (err e)
  judged next last pending = next (some last)

  abbrev pub answered : (Option A → Option (Result A)) → Result A → Option (Result A)
  answered next (err e) = some (err e)
  answered next (ok last) = judged next last (judge last)

  abbrev pub round : (Option A → Option (Result A)) → Bool → Result A → Option A → Option (Result A)
  round next true answer last = answered next answer
  round next false answer last = some (err (timed_out last))

  -- The loop from the poll with number i on, with fuel; none where the fuel runs out.
  unfoldable pub poll : ℕ → ℕ → Option A → Option (Result A)
  poll zero i last = none
  poll (suc fuel) i last =
      round (poll fuel (suc i)) (leb (clock (suc i) - clock 0) timeout_ms) (ask i) last

  abbrev pub or_stuck : Option (Result A) → Result A
  or_stuck none = err (plain_error (text "out of fuel"))
  or_stuck (some r) = r

  unfoldable pub wait_for : Result A
  unfolding poll
  wait_for = or_stuck (poll (suc (suc timeout_ms)) 0 none)

unfoldable pub assert_polling_configuration : ℕ → ℕ → Result (Unit {0})
assert_polling_configuration timeout_ms poll_ms =
    ensure (ltb 0 timeout_ms && ltb 0 poll_ms && leb poll_ms timeout_ms) (
      plain_error (
        text
          "Fiber settlement polling must satisfy 0 < poll <= timeout using integer milliseconds"))

abbrev status_or_unknown : Option Text → Text
status_or_unknown none = text "unknown"
status_or_unknown (some status) = status

abbrev or_unknown_error : Option Text → Text
or_unknown_error none = text "unknown error"
or_unknown_error (some error) = error

abbrev has_status : Text → Option Text → Bool
has_status name none = false
has_status name (some status) = status == name

abbrev payment_failed : Text → FiberPaymentResult → Failure
payment_failed payment_hash last =
    fail_with (text "fiber-payment-failed")
      (text "Fiber payment "
        ++ (payment_hash ++ (text " failed: " ++ or_unknown_error last.failed_error)))
      502

unfoldable pub judge_payment : Text → FiberPaymentResult → Verdict
judge_payment payment_hash last =
    if is_payment_success_status last.status
    then accepted
    else (if has_status (text "Failed") last.status
        then refused (payment_failed payment_hash last)
        else pending)

abbrev payment_status : Option FiberPaymentResult → Text
payment_status none = text "unknown"
payment_status (some last) = status_or_unknown last.status

abbrev pub payment_timeout : Text → Option FiberPaymentResult → Failure
payment_timeout payment_hash last =
    fail_with (text "fiber-payment-timeout")
      (text "Timed out waiting for Fiber payment "
        ++ (payment_hash ++ (text " to reach Success; last status " ++ payment_status last)))
      504

unfoldable pub wait_for_fiber_payment_success :
    Text → (ℕ → ℕ) → (ℕ → Result FiberPaymentResult) → ℕ → ℕ → Result FiberPaymentResult
unfolding assert_polling_configuration judge_payment wait_for
wait_for_fiber_payment_success payment_hash clock ask timeout_ms poll_ms =
    assert_polling_configuration timeout_ms poll_ms
    >> wait_for (judge_payment payment_hash) (payment_timeout payment_hash) clock ask timeout_ms

unfoldable pub judge_invoice : Text → FiberInvoiceStatusResult → Verdict
judge_invoice payment_hash last =
    if is_invoice_paid_status last.status
    then accepted
    else (if has_status (text "Cancelled") last.status || has_status (text "Expired") last.status
        then refused (
            fail_with (text "fiber-invoice-not-payable")
              (text "Fiber invoice "
                ++ (payment_hash
                    ++ (text " reached terminal status " ++ status_or_unknown last.status)))
              402)
        else pending)

abbrev invoice_status : Option FiberInvoiceStatusResult → Text
invoice_status none = text "unknown"
invoice_status (some last) = status_or_unknown last.status

abbrev pub invoice_timeout : Text → Option FiberInvoiceStatusResult → Failure
invoice_timeout payment_hash last =
    fail_with (text "fiber-invoice-timeout")
      (text "Timed out waiting for Fiber payment "
        ++ (payment_hash ++ (text " to reach Paid; last status " ++ invoice_status last)))
      504

unfoldable pub wait_for_fiber_invoice_paid :
    Text → (ℕ → ℕ) → (ℕ → Result FiberInvoiceStatusResult) → ℕ → ℕ → Result FiberInvoiceStatusResult
unfolding assert_polling_configuration judge_invoice wait_for
wait_for_fiber_invoice_paid payment_hash clock ask timeout_ms poll_ms =
    assert_polling_configuration timeout_ms poll_ms
    >> wait_for (judge_invoice payment_hash) (invoice_timeout payment_hash) clock ask timeout_ms
