-- ===== src/FiberMethod/Polling/Waiting.antt =====
-- The polling loops end, and what they return was answered in time.
use fiber_paid_http.Prelude.{
  ℕ, zero, suc, ◌+◌, ◌-◌, ◌≤◌, ◌<◌, ◌≡◌, refl, Text, Bool, true, false, Option, none, some, leb,
  arith, Result, ok, err, Failure,
}
use fiber_paid_http.FiberMethod.Status.{is_invoice_paid_status}
use fiber_paid_http.FiberMethod.Invoice.{FiberInvoiceStatusResult}
use fiber_paid_http.FiberMethod.Polling.{
  Verdict, accepted, refused, pending, judged, answered, round, poll, wait_for, judge_invoice,
  invoice_timeout, wait_for_fiber_invoice_paid, assert_polling_configuration,
}

-- Each sleep lets some time pass, and the clock does not go back before the first poll.
pub record Advances (clock : ℕ → ℕ) (poll_ms : ℕ) : Type 0 where
  pub starts : clock 0 ≤ clock 1
  pub sleeps : (i : ℕ) → clock (suc i) + poll_ms ≤ clock (suc (suc i))

module _ {A : Type 0} (judge : A → Verdict) (timed_out : Option A → Failure) (clock : ℕ → ℕ)
    (ask : ℕ → Result A) (timeout_ms : ℕ) where
  abbrev Ends : Option (Result A) → Type 0
  Ends o = (r : Result A) × (o ≡ some r)

  judged-Ends :
      (next : Option A → Option (Result A)) (a : A) (v : Verdict)
      → ((l : Option A) → Ends (next l))
      → Ends (judged judge timed_out clock ask timeout_ms next a v)
  judged-Ends next a accepted h = (_, refl)
  judged-Ends next a (refused e) h = (_, refl)
  judged-Ends next a pending h = h (some a)

  answered-Ends :
      (next : Option A → Option (Result A)) (answer : Result A)
      → ((l : Option A) → Ends (next l))
      → Ends (answered judge timed_out clock ask timeout_ms next answer)
  answered-Ends next (err e) h = (_, refl)
  answered-Ends next (ok a) h = judged-Ends next a (judge a) h

  round-Ends :
      (next : Option A → Option (Result A)) (b : Bool) (answer : Result A) (last : Option A)
      → (b ≡ true → (l : Option A) → Ends (next l))
      → Ends (round judge timed_out clock ask timeout_ms next b answer last)
  round-Ends next true answer last h = answered-Ends next answer (h refl)
  round-Ends next false answer last h = (_, refl)

  -- Where a sleep lets at least a millisecond pass, fuel above the rest of the time suffices.
  poll-Ends :
      (poll_ms fuel i : ℕ) (last : Option A)
      → 1 ≤ poll_ms
      → Advances clock poll_ms
      → clock 0 + timeout_ms < clock (suc i) + fuel
      → clock 0 ≤ clock (suc i)
      → Ends (poll judge timed_out clock ask timeout_ms (suc fuel) i last)
  unfolding poll
  poll-Ends poll_ms zero i last p h enough forward =
      round-Ends (λ l. none) (leb (clock (suc i) - clock 0) timeout_ms) (ask i) last
        (λ more. absurd (ground arith))
  poll-Ends poll_ms (suc fuel) i last p h enough forward =
      round-Ends (poll judge timed_out clock ask timeout_ms (suc fuel) (suc i))
        (leb (clock (suc i) - clock 0) timeout_ms) (ask i) last
        λ more l.
          poll-Ends poll_ms fuel (suc i) l p h (omega (arith, h.sleeps i))
            (omega (arith, h.sleeps i))

  -- What is known of an answer that the loop returns.
  abbrev IsAccepted : A → Type 0
  IsAccepted r =
      (i : ℕ) × (ask i ≡ ok r) × (judge r ≡ accepted) × (clock (suc i) - clock 0 ≤ timeout_ms)

  judged-IsAccepted :
      (i : ℕ) (next : Option A → Option (Result A)) (a r : A) (v : Verdict)
      → ask i ≡ ok a
      → judge a ≡ v
      → clock (suc i) - clock 0 ≤ timeout_ms
      → ((l : Option A) → next l ≡ some (ok r) → IsAccepted r)
      → judged judge timed_out clock ask timeout_ms next a v ≡ some (ok r)
      → IsAccepted r
  judged-IsAccepted i next a r accepted asked verdict time later h = (i, cc, cc, time)
  judged-IsAccepted i next a r (refused e) asked verdict time later h = absurd cc
  judged-IsAccepted i next a r pending asked verdict time later h = later (some a) h

  answered-IsAccepted :
      (i : ℕ) (next : Option A → Option (Result A)) (r : A) (answer : Result A)
      → ask i ≡ answer
      → clock (suc i) - clock 0 ≤ timeout_ms
      → ((l : Option A) → next l ≡ some (ok r) → IsAccepted r)
      → answered judge timed_out clock ask timeout_ms next answer ≡ some (ok r)
      → IsAccepted r
  answered-IsAccepted i next r (err e) asked time later h = absurd cc
  answered-IsAccepted i next r (ok a) asked time later h =
      judged-IsAccepted i next a r (judge a) asked refl time later h

  round-IsAccepted :
      (i : ℕ) (next : Option A → Option (Result A)) (r : A) (b : Bool) (last : Option A)
      → (b ≡ true → clock (suc i) - clock 0 ≤ timeout_ms)
      → ((l : Option A) → next l ≡ some (ok r) → IsAccepted r)
      → round judge timed_out clock ask timeout_ms next b (ask i) last ≡ some (ok r)
      → IsAccepted r
  round-IsAccepted i next r true last time later h =
      answered-IsAccepted i next r (ask i) refl (time refl) later h
  round-IsAccepted i next r false last time later h = absurd cc

  poll-IsAccepted :
      (fuel i : ℕ) (last : Option A) (r : A)
      → poll judge timed_out clock ask timeout_ms fuel i last ≡ some (ok r)
      → IsAccepted r
  unfolding poll
  poll-IsAccepted zero i last r h = absurd cc
  poll-IsAccepted (suc fuel) i last r h =
      round-IsAccepted i _ r _ last (λ more. ground arith)
        (λ l e. poll-IsAccepted fuel (suc i) l r e) h

  wait_for-IsAccepted :
      (r : A) → wait_for judge timed_out clock ask timeout_ms ≡ ok r → IsAccepted r
  unfolding wait_for
  wait_for-IsAccepted r h = poll-IsAccepted (suc (suc timeout_ms)) 0 none r (ground arith)

  -- The loop of both waits does not run out of fuel: it returns or throws, whatever the node answers,
  -- where each sleep lets the poll interval pass, which is positive, and the clock does not go back
  -- before the first poll.
  pub wait_ends :
      (poll_ms : ℕ)
      → 1 ≤ poll_ms
      → Advances clock poll_ms
      → (r : Result A) × (poll judge timed_out clock ask timeout_ms (suc (suc timeout_ms)) 0 none
          ≡ some r)
        × (wait_for judge timed_out clock ask timeout_ms ≡ r)
  unfolding wait_for
  wait_ends poll_ms p h =
      let (r, e) =
        poll-Ends poll_ms (suc timeout_ms) 0 none p h (omega (arith, h.starts)) h.starts in
      (r, e, rw e refl)

-- An invoice that `waitForFiberInvoicePaid` returns is the answer of one of its polls, which began
-- within the timeout, and its status is "Paid".
pub wait_paid :
    (payment_hash : Text) (clock : ℕ → ℕ) (ask : ℕ → Result FiberInvoiceStatusResult)
    (timeout_ms poll_ms : ℕ) (r : FiberInvoiceStatusResult)
    → wait_for_fiber_invoice_paid payment_hash clock ask timeout_ms poll_ms ≡ ok r
    → (i : ℕ) × (ask i ≡ ok r)
      × (is_invoice_paid_status r.status ≡ true)
      × (clock (suc i) - clock 0 ≤ timeout_ms)
unfolding wait_for_fiber_invoice_paid judge_invoice assert_polling_configuration
wait_paid payment_hash clock ask timeout_ms poll_ms r h =
    let (i, asked, judged_paid, time) =
      wait_for-IsAccepted (judge_invoice payment_hash) (invoice_timeout payment_hash) clock ask
        timeout_ms r (ground arith) in
    (i, asked, ground arith, time)
