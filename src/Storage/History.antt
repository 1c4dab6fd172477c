-- ===== src/Storage/History.antt =====
-- Sequences of store calls, which is what any interleaving of requests gives the store: each call
-- of the store runs to its end without an `await`.
use fiber_paid_http.Prelude.{
  ℕ, ◌+◌, ◌≤◌, ◌≡◌, Text, ◌==◌, Bool, false, ◌&&◌, List, [], ◌∷◌, if◌then◌else◌, arith, Bool-cases,
  inl, inr,
}
use fiber_paid_http.Core.Types.{PaymentReceipt}
use fiber_paid_http.Tables.{count, count-le-one}
use fiber_paid_http.Storage.Invariant.{
  IsWellFormed, save_challenge-IsWellFormed, save_receipt-IsWellFormed,
  save_payment_observation-IsWellFormed, save_delivery_outcome-IsWellFormed, empty-IsWellFormed,
}
use fiber_paid_http.Storage.Redemption.{consume-IsWellFormed, consume_success, consume_failure}
use fiber_paid_http.Storage.{
  ChallengeRecord, RedemptionRecord, PaymentObservation, DeliveryOutcome, Database, redeemed_id,
  redeemed_credential, redeemed_payment, save_challenge, consume_redemption, save_receipt,
  save_payment_observation, save_delivery_outcome, after, empty,
}

-- The writing methods of `FiberPaidHttpStore`.
pub data Call : Type 0 where
  saves_challenge : ChallengeRecord → Call
  redeems : RedemptionRecord → Call
  saves_receipt : PaymentReceipt → Call
  saves_observation : PaymentObservation → Call
  saves_outcome : DeliveryOutcome → Call

unfoldable pub step : Database → Call → Database
step db (saves_challenge r) = save_challenge r db
step db (redeems r) = (consume_redemption r db).0
step db (saves_receipt r) = after db (save_receipt r db)
step db (saves_observation o) = save_payment_observation o db
step db (saves_outcome o) = after db (save_delivery_outcome o db)

unfoldable pub run : Database → List Call → Database
run db [] = db
run db (c ∷ cs) = run (step db c) cs

-- Every operation keeps the database well formed, also one that is refused or throws.
pub step-IsWellFormed : (db : Database) (c : Call) → IsWellFormed db → IsWellFormed (step db c)
unfolding step
step-IsWellFormed db (saves_challenge r) v = save_challenge-IsWellFormed r db v
step-IsWellFormed db (redeems r) v = consume-IsWellFormed r db v
step-IsWellFormed db (saves_receipt r) v = save_receipt-IsWellFormed db v r
step-IsWellFormed db (saves_observation o) v = save_payment_observation-IsWellFormed db v o
step-IsWellFormed db (saves_outcome o) v = save_delivery_outcome-IsWellFormed db v o

pub run-IsWellFormed : (db : Database) (cs : List Call) → IsWellFormed db → IsWellFormed (run db cs)
unfolding run
run-IsWellFormed db [] v = v
run-IsWellFormed db (c ∷ cs) v = run-IsWellFormed (step db c) cs (step-IsWellFormed db c v)

module _ (key : RedemptionRecord → Text) (k : Text) where
  -- did this call redeem under the key `k`, with the answer true
  abbrev pub redeemed_by : Database → Call → Bool
  redeemed_by db (redeems r) = (consume_redemption r db).1 && key r == k
  redeemed_by db _ = false

  -- how many calls of the history did
  unfoldable pub successes : Database → List Call → ℕ
  successes db [] = 0
  successes db (c ∷ cs) = (if redeemed_by db c then 1 else 0) + successes (step db c) cs

  abbrev rows : Database → ℕ
  rows db = count key k db.redemptions

  rows-save_challenge : (r : ChallengeRecord) (db : Database) → rows (save_challenge r db) ≡ rows db
  unfolding save_challenge
  rows-save_challenge r db = ground arith

  rows-save_receipt :
      (r : PaymentReceipt) (db : Database) → rows (after db (save_receipt r db)) ≡ rows db
  unfolding save_receipt
  rows-save_receipt r db = ground arith

  rows-save_outcome :
      (o : DeliveryOutcome) (db : Database) → rows (after db (save_delivery_outcome o db)) ≡ rows db
  unfolding save_delivery_outcome
  rows-save_outcome o db = ground arith

  rows-consume :
      (r : RedemptionRecord) (db : Database)
      → rows (consume_redemption r db).0
        ≡ (if (consume_redemption r db).1 && key r == k then 1 else 0) + rows db
  unfolding count
  rows-consume r db = elim (Bool-cases (consume_redemption r db).1) [
    | inl won ↦ rw (consume_success r db won, won) (ground arith)
    | inr lost ↦ rw (consume_failure r db lost, lost) (ground arith)
  ]

  rows-step :
      (db : Database) (c : Call) → rows (step db c) ≡ (if redeemed_by db c then 1 else 0) + rows db
  unfolding step save_payment_observation
  rows-step db (saves_challenge r) = omega (arith, rows-save_challenge r db)
  rows-step db (redeems r) = rows-consume r db
  rows-step db (saves_receipt r) = omega (arith, rows-save_receipt r db)
  rows-step db (saves_observation o) = omega arith
  rows-step db (saves_outcome o) = omega (arith, rows-save_outcome o db)

  successes_lem : (db : Database) (cs : List Call) → rows (run db cs) ≡ successes db cs + rows db
  unfolding run successes
  successes_lem db [] = omega arith
  successes_lem db (c ∷ cs) = omega (arith, successes_lem (step db c) cs, rows-step db c)

-- Over any history from a well-formed database, `consumeRedemption` answers true at most once for
-- each challenge, at most once for each credential and at most once for each payment hash.
pub single_use :
    (k : Text) (db : Database) (cs : List Call)
    → IsWellFormed db
    → (successes redeemed_id k db cs ≤ 1)
      × (successes redeemed_credential k db cs ≤ 1)
      × (successes redeemed_payment k db cs ≤ 1)
single_use k db cs v =
    let w = run-IsWellFormed db cs v in
    let final = run db cs in
    (
      omega (
        arith,
        successes_lem redeemed_id k db cs,
        count-le-one redeemed_id k final.redemptions w.redeemed_ids,
      ),
      omega (
        arith,
        successes_lem redeemed_credential k db cs,
        count-le-one redeemed_credential k final.redemptions w.credentials,
      ),
      omega (
        arith,
        successes_lem redeemed_payment k db cs,
        count-le-one redeemed_payment k final.redemptions w.payments,
      ),
    )

-- So the store that the program creates is well formed after any history.
pub run-empty-IsWellFormed : (cs : List Call) → IsWellFormed (run empty cs)
run-empty-IsWellFormed cs = run-IsWellFormed empty cs empty-IsWellFormed
