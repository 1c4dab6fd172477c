-- ===== src/Storage/Invariant.antt =====
-- What every operation of the store keeps: the keys are unique, the foreign keys point to issued
-- challenges, and a challenge is consumed exactly if a redemption of it is stored.
use fiber_paid_http.Prelude.{
  ◌≡◌, refl, Text, ==_iff, true, false, none, ◌∷◌, arith, Bool-cases, inl, inr,
}
use fiber_paid_http.Core.Types.{PaymentReceipt}
use fiber_paid_http.Tables.{
  has, remove, Unique, has-false-remove_self, has-false-remove, remove-Unique,
}
use fiber_paid_http.Storage.Challenges.{is_consumed}
use fiber_paid_http.Storage.{
  ChallengeRecord, PaymentObservation, DeliveryOutcome, Database, empty, id, redeemed_id,
  redeemed_credential, redeemed_payment, reference, receipt_challenge, observed, outcome_id,
  save_challenge, save_receipt, save_payment_observation, save_delivery_outcome, after,
}

pub record IsWellFormed (db : Database) : Type 0 where
  pub ids : Unique id db.challenges
  pub redeemed_ids : Unique redeemed_id db.redemptions
  pub credentials : Unique redeemed_credential db.redemptions
  pub payments : Unique redeemed_payment db.redemptions
  pub references : Unique reference db.receipts
  pub receipt_challenges : Unique receipt_challenge db.receipts
  pub observations : Unique observed db.payment_observations
  pub outcomes : Unique outcome_id db.delivery_outcomes
  pub consumed_iff : (k : Text) → is_consumed k db.challenges ≡ has redeemed_id k db.redemptions
  pub receipt_keys :
      (k : Text) → has receipt_challenge k db.receipts ≡ true → has id k db.challenges ≡ true
  pub outcome_keys :
      (k : Text) → has outcome_id k db.delivery_outcomes ≡ true → has id k db.challenges ≡ true

pub empty-IsWellFormed : IsWellFormed empty
unfolding empty has is_consumed
empty-IsWellFormed = record {
  ids = tt;
  redeemed_ids = tt;
  credentials = tt;
  payments = tt;
  references = tt;
  receipt_challenges = tt;
  observations = tt;
  outcomes = tt;
  consumed_iff = λ k. refl;
  receipt_keys = λ k h. h;
  outcome_keys = λ k h. h;
}

-- A fresh challenge enters the table.
issue-IsWellFormed :
    (row : ChallengeRecord) (db : Database)
    → IsWellFormed db
    → has id row.challenge.id db.challenges ≡ false
    → row.consumed_at ≡ none
    → IsWellFormed (record db { challenges = row ∷ db.challenges })
unfolding has is_consumed
issue-IsWellFormed row db v fresh open_row = record {
  ids = (fresh, v.ids);
  redeemed_ids = v.redeemed_ids;
  credentials = v.credentials;
  payments = v.payments;
  references = v.references;
  receipt_challenges = v.receipt_challenges;
  observations = v.observations;
  outcomes = v.outcomes;
  consumed_iff = λ k. ground (arith, v.consumed_iff k);
  receipt_keys = λ k h. ground (arith, v.receipt_keys k);
  outcome_keys = λ k h. ground (arith, v.outcome_keys k);
}

pub save_challenge-IsWellFormed :
    (r : ChallengeRecord) (db : Database) → IsWellFormed db → IsWellFormed (save_challenge r db)
unfolding save_challenge
save_challenge-IsWellFormed r db v = elim (Bool-cases (has id r.challenge.id db.challenges)) [
  | inl old ↦ rw (old, save_challenge) v
  | inr fresh ↦
      rw (fresh, save_challenge)
        (issue-IsWellFormed (record r { consumed_at = none }) db v fresh refl)
]

module _ (db : Database) (v : IsWellFormed db) where
  receipt-IsWellFormed :
      (r : PaymentReceipt)
      → has reference r.reference db.receipts ≡ false
      → has receipt_challenge r.challenge_id db.receipts ≡ false
      → has id r.challenge_id db.challenges ≡ true
      → IsWellFormed (record db { receipts = r ∷ db.receipts })
  unfolding has
  receipt-IsWellFormed r new_reference new_challenge known = record {
    ids = v.ids;
    redeemed_ids = v.redeemed_ids;
    credentials = v.credentials;
    payments = v.payments;
    references = (new_reference, v.references);
    receipt_challenges = (new_challenge, v.receipt_challenges);
    observations = v.observations;
    outcomes = v.outcomes;
    consumed_iff = v.consumed_iff;
    receipt_keys = λ k h. ground (arith, ==_iff r.challenge_id k, v.receipt_keys k);
    outcome_keys = v.outcome_keys;
  }

  pub save_receipt-IsWellFormed : (r : PaymentReceipt) → IsWellFormed (after db (save_receipt r db))
  unfolding save_receipt
  save_receipt-IsWellFormed r = elim (Bool-cases (has reference r.reference db.receipts)) [
    | inl old ↦ rw (old, save_receipt) v
    | inr new_reference ↦ elim (Bool-cases (has receipt_challenge r.challenge_id db.receipts)) [
      | inl old ↦ rw (new_reference, old, save_receipt) v
      | inr new_challenge ↦ elim (Bool-cases (has id r.challenge_id db.challenges)) [
        | inl known ↦
            rw (new_reference, new_challenge, known, save_receipt)
              (receipt-IsWellFormed r new_reference new_challenge known)
        | inr missing ↦ rw (new_reference, new_challenge, missing, save_receipt) v
      ]
    ]
  ]

  pub save_payment_observation-IsWellFormed :
      (o : PaymentObservation) → IsWellFormed (save_payment_observation o db)
  unfolding save_payment_observation
  save_payment_observation-IsWellFormed o = record {
    ids = v.ids;
    redeemed_ids = v.redeemed_ids;
    credentials = v.credentials;
    payments = v.payments;
    references = v.references;
    receipt_challenges = v.receipt_challenges;
    observations = (
      has-false-remove_self observed o.payment_hash db.payment_observations,
      remove-Unique observed o.payment_hash db.payment_observations v.observations,
    );
    outcomes = v.outcomes;
    consumed_iff = v.consumed_iff;
    receipt_keys = v.receipt_keys;
    outcome_keys = v.outcome_keys;
  }

  outcome-IsWellFormed :
      (o : DeliveryOutcome)
      → has id o.challenge_id db.challenges ≡ true
      → IsWellFormed (record db {
        delivery_outcomes = o ∷ remove outcome_id o.challenge_id db.delivery_outcomes;
      })
  unfolding has
  outcome-IsWellFormed o known = record {
    ids = v.ids;
    redeemed_ids = v.redeemed_ids;
    credentials = v.credentials;
    payments = v.payments;
    references = v.references;
    receipt_challenges = v.receipt_challenges;
    observations = v.observations;
    outcomes = (
      has-false-remove_self outcome_id o.challenge_id db.delivery_outcomes,
      remove-Unique outcome_id o.challenge_id db.delivery_outcomes v.outcomes,
    );
    consumed_iff = v.consumed_iff;
    receipt_keys = v.receipt_keys;
    outcome_keys = λ k h. ground (
      arith,
      ==_iff o.challenge_id k,
      v.outcome_keys k,
      has-false-remove outcome_id k o.challenge_id db.delivery_outcomes,
    );
  }

  pub save_delivery_outcome-IsWellFormed :
      (o : DeliveryOutcome) → IsWellFormed (after db (save_delivery_outcome o db))
  unfolding save_delivery_outcome
  save_delivery_outcome-IsWellFormed o = elim (Bool-cases (has id o.challenge_id db.challenges)) [
    | inl known ↦ rw (known, save_delivery_outcome) (outcome-IsWellFormed o known)
    | inr missing ↦ rw (missing, save_delivery_outcome) v
  ]
