-- ===== src/Storage.antt =====
-- packages/storage/src/index.ts: the SQLite store. A row holds the record that its JSON text stands
-- for. A statement that breaks a constraint throws and changes nothing; locking and I/O errors of
-- SQLite are not modelled.
pub mod Challenges
pub mod Redemption
pub mod Invariant
pub mod History
pub mod Queries
pub mod Schema
use fiber_paid_http.Tables.{has, find, remove}
use fiber_paid_http.Prelude.{
  ℕ, ◌+◌, Text, text, ◌==◌, Bool, true, false, ◌&&◌, ◌||◌, not, Option, none, some, List, [], ◌∷◌,
  map, is_none, truthy, eqb, if◌then◌else◌, Result, ok, err, plain_error,
}
use fiber_paid_http.Core.Types.{
  PaymentChallenge, FiberChargeRequest, ResourceDescriptor, Settlement, PaymentReceipt,
}

pub record ChallengeRecord : Type 0 where
  pub challenge : PaymentChallenge
  pub charge_request : FiberChargeRequest
  pub resource_binding : ResourceDescriptor
  pub created_at : Text
  pub expires_at : Text
  pub consumed_at : Option Text

pub record RedemptionRecord : Type 0 where
  pub challenge_id : Text
  pub credential_hash : Text
  pub payment_hash : Text
  pub settlement : Settlement
  pub consumed_at : Text

pub record PaymentObservation : Type 0 where
  pub payment_hash : Text
  pub challenge_id : Option Text
  pub settlement : Settlement
  pub amount_shannons : Option Text
  pub updated_at : Text

pub data DeliveryStatus : Type 0 where
  pending delivered failed : DeliveryStatus

pub record DeliveryOutcome : Type 0 where
  pub challenge_id : Text
  pub credential_hash : Text
  pub payment_hash : Text
  pub receipt_reference : Option Text
  pub status : DeliveryStatus
  pub response_status : Option ℕ
  pub error_code : Option Text
  pub error_message : Option Text
  pub recorded_at : Text

-- The tables of `initializeSqliteSchema`.
pub record Database : Type 0 where
  pub challenges : List ChallengeRecord
  pub redemptions : List RedemptionRecord
  pub receipts : List PaymentReceipt
  pub payment_observations : List PaymentObservation
  pub delivery_outcomes : List DeliveryOutcome

unfoldable pub empty : Database
empty = record {
  challenges = [];
  redemptions = [];
  receipts = [];
  payment_observations = [];
  delivery_outcomes = [];
}

-- The keys of the tables.
abbrev pub id : ChallengeRecord → Text
id r = r.challenge.id

abbrev pub redeemed_id : RedemptionRecord → Text
redeemed_id r = r.challenge_id

abbrev pub redeemed_credential : RedemptionRecord → Text
redeemed_credential r = r.credential_hash

abbrev pub redeemed_payment : RedemptionRecord → Text
redeemed_payment r = r.payment_hash

abbrev pub reference : PaymentReceipt → Text
reference r = r.reference

abbrev pub receipt_challenge : PaymentReceipt → Text
receipt_challenge r = r.challenge_id

abbrev pub observed : PaymentObservation → Text
observed o = o.payment_hash

abbrev pub outcome_id : DeliveryOutcome → Text
outcome_id o = o.challenge_id

constraint_failed : {A : Type 0} → Result A
constraint_failed = err (plain_error (text "constraint failed"))

-- `INSERT OR IGNORE INTO challenges … VALUES (…, NULL)`
unfoldable pub save_challenge : ChallengeRecord → Database → Database
unfolding has
save_challenge r db =
    if has id r.challenge.id db.challenges
    then db
    else record db { challenges = record r { consumed_at = none } ∷ db.challenges }

unfoldable pub get_challenge : Text → Database → Option ChallengeRecord
unfolding find
get_challenge challenge_id db = elim (find id challenge_id db.challenges) [
  | none ↦ none
  | some row ↦ some (record row { consumed_at = truthy row.consumed_at })
]

-- the row that the UPDATE of `consumeRedemption` changes
abbrev pub is_open : Text → ChallengeRecord → Bool
is_open challenge_id row = row.challenge.id == challenge_id && is_none row.consumed_at

pub mark_consumed : Text → Text → List ChallengeRecord → List ChallengeRecord
mark_consumed challenge_id at [] = []
mark_consumed challenge_id at (row ∷ rows) =
    (if is_open challenge_id row then record row { consumed_at = some at } else row)
    ∷ mark_consumed challenge_id at rows

-- `SELECT changes()` after that UPDATE
pub changes : Text → List ChallengeRecord → ℕ
changes challenge_id [] = 0
changes challenge_id (row ∷ rows) =
    (if is_open challenge_id row then 1 else 0) + changes challenge_id rows

infixl 5 ◌>>=◌
abbrev ◌>>=◌ : Option Database → (Database → Option Database) → Option Database
none >>= f = none
some db >>= f = f db

-- `INSERT INTO redemptions`: primary key, two UNIQUE columns, foreign key
pub insert_redemption : RedemptionRecord → Database → Option Database
insert_redemption r db =
    if has redeemed_id r.challenge_id db.redemptions
      || has redeemed_credential r.credential_hash db.redemptions
      || has redeemed_payment r.payment_hash db.redemptions
      || not (has id r.challenge_id db.challenges)
    then none
    else some (record db { redemptions = r ∷ db.redemptions })

abbrev pub pending_outcome : RedemptionRecord → DeliveryOutcome
pending_outcome r = record {
  challenge_id = r.challenge_id;
  credential_hash = r.credential_hash;
  payment_hash = r.payment_hash;
  receipt_reference = none;
  status = pending;
  response_status = none;
  error_code = none;
  error_message = none;
  recorded_at = r.consumed_at;
}

-- `INSERT INTO delivery_outcomes`: primary key, foreign key
pub insert_pending : RedemptionRecord → Database → Option Database
insert_pending r db =
    if has outcome_id r.challenge_id db.delivery_outcomes
      || not (has id r.challenge_id db.challenges)
    then none
    else some (record db { delivery_outcomes = pending_outcome r ∷ db.delivery_outcomes })

-- The statements between BEGIN and COMMIT; none where the transaction is rolled back.
unfoldable pub redemption_transaction : RedemptionRecord → Database → Option Database
unfolding has changes mark_consumed insert_redemption insert_pending
redemption_transaction r db =
    if eqb (changes r.challenge_id db.challenges) 1
    then (insert_redemption r
          (record db { challenges = mark_consumed r.challenge_id r.consumed_at db.challenges })
        >>= insert_pending r)
    else none

unfoldable pub consume_redemption : RedemptionRecord → Database → Database × Bool
consume_redemption r db = elim (redemption_transaction r db) [
  | none ↦ (db, false)
  | some db' ↦ (db', true)
]

unfoldable pub get_redemption : Text → Database → Option RedemptionRecord
unfolding find
get_redemption challenge_id db = find redeemed_id challenge_id db.redemptions

-- `INSERT OR IGNORE INTO receipts`: a broken foreign key still throws
unfoldable pub save_receipt : PaymentReceipt → Database → Result Database
unfolding has constraint_failed
save_receipt r db =
    if has reference r.reference db.receipts || has receipt_challenge r.challenge_id db.receipts
    then ok db
    else (if has id r.challenge_id db.challenges
        then ok (record db { receipts = r ∷ db.receipts })
        else constraint_failed)

unfoldable pub get_receipt : Text → Database → Option PaymentReceipt
unfolding find
get_receipt key db = find reference key db.receipts

-- `INSERT OR REPLACE INTO payment_observations`
unfoldable pub save_payment_observation : PaymentObservation → Database → Database
unfolding remove
save_payment_observation o db = record db {
  payment_observations = o ∷ remove observed o.payment_hash db.payment_observations;
}

unfoldable pub get_payment_observation : Text → Database → Option PaymentObservation
unfolding find
get_payment_observation payment_hash db = find observed payment_hash db.payment_observations

-- `INSERT OR REPLACE INTO delivery_outcomes`
unfoldable pub save_delivery_outcome : DeliveryOutcome → Database → Result Database
unfolding has remove constraint_failed
save_delivery_outcome o db =
    if has id o.challenge_id db.challenges
    then ok (record db {
      delivery_outcomes = o ∷ remove outcome_id o.challenge_id db.delivery_outcomes;
    })
    else constraint_failed

-- The database after a statement that may have thrown.
abbrev pub after : Database → Result Database → Database
after db (ok db') = db'
after db (err e) = db

-- The abstract state of a challenge.
pub data ChallengeState : Type 0 where
  unknown issued consumed : ChallengeState

abbrev state_of : Option ChallengeRecord → ChallengeState
state_of none = unknown
state_of (some row) = if is_none row.consumed_at then issued else consumed

unfoldable pub challenge_state : Text → Database → ChallengeState
unfolding find
challenge_state challenge_id db = state_of (find id challenge_id db.challenges)
