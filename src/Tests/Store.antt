-- ===== src/Tests/Store.antt =====
-- The theorems on the store, at a store with one challenge.
use fiber_paid_http.Prelude.{
  ◌≤◌, ◌≡◌, ◌↔◌, refl, text, ◌==◌, true, false, some, List, [], ◌∷◌, ok, if◌then◌else◌,
}
use fiber_paid_http.Tables.{has, find}
use fiber_paid_http.Storage.{
  Database, empty, redeemed_id, redeemed_credential, redeemed_payment, outcome_id, pending_outcome,
  save_challenge, consume_redemption, get_redemption, challenge_state, issued, consumed,
  redemption_transaction,
}
use fiber_paid_http.Storage.Invariant.{IsWellFormed}
use fiber_paid_http.Storage.Redemption.{consume_iff, consume_effect}
use fiber_paid_http.Storage.History.{
  Call, saves_challenge, redeems, saves_receipt, step, run, successes, step-IsWellFormed,
  single_use, run-empty-IsWellFormed,
}
use fiber_paid_http.Storage.Schema.{
  SqliteSchema, sqlite_schema_version, initialize_sqlite_schema, initialize_idempotent,
  assert_canonical_sqlite_schema, create_tables, created_tables, is_canonical,
}
use fiber_paid_http.Tests.{record_1, redemption_1, receipt_1}

abbrev calls_1 : List Call
calls_1 = saves_challenge record_1 ∷ []

abbrev db_1 : Database
db_1 = run empty calls_1

db_1-IsWellFormed : IsWellFormed db_1
db_1-IsWellFormed = run-empty-IsWellFormed calls_1

redemption_1-consumed : (consume_redemption redemption_1 db_1).1 ≡ true
unfolding run step save_challenge consume_redemption empty text ◌==◌ redemption_transaction
redemption_1-consumed = refl

abbrev db_2 : Database
db_2 = (consume_redemption redemption_1 db_1).0

consume_iff_example : ((consume_redemption redemption_1 db_1).1 ≡ true) ↔ (
    (challenge_state (text "c1") db_1 ≡ issued)
    × (has redeemed_credential (text "h1") db_1.redemptions ≡ false)
    × (has redeemed_payment redemption_1.payment_hash db_1.redemptions ≡ false)
    × (has outcome_id (text "c1") db_1.delivery_outcomes ≡ false))
consume_iff_example = consume_iff redemption_1 db_1 db_1-IsWellFormed

consume_effect_example :
    (challenge_state (text "c2") (consume_redemption redemption_1 db_1).0
      ≡ (if text "c2" == text "c1" then consumed else challenge_state (text "c2") db_1))
    × (get_redemption (text "c1") (consume_redemption redemption_1 db_1).0 ≡ some redemption_1)
    × (find outcome_id (text "c1") (consume_redemption redemption_1 db_1).0.delivery_outcomes
        ≡ some (pending_outcome redemption_1))
consume_effect_example =
    consume_effect redemption_1 db_1 (text "c2") db_1-IsWellFormed redemption_1-consumed

step-IsWellFormed_example : IsWellFormed (step db_1 (redeems redemption_1))
step-IsWellFormed_example = step-IsWellFormed db_1 (redeems redemption_1) db_1-IsWellFormed

abbrev replays : List Call
replays = redeems redemption_1 ∷ redeems redemption_1 ∷ []

replays-won : successes redeemed_id (text "c1") db_1 replays ≡ 1
unfolding successes run step save_challenge consume_redemption empty text ◌==◌
    redemption_transaction
replays-won = refl

single_use_example :
    (successes redeemed_id (text "c1") db_1 replays ≤ 1)
    × (successes redeemed_credential (text "c1") db_1 replays ≤ 1)
    × (successes redeemed_payment (text "c1") db_1 replays ≤ 1)
single_use_example = single_use (text "c1") db_1 replays db_1-IsWellFormed

abbrev db_3 : Database
db_3 = run empty (saves_challenge record_1 ∷ saves_receipt receipt_1 ∷ [])

abbrev schema_1 : SqliteSchema
schema_1 = record { user_version = 1; tables = created_tables }

schema_1-accepted :
    initialize_sqlite_schema (record { user_version = 0; tables = [] }) ≡ ok schema_1
unfolding initialize_sqlite_schema assert_canonical_sqlite_schema create_tables is_canonical text
    ◌==◌
schema_1-accepted = refl

initialize_idempotent_example :
    (schema_1.user_version ≡ sqlite_schema_version)
    × (initialize_sqlite_schema schema_1 ≡ ok schema_1)
initialize_idempotent_example =
    initialize_idempotent (record { user_version = 0; tables = [] }) schema_1 schema_1-accepted
