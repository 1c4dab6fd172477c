-- ===== src/Storage/Schema.antt =====
-- packages/storage/src/index.ts: `initializeSqliteSchema` and its checks, on the schema's version
-- and the tables with their columns.
use fiber_paid_http.Prelude.{
  ℕ, ◌≡◌, refl, Text, text, ◌==◌, ==_refl, Bool, true, false, ◌&&◌, ◌||◌, not, List, [], ◌∷◌, ◌++◌,
  map, if◌then◌else◌, arith, Result, ok, err, plain_error, eqb, ltb, length, ap, ◌∙◌, Bool-cases,
  inl, inr, All, none, some,
}
use fiber_paid_http.Sorting.{text_le, order_by}
use fiber_paid_http.Tables.{has, find}

pub record SqliteSchema : Type 0 where
  pub user_version : ℕ
  pub tables : List (Text × List Text)

abbrev pub sqlite_schema_version : ℕ
sqlite_schema_version = 1

abbrev pub table_name : Text × List Text → Text
table_name t = t.0

-- the statements CREATE TABLE IF NOT EXISTS, in their order
abbrev pub created_tables : List (Text × List Text)
created_tables =
    (text "fiber_paid_http_meta", text "key" ∷ text "value" ∷ [])
    ∷ (
      text "challenges",
      text "id"
          ∷ text "challenge"
          ∷ text "charge_request"
          ∷ text "resource_binding"
          ∷ text "created_at"
          ∷ text "expires_at"
          ∷ text "consumed_at"
          ∷ [],
    )
    ∷ (
      text "redemptions",
      text "challenge_id"
          ∷ text "credential_hash"
          ∷ text "payment_hash"
          ∷ text "settlement"
          ∷ text "consumed_at"
          ∷ [],
    )
    ∷ (text "receipts", text "reference" ∷ text "challenge_id" ∷ text "receipt" ∷ [])
    ∷ (
      text "payment_observations",
      text "payment_hash" ∷ text "observation" ∷ text "updated_at" ∷ [],
    )
    ∷ (
      text "delivery_outcomes",
      text "challenge_id"
          ∷ text "credential_hash"
          ∷ text "payment_hash"
          ∷ text "receipt_reference"
          ∷ text "status"
          ∷ text "response_status"
          ∷ text "error_code"
          ∷ text "error_message"
          ∷ text "recorded_at"
          ∷ [],
    )
    ∷ []

-- CANONICAL_SQLITE_SCHEMA, its keys sorted
abbrev pub canonical_sqlite_schema : List (Text × List Text)
canonical_sqlite_schema =
    (
      text "challenges",
      text "id"
          ∷ text "challenge"
          ∷ text "charge_request"
          ∷ text "resource_binding"
          ∷ text "created_at"
          ∷ text "expires_at"
          ∷ text "consumed_at"
          ∷ [],
    )
    ∷ (
      text "delivery_outcomes",
      text "challenge_id"
          ∷ text "credential_hash"
          ∷ text "payment_hash"
          ∷ text "receipt_reference"
          ∷ text "status"
          ∷ text "response_status"
          ∷ text "error_code"
          ∷ text "error_message"
          ∷ text "recorded_at"
          ∷ [],
    )
    ∷ (text "fiber_paid_http_meta", text "key" ∷ text "value" ∷ [])
    ∷ (
      text "payment_observations",
      text "payment_hash" ∷ text "observation" ∷ text "updated_at" ∷ [],
    )
    ∷ (text "receipts", text "reference" ∷ text "challenge_id" ∷ text "receipt" ∷ [])
    ∷ (
      text "redemptions",
      text "challenge_id"
          ∷ text "credential_hash"
          ∷ text "payment_hash"
          ∷ text "settlement"
          ∷ text "consumed_at"
          ∷ [],
    )
    ∷ []

unfoldable pub texts_eq : List Text → List Text → Bool
texts_eq [] [] = true
texts_eq [] (t ∷ ts) = false
texts_eq (s ∷ ss) [] = false
texts_eq (s ∷ ss) (t ∷ ts) = s == t && texts_eq ss ts

unfoldable pub create_table : Text × List Text → List (Text × List Text) → List (Text × List Text)
unfolding has
create_table t tables = if has table_name t.0 tables then tables else tables ++ t ∷ []

unfoldable pub create_tables :
    List (Text × List Text) → List (Text × List Text) → List (Text × List Text)
unfolding create_table
create_tables [] tables = tables
create_tables (t ∷ ts) tables = create_tables ts (create_table t tables)

-- `PRAGMA table_info`: no columns where the table is missing
abbrev columns_eq : Text × List Text → List (Text × List Text) → Bool
columns_eq t tables = elim (find table_name t.0 tables) [
  | none ↦ texts_eq [] t.1
  | some found ↦ texts_eq found.1 t.1
]

abbrev all_columns_eq : List (Text × List Text) → List (Text × List Text) → Bool
all_columns_eq [] tables = true
all_columns_eq (t ∷ ts) tables = columns_eq t tables && all_columns_eq ts tables

abbrev by_name : Text × List Text → Text × List Text → Bool
by_name t u = text_le t.0 u.0

unfoldable pub is_canonical : List (Text × List Text) → Bool
unfolding texts_eq order_by text_le find
is_canonical tables =
    texts_eq (map table_name (order_by by_name tables)) (map table_name canonical_sqlite_schema)
    && all_columns_eq canonical_sqlite_schema tables

schema_mismatch : {A : Type 0} → Result A
schema_mismatch = err (plain_error (text "database schema v1 does not match"))

unfoldable pub assert_canonical_sqlite_schema : SqliteSchema → Result SqliteSchema
unfolding is_canonical schema_mismatch
assert_canonical_sqlite_schema s = if is_canonical s.tables then ok s else schema_mismatch

unfoldable pub initialize_sqlite_schema : SqliteSchema → Result SqliteSchema
initialize_sqlite_schema s =
    if (eqb s.user_version 0 && ltb 0 (length s.tables))
      || (not (eqb s.user_version 0) && not (eqb s.user_version sqlite_schema_version))
    then err (plain_error (text "unsupported database schema"))
    else assert_canonical_sqlite_schema (record {
      user_version = sqlite_schema_version;
      tables = create_tables created_tables s.tables;
    })

has-append :
    (k : Text) (xs ys : List (Text × List Text))
    → has table_name k (xs ++ ys) ≡ (has table_name k xs || has table_name k ys)
unfolding has
has-append k [] ys = refl
has-append k (x ∷ xs) ys = ground (arith, has-append k xs ys)

has-create_table_self :
    (t : Text × List Text) (tables : List (Text × List Text))
    → has table_name t.0 (create_table t tables) ≡ true
unfolding create_table has
has-create_table_self t tables = ground (arith, has-append t.0 tables (t ∷ []), ==_refl t.0)

has-create_table :
    (k : Text) (t : Text × List Text) (tables : List (Text × List Text))
    → has table_name k tables ≡ true
    → has table_name k (create_table t tables) ≡ true
unfolding create_table
has-create_table k t tables h = ground (arith, has-append k tables (t ∷ []))

has-create_tables :
    (k : Text) (ts tables : List (Text × List Text))
    → has table_name k tables ≡ true
    → has table_name k (create_tables ts tables) ≡ true
unfolding create_tables
has-create_tables k [] tables h = h
has-create_tables k (t ∷ ts) tables h =
    has-create_tables k ts (create_table t tables) (has-create_table k t tables h)

create_tables-all :
    (ts tables : List (Text × List Text))
    → All (λ t. has table_name (table_name t) (create_tables ts tables) ≡ true) ts
unfolding create_tables
create_tables-all [] tables = tt
create_tables-all (t ∷ ts) tables = (
  has-create_tables t.0 ts (create_table t tables) (has-create_table_self t tables),
  create_tables-all ts (create_table t tables),
)

create_tables_known :
    (ts tables : List (Text × List Text))
    → All (λ t. has table_name (table_name t) tables ≡ true) ts
    → create_tables ts tables ≡ tables
unfolding create_tables create_table
create_tables_known [] tables a = refl
create_tables_known (t ∷ ts) tables a = rw a.0 (create_tables_known ts tables a.1)

abbrev created : SqliteSchema → SqliteSchema
created s = record {
  user_version = sqlite_schema_version;
  tables = create_tables created_tables s.tables;
}

assert_ok :
    (s s' : SqliteSchema)
    → assert_canonical_sqlite_schema s ≡ ok s'
    → (s' ≡ s) × (assert_canonical_sqlite_schema s ≡ ok s)
unfolding assert_canonical_sqlite_schema
assert_ok s s' h = elim (Bool-cases (is_canonical s.tables)) [
  | inl good ↦ let e : ok s ≡ ok s' = rw good at h in (cc, rw good)
  | inr bad ↦ absurd (cc (h, bad))
]

initialize_ok :
    (s s' : SqliteSchema)
    → initialize_sqlite_schema s ≡ ok s'
    → assert_canonical_sqlite_schema (created s) ≡ ok s'
unfolding initialize_sqlite_schema
initialize_ok s s' h = ground arith

initialize_created :
    (s : SqliteSchema)
    → initialize_sqlite_schema (created s) ≡ assert_canonical_sqlite_schema (created (created s))
unfolding initialize_sqlite_schema
initialize_created s = refl

created-created : (s : SqliteSchema) → created (created s) ≡ created s
created-created s = rw (
    create_tables_known created_tables (create_tables created_tables s.tables)
      (create_tables-all created_tables s.tables))

-- Opening a database a second time changes nothing and is accepted: whatever the first opening
-- accepts has version 1 and passes every check again.
pub initialize_idempotent :
    (s s' : SqliteSchema)
    → initialize_sqlite_schema s ≡ ok s'
    → (s'.user_version ≡ sqlite_schema_version) × (initialize_sqlite_schema s' ≡ ok s')
initialize_idempotent s s' h =
    let (same, passes) = assert_ok (created s) s' (initialize_ok s s' h) in
    rw same
      (refl, initialize_created s ∙ ap assert_canonical_sqlite_schema (created-created s) ∙ passes)
