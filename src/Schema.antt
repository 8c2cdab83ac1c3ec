-- ===== src/Schema.antt =====
-- The tables of the reporting database as data-processing-service/migrations/versions/0001_initial.py
-- makes them. Alembic and the database are a parameter: `Database` performs an operation, and
-- `IsDatabase` is what the migration relies on.
pub mod Migration
pub mod Memory
pub mod Required
pub mod Widths
use global_payments_api.Prelude.{
  ℕ, String, ◌==◌, ◌≡◌, Bool, true, false, List, [], ◌∷◌, Option, none, some, if◌then◌else◌,
}
use global_payments_api.Python.Raised.{Result, ok, err, Exec}

pub data ColumnType : Type 0 where
  string : ℕ → ColumnType
  text : ColumnType
  integer : ColumnType
  numeric : ℕ → ℕ → ColumnType
  datetime_with_zone : ColumnType
  uuid : ColumnType
  boolean : ColumnType

pub record Column : Type 0 where
  pub name : String
  pub type : ColumnType
  pub primary_key : Bool
  pub nullable : Bool
  pub server_default : Option String

abbrev pub nullable_column : String → ColumnType → Column
nullable_column n t = record {
  name = n;
  type = t;
  primary_key = false;
  nullable = true;
  server_default = none;
}

abbrev pub required_column : String → ColumnType → Column
required_column n t = record (nullable_column n t) { nullable = false }

-- A primary key is never null.
abbrev pub key_column : String → ColumnType → Column
key_column n t = record (nullable_column n t) { nullable = false; primary_key = true }

abbrev pub default_column : String → ColumnType → String → Column
default_column n t d = record (nullable_column n t) { server_default = some d }

pub data Operation : Type 0 where
  create_table : String → List Column → Operation
  create_index : String → String → List String → Operation  -- its name, its table, the columns
  drop_table : String → Operation

abbrev pub run_columns : List Column
run_columns =
    key_column "id" (string 50)
    ∷ required_column "run_date" datetime_with_zone
    ∷ nullable_column "started_at" datetime_with_zone
    ∷ nullable_column "completed_at" datetime_with_zone
    ∷ default_column "total_records" integer "0"
    ∷ default_column "matched_count" integer "0"
    ∷ default_column "unmatched_count" integer "0"
    ∷ default_column "exception_count" integer "0"
    ∷ default_column "total_amount_gbp" (numeric 20 2) "0"
    ∷ default_column "status" (string 20) "RUNNING"
    ∷ nullable_column "error_message" text
    ∷ []

abbrev pub record_columns : List Column
record_columns =
    key_column "id" uuid
    ∷ required_column "payment_reference" (string 30)
    ∷ required_column "payment_id" uuid
    ∷ required_column "internal_amount" (numeric 18 2)
    ∷ required_column "internal_currency" (string 3)
    ∷ required_column "internal_status" (string 20)
    ∷ required_column "internal_created_at" datetime_with_zone
    ∷ nullable_column "clearing_amount" (numeric 18 2)
    ∷ nullable_column "clearing_currency" (string 3)
    ∷ nullable_column "clearing_reference" (string 50)
    ∷ nullable_column "clearing_status" (string 20)
    ∷ nullable_column "clearing_settled_at" datetime_with_zone
    ∷ record (required_column "status" (string 20)) { server_default = some "UNMATCHED" }
    ∷ nullable_column "discrepancy_amount" (numeric 18 2)
    ∷ nullable_column "notes" text
    ∷ required_column "reconciliation_run_id" (string 50)
    ∷ nullable_column "reconciled_at" datetime_with_zone
    ∷ default_column "requires_investigation" boolean "false"
    ∷ []

abbrev pub runs_table : String
runs_table = "reconciliation_runs"

abbrev pub records_table : String
records_table = "reconciliation_records"

unfoldable pub upgrade : List Operation
upgrade =
    create_table "reconciliation_runs" run_columns
    ∷ create_index "idx_runs_run_date" "reconciliation_runs" ("run_date" ∷ [])
    ∷ create_index "idx_runs_status" "reconciliation_runs" ("status" ∷ [])
    ∷ create_table "reconciliation_records" record_columns
    ∷ create_index "idx_recon_payment_ref" "reconciliation_records" ("payment_reference" ∷ [])
    ∷ create_index "idx_recon_run_id" "reconciliation_records" ("reconciliation_run_id" ∷ [])
    ∷ create_index "idx_recon_status" "reconciliation_records" ("status" ∷ [])
    ∷ create_index "idx_recon_investigation" "reconciliation_records"
        ("requires_investigation" ∷ [])
    ∷ []

unfoldable pub downgrade : List Operation
downgrade = drop_table "reconciliation_records" ∷ drop_table "reconciliation_runs" ∷ []

-- What a database has: the columns of each table, and the table and the columns of each index.
pub record Catalogue : Type 0 where
  pub table : String → Option (List Column)
  pub index : String → Option (String × List String)

-- The index, if it is of another table.
abbrev pub unless_on : String → Option (String × List String) → Option (String × List String)
unless_on n none = none
unless_on n (some (t, cols)) = if t == n then none else some (t, cols)

abbrev pub effect : Operation → Catalogue → Catalogue
effect (create_table n cs) s = record s { table = λ m. if n == m then some cs else s.table m }
effect (create_index i n cols) s = record s {
  index = λ j. if i == j then some (n, cols) else s.index j;
}
effect (drop_table n) s = record s {
  table = λ m. if n == m then none else s.table m;
  index = λ j. unless_on n (s.index j);
}

abbrev pub Exists : Option (List Column) → Type 0
Exists o = (cs : List Column) × (o ≡ some cs)

-- When the operation does not fail for a name.
abbrev pub IsAllowed : Operation → Catalogue → Type 0
IsAllowed (create_table n cs) s = s.table n ≡ none
IsAllowed (create_index i n cols) s = (s.index i ≡ none) × Exists (s.table n)
IsAllowed (drop_table n) s = Exists (s.table n)

pub record Database : Type 1 where
  pub World : Type 0
  pub perform : Operation → Exec World (Unit {0})
  pub catalogue : World → Catalogue

-- A call that returns, and what is there after it.
abbrev pub LeadsTo : (db : Database) → Result (Unit {0}) × db.World → Catalogue → Type 0
LeadsTo db m s = (w : db.World) × (m ≡ (ok tt, w)) × (db.catalogue w ≡ s)

pub record IsDatabase (db : Database) : Type 0 where
  pub perform_lem :
      (op : Operation) (w : db.World)
      → IsAllowed op (db.catalogue w)
      → LeadsTo db (db.perform op w) (effect op (db.catalogue w))

module _ (db : Database) where
  abbrev pub after_call :
      Exec db.World (Unit {0}) → Result (Unit {0}) × db.World → Result (Unit {0}) × db.World
  after_call rest (ok u, w) = rest w
  after_call rest (err e, w) = (err e, w)

  -- The operations in their order; the first that raises ends the migration.
  abbrev pub perform_all : List Operation → Exec db.World (Unit {0})
  perform_all [] w = (ok tt, w)
  perform_all (op ∷ ops) w = after_call (perform_all ops) (db.perform op w)
