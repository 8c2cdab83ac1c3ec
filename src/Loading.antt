-- ===== src/Loading.antt =====
-- The two inputs of a run: `_load_internal_payments` and `_load_clearing_file` of
-- data-processing-service/app/services/reconciliation_service.py. `stamp_text` is as in `Reconcile`.
pub mod Query
use global_payments_api.Prelude.{
  ℕ, String, ◌==◌, ◌<>◌, ◌≡◌, refl, ◌⊎◌, inl, inr, List, [], ◌∷◌, map, Option, none, some,
  if◌then◌else◌,
}
use global_payments_api.Python.Raised.{
  Raised, Class, Result, ok, err, Result-cases, key_error, no_such_key, ◌>>=◌, map_result, Exec,
}
use global_payments_api.Python.Decimal.{of_minor_units}
use global_payments_api.Python.Decimal.Parse.{decimal_of}
use global_payments_api.Python.Float.{Float}
use global_payments_api.Python.Date.{Date, slashed}
use global_payments_api.Frame.{
  Cell, null, text, integer, decimal, stamp, Row, Frame, contains, get, assign,
}
use global_payments_api.Pandas.{Pandas}
use global_payments_api.Services.{Payment, Services}
use global_payments_api.Reconcile.Cells.{cell_text}

-- The columns of the empty table, and those of the query with the four that are added.
abbrev pub no_payment_columns : List String
no_payment_columns =
    "payment_reference" ∷ "payment_id" ∷ "amount_minor_units" ∷ "currency" ∷ "status"
    ∷ "clearing_reference" ∷ "created_at" ∷ []

abbrev pub payment_columns : List String
payment_columns =
    "payment_reference" ∷ "payment_id" ∷ "amount_minor_units" ∷ "currency" ∷ "status"
    ∷ "clearing_reference" ∷ "created_at" ∷ "updated_at" ∷ "internal_amount" ∷ "internal_currency"
    ∷ "internal_status" ∷ "internal_created_at" ∷ []

-- The columns of the table for a missing clearing file.
abbrev pub no_clearing_columns : List String
no_clearing_columns =
    "payment_reference" ∷ "clearing_amount" ∷ "clearing_currency" ∷ "clearing_reference"
    ∷ "clearing_status" ∷ "clearing_settled_at" ∷ []

-- What the file's columns are called in the job.
abbrev pub renamed : String → String
renamed c =
    if c == "amount"
    then "clearing_amount_raw"
    else if c == "currency"
    then "clearing_currency"
    else if c == "reference"
    then "clearing_reference"
    else if c == "status"
    then "clearing_status"
    else if c == "settled_at"
    then "clearing_settled_at"
    else c

module _ {F : Type 0} where
  abbrev text_or_null : Option String → Cell F
  text_or_null none = null
  text_or_null (some s) = text s

  abbrev rename_row : Row F → Row F
  rename_row [] = []
  rename_row ((c, v) ∷ r) = (renamed c, v) ∷ rename_row r

  -- `frame.rename(columns=…)`
  unfoldable pub rename : Frame F → Frame F
  rename f = record { columns = map renamed f.columns; rows = map rename_row f.rows }

  -- `frame[c]`
  unfoldable pub column : String → Frame F → Result (List (Cell F))
  column c f =
      if contains c f.columns
      then ok (map (get c) f.rows)
      else err (record { kind = key_error; text = c })

module _ (fl : Float) (pd : Pandas fl.F) (stamp_text : ℕ → String) where
  open fl use {F}

  -- A row of the query with the converted columns.
  unfoldable pub payment_row : Payment → Row F
  unfolding of_minor_units
  payment_row p =
      ("payment_reference", text p.payment_reference)
      ∷ ("payment_id", text p.payment_id)
      ∷ ("amount_minor_units", integer p.amount_minor_units)
      ∷ ("currency", text p.currency)
      ∷ ("status", text p.status)
      ∷ ("clearing_reference", text_or_null p.clearing_reference)
      ∷ ("created_at", stamp p.created_at)
      ∷ ("updated_at", stamp p.updated_at)
      ∷ ("internal_amount", decimal (of_minor_units p.amount_minor_units))
      ∷ ("internal_currency", text p.currency)
      ∷ ("internal_status", text p.status)
      ∷ ("internal_created_at", pd.to_utc (stamp p.created_at))
      ∷ []

  unfoldable pub payments_frame : List Payment → Frame F
  unfolding payment_row
  payments_frame [] = record { columns = no_payment_columns; rows = [] }
  payments_frame (p ∷ ps) = record { columns = payment_columns; rows = map payment_row (p ∷ ps) }

  -- The table that is returned: without a payment before any time is converted.
  abbrev pub loaded_frame : List Payment → Result (Frame F)
  loaded_frame [] = ok (payments_frame [])
  loaded_frame (p ∷ ps) = do
    u ← pd.check_times (map (λ q. q.created_at) (p ∷ ps))
    ok (payments_frame (p ∷ ps))

  pub loaded_frame-cases :
      (ps : List Payment)
      → (loaded_frame ps ≡ ok (payments_frame ps)) ⊎ ((e : Raised) × (loaded_frame ps ≡ err e))
  loaded_frame-cases [] = inl refl
  loaded_frame-cases (p ∷ ps) =
      elim (Result-cases (pd.check_times (map (λ q. q.created_at) (p ∷ ps)))) [
        | inl (u, e) ↦ inl (rw e refl)
        | inr (x, e) ↦ inr (x, rw e refl)
      ]

  -- `Decimal(str(x).strip())`
  abbrev amount_of : Cell F → Result (Cell F)
  amount_of x = do d ← decimal_of (cell_text fl stamp_text x); ok (decimal d)

  -- From the body of the file to the job's columns.
  unfoldable pub clearing_frame : String → Result (Frame F)
  unfolding rename column decimal_of cell_text
  clearing_frame body = do
    raw ← pd.read_csv body
    let named = rename raw
    raw_amounts ← column "clearing_amount_raw" named
    amounts ← map_result amount_of raw_amounts
    let with_amounts = assign "clearing_amount" amounts named
    settled ← column "clearing_settled_at" with_amounts
    ok (assign "clearing_settled_at" (pd.to_utc_or_missing settled) with_amounts)

  abbrev no_clearing_frame : Frame F
  no_clearing_frame = record { columns = no_clearing_columns; rows = [] }

  -- `except NoSuchKey`: no file, so no record. What else is raised goes on.
  abbrev missing_file : Class → Raised → Result (Frame F)
  missing_file no_such_key e = ok no_clearing_frame
  missing_file _ e = err e

  abbrev pub or_missing_file : Result (Frame F) → Result (Frame F)
  or_missing_file (ok f) = ok f
  or_missing_file (err e) = missing_file e.kind e

  unfoldable pub clearing_key : Date → String
  unfolding slashed
  clearing_key d = "clearing-files/" <> slashed d <> "/settlement.csv"

  module _ (svc : Services F) where
    open svc use {World, query_payments, get_object, retry}

    abbrev pub framed : Result (List Payment) × World → Result (Frame F) × World
    framed (ok ps, w) = (loaded_frame ps, w)
    framed (err e, w) = (err e, w)

    unfoldable pub load_internal_payments : Date → Exec World (Frame F)
    unfolding payments_frame
    load_internal_payments d w = framed (query_payments d w)

    abbrev pub parsed : Result String × World → Result (Frame F) × World
    parsed (ok body, w) = (or_missing_file (clearing_frame body), w)
    parsed (err e, w) = (or_missing_file (err e), w)

    -- One attempt at the file.
    unfoldable pub try_clearing_file : String → Date → Exec World (Frame F)
    unfolding clearing_frame clearing_key
    try_clearing_file bucket d w = parsed (get_object bucket (clearing_key d) w)

    unfoldable pub load_clearing_file : String → Date → Exec World (Frame F)
    unfolding try_clearing_file
    load_clearing_file bucket d = retry (try_clearing_file bucket d)
