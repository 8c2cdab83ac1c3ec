-- ===== src/Routes/Records.antt =====
-- `GET /api/v1/reconciliation/runs/<run_id>/records`: `get_run_records` and `_serialize_record` of
-- data-processing-service/app/routes/reconciliation.py. `to_int` is `int` of a text, `lower` is
-- `str.lower`, `enum_of` what the column's type makes of a text, `reconciled` the text of the time
-- that the record drew. Flask-SQLAlchemy's `paginate` is a parameter, and `IsPaginate` is what it is
-- relied on for. The columns are read as the job wrote them.
pub mod Pages
pub mod Ascending
use global_payments_api.Prelude.{
  ℕ, zero, suc, ◌+◌, ◌*◌, ◌≤◌, ◌<◌, min, ℤ, pos, negsuc, String, ◌==◌, ◌≡◌, Bool, true, false, ◌&&◌,
  Option, none, some, List, [], ◌∷◌, map, take, drop, length, select, if◌then◌else◌,
}
use global_payments_api.Python.Raised.{Result, ok, err, ◌>>=◌}
use global_payments_api.Python.Float.{Float}
use global_payments_api.Frame.{Cell}
use global_payments_api.Models.{ReconciliationStatus, value, ReconciliationRecord}
use global_payments_api.Reconcile.Cells.{cell_text}
use global_payments_api.Routes.Amounts.{text_if}
use global_payments_api.Routes.Lists.{int_arg, capped}

pub record RecordBody (F : Type 0) : Type 0 where
  pub id : ℕ
  pub payment_reference : Cell F
  pub internal_amount : String
  pub internal_currency : Cell F
  pub internal_status : Cell F
  pub clearing_amount : Option String
  pub clearing_reference : Cell F
  pub clearing_status : Cell F
  pub status : String
  pub discrepancy_amount : Option String
  pub requires_investigation : Bool
  pub notes : Cell F
  pub reconciled_at : Option String

-- What `paginate` returns, of items of one type.
pub record Paged (A : Type 0) : Type 0 where
  pub items : List A
  pub page : ℕ
  pub per_page : ℕ
  pub total : ℕ
  pub pages : ℕ

-- `query.order_by(…).paginate(page=…, per_page=…)`, for pages from 1 on. The database is to give
-- rows with one reference in the same order each time.
pub record IsPaginate {A : Type 0} (ordered : List A → List A) (paginate : ℤ → ℤ → List A → Paged A)
    : Type 0 where
  pub items_lem :
      (p q : ℕ) (rows : List A)
      → (paginate (pos (suc p)) (pos (suc q)) rows).items
        ≡ take (suc q) (drop (p * suc q) (ordered rows))
  pub total_lem : (p q : ℤ) (rows : List A) → (paginate p q rows).total ≡ length rows
  -- so many pages that all the rows find a place
  pub pages_lem :
      (p : ℤ) (q : ℕ) (rows : List A) → length rows ≤ (paginate p (pos (suc q)) rows).pages * suc q
  pub length-ordered : (rows : List A) → length (ordered rows) ≡ length rows

-- The arguments of the request.
pub record Args : Type 0 where
  pub status : Option String
  pub page : Option String
  pub per_page : Option String
  pub exceptions_only : Option String

module _ (fl : Float) (stamp_text : ℕ → String) (to_int : String → Result ℤ)
    (lower : String → String) (enum_of : String → Result ReconciliationStatus)
    (reconciled : ReconciliationRecord fl.F → Option String)
    (paginate : ℤ → ℤ → List (ReconciliationRecord fl.F) → Paged (ReconciliationRecord fl.F)) where
  open fl use {F}

  unfoldable pub serialize_record : ReconciliationRecord F → RecordBody F
  unfolding cell_text
  serialize_record r = record {
    id = r.id;
    payment_reference = r.payment_reference;
    internal_amount = cell_text fl stamp_text r.internal_amount;
    internal_currency = r.internal_currency;
    internal_status = r.internal_status;
    clearing_amount = text_if fl stamp_text r.clearing_amount;
    clearing_reference = r.clearing_reference;
    clearing_status = r.clearing_status;
    status = value r.status;
    discrepancy_amount = text_if fl stamp_text r.discrepancy_amount;
    requires_investigation = r.requires_investigation;
    notes = r.notes;
    reconciled_at = reconciled r;
  }

  -- `if status: query = query.filter_by(status=status)`, the test of a record
  abbrev pub has_status : Option ReconciliationStatus → ReconciliationRecord F → Bool
  has_status none r = true
  has_status (some s) r = value r.status == value s

  abbrev pub status_filter : Option String → Result (Option ReconciliationStatus)
  status_filter none = ok none
  status_filter (some t) = if t == "" then ok none else (do s ← enum_of t; ok (some s))

  -- `request.args.get('exceptions_only', 'false').lower() == 'true'`
  abbrev pub is_true_arg : Option String → Bool
  is_true_arg none = lower "false" == "true"
  is_true_arg (some t) = lower t == "true"

  abbrev pub has_flag : Bool → ReconciliationRecord F → Bool
  has_flag true r = r.requires_investigation
  has_flag false r = true

  -- The filters of the query.
  abbrev pub is_selected :
      String → Option ReconciliationStatus → Bool → ReconciliationRecord F → Bool
  is_selected run_id status only_exceptions r =
      (r.reconciliation_run_id == run_id) && (has_status status r && has_flag only_exceptions r)

  abbrev pub serialized : Paged (ReconciliationRecord F) → Paged (RecordBody F)
  serialized paginated = record {
    items = map serialize_record paginated.items;
    page = paginated.page;
    per_page = paginated.per_page;
    total = paginated.total;
    pages = paginated.pages;
  }

  -- The response to arguments that are read.
  unfoldable pub records_page :
      String
      → Option ReconciliationStatus
      → Bool
      → ℤ
      → ℤ
      → List (ReconciliationRecord F)
      → Paged (RecordBody F)
  unfolding serialize_record
  records_page run_id status only_exceptions page per_page table = serialized (
      paginate page (capped 200 per_page)
        (select (is_selected run_id status only_exceptions) table))

  unfoldable pub get_run_records :
      String → Args → List (ReconciliationRecord F) → Result (Paged (RecordBody F))
  unfolding records_page
  get_run_records run_id args table = do
    page ← int_arg to_int 1 args.page
    per_page ← int_arg to_int 50 args.per_page
    status ← status_filter args.status
    ok (records_page run_id status (is_true_arg args.exceptions_only) page per_page table)
