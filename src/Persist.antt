-- ===== src/Persist.antt =====
-- `_persist_results` of data-processing-service/app/services/reconciliation_service.py.
pub mod Outcome
pub mod Batches
pub mod Bounds
pub mod Returns
use global_payments_api.Prelude.{
  ℕ, zero, suc, ◌+◌, pos, String, ◌==◌, not, Bool, true, false, List, [], ◌∷◌, ◌++◌, length, leb,
  if◌then◌else◌,
}
use global_payments_api.Python.Decimal.{is_true}
use global_payments_api.Python.Raised.{Result, ok, err, value_error, ◌>>=◌, Exec}
use global_payments_api.Frame.{
  Cell, null, text, integer, flag, number, decimal, stamp, Row, Frame, get, item, no_items,
}
use global_payments_api.Models.{ReconciliationStatus, ReconciliationRecord, status_of}
use global_payments_api.Services.{Services}

abbrev pub batch_size : ℕ
batch_size = 500

module _ {F : Type 0} where
  -- `ReconciliationStatus(x)`
  unfoldable pub status_cell : Cell F → Result ReconciliationStatus
  unfolding status_of
  status_cell (text s) = status_of s
  status_cell _ = err (record { kind = value_error; text = "not a valid ReconciliationStatus" })

  -- `bool(row.get('requires_investigation', False))`. The column holds flags; a float there could
  -- only be NaN, which is true.
  abbrev pub truth : Cell F → Bool
  truth null = false
  truth (flag b) = b
  truth (text s) = not (s == "")
  truth (integer (pos zero)) = false
  truth (decimal d) = is_true d
  truth _ = true

  -- The record of one row; `id` is its `uuid4()`.
  unfoldable pub record_of : String → ℕ → Row F → Result (ReconciliationRecord F)
  unfolding status_cell is_true
  record_of run_id id row = do
    reference ← item "payment_reference" row
    outcome ← item "status" row
    status ← status_cell outcome
    ok (record {
      id = id;
      payment_reference = reference;
      payment_id = get "payment_id" row;
      internal_amount = get "internal_amount" row;
      internal_currency = get "internal_currency" row;
      internal_status = get "internal_status" row;
      internal_created_at = get "internal_created_at" row;
      clearing_amount = get "clearing_amount" row;
      clearing_currency = get "clearing_currency" row;
      clearing_reference = get "clearing_reference" row;
      clearing_status = get "clearing_status" row;
      clearing_settled_at = get "clearing_settled_at" row;
      status = status;
      discrepancy_amount = get "discrepancy_amount" row;
      notes = get "notes" row;
      reconciliation_run_id = run_id;
      requires_investigation = truth (get "requires_investigation" row);
    })

  module _ (svc : Services F) where
    open svc use {World, bulk_save, commit}

    abbrev pub then_commit : Result (Unit {0}) × World → Result (Unit {0}) × World
    then_commit (ok u, w) = commit w
    then_commit (err e, w) = (err e, w)

    -- `bulk_save_objects(records); commit()`
    unfoldable pub save_batch : List (ReconciliationRecord F) → Exec World (Unit {0})
    save_batch records w = then_commit (bulk_save records w)

    abbrev pub flush_rest : List (ReconciliationRecord F) → Exec World (Unit {0})
    flush_rest [] w = (ok tt, w)
    flush_rest (r ∷ rs) w = save_batch (r ∷ rs) w

    abbrev pub after_batch :
        Result (Unit {0}) × World → Exec World (Unit {0}) → Result (Unit {0}) × World
    after_batch (ok u, w) rest = rest w
    after_batch (err e, w) rest = (err e, w)

    -- What the loop does with a record: it is appended, and a full buffer is saved.
    abbrev pub next_row :
        ℕ
        → (List (ReconciliationRecord F) → Exec World (Unit {0}))
        → List (ReconciliationRecord F)
        → Result (ReconciliationRecord F)
        → Exec World (Unit {0})
    next_row size rest buffer (err e) w = (err e, w)
    next_row size rest buffer (ok record_to_insert) w =
        let records_to_insert = buffer ++ record_to_insert ∷ [] in
        if leb size (length records_to_insert)
        then after_batch (save_batch records_to_insert w) (rest [])
        else rest records_to_insert w

    -- The loop over the rows, with the records that wait; `ids` gives `uuid4()` of each row.
    unfoldable pub persist_rows :
        ℕ
        → String
        → (ℕ → ℕ)
        → ℕ
        → List (Row F)
        → List (ReconciliationRecord F)
        → Exec World (Unit {0})
    unfolding save_batch
    persist_rows size run_id ids n [] buffer w = flush_rest buffer w
    persist_rows size run_id ids n (row ∷ rows) buffer w =
        next_row size (persist_rows size run_id ids (suc n) rows) buffer
          (record_of run_id (ids n) row) w

    unfoldable pub persist_results : (ℕ → ℕ) → Frame F → String → Exec World (Unit {0})
    unfolding persist_rows
    persist_results ids results_df run_id = persist_rows batch_size run_id ids 0 results_df.rows []
