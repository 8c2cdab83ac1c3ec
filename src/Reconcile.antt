-- ===== src/Reconcile.antt =====
-- Comparing the ledger with the clearing network's file: `_reconcile`, `_classify_record`,
-- `_compute_discrepancy` and `_generate_notes` of
-- data-processing-service/app/services/reconciliation_service.py, over any binary floats and any
-- pandas. `stamp_text` is the text of a timestamp, which no note shows unless a table holds one as
-- an amount.
pub mod Cells
pub mod Rows
pub mod Total
pub mod Statuses
pub mod Suffix
pub mod Join
pub mod Columns
pub mod Pence
use global_payments_api.Prelude.{
  ℕ, pos, String, ◌<>◌, Bool, true, false, ◌&&◌, not, List, map, if◌then◌else◌,
}
use global_payments_api.Python.Raised.{
  Result, ok, err, Raised, Class, type_error, value_error, ◌>>=◌, map_result,
}
use global_payments_api.Python.Float.{Float}
use global_payments_api.Frame.{
  Cell, null, text, integer, number, flag, Row, Frame, get, get_or, item, assign, is_empty,
}
use global_payments_api.Pandas.{Pandas}
use global_payments_api.Models.{matched, unmatched, exception, value}
use Cells.{to_float, equal_cells, cell_text}

abbrev is_null : {F : Type 0} → Cell F → Bool
is_null null = true
is_null _ = false

abbrev pub pending_note : String
pending_note = "No matching clearing record found. Check if payment is pending settlement."

module _ (fl : Float) (pd : Pandas fl.F) (stamp_text : ℕ → String) where
  open fl use {F, sub, abs, gt, tolerance}

  -- `abs(float(x) - float(y))`
  unfoldable pub distance : Cell F → Cell F → Result F
  distance x y = do a ← to_float fl x; b ← to_float fl y; ok (abs (sub a b))

  -- The test of the amounts: both are there, and differ by more than the tolerance.
  unfoldable pub amounts_differ : Cell F → Cell F → Result Bool
  unfolding distance
  amounts_differ x y =
      if not (is_null x) && not (is_null y)
      then (do d ← distance x y; ok (gt d tolerance))
      else ok false

  unfoldable pub classify_record : Row F → Result String
  unfolding amounts_differ
  classify_record row = if pd.isna (get "clearing_reference" row) then ok (value unmatched) else do
    differ ← amounts_differ (get "internal_amount" row) (get "clearing_amount" row)
    ok (
        if differ
        then value exception
        else if not (equal_cells fl (get "internal_currency" row) (get "clearing_currency" row))
        then value exception
        else value matched)

  -- `except (TypeError, ValueError): return None`
  abbrev caught : Class → Raised → Result (Cell F)
  caught type_error e = ok null
  caught value_error e = ok null
  caught _ e = err e

  abbrev or_none : Result F → Result (Cell F)
  or_none (ok x) = ok (number x)
  or_none (err e) = caught e.kind e

  unfoldable pub compute_discrepancy : Row F → Result (Cell F)
  unfolding distance
  compute_discrepancy row = do
    status ← item "status" row
    (if not (equal_cells fl status (text (value exception)))
        then ok null
        else or_none (
            distance (get_or "internal_amount" (integer (pos 0)) row)
              (get_or "clearing_amount" (integer (pos 0)) row)))

  unfoldable pub amounts_note : Row F → String
  amounts_note row =
      "Amount discrepancy: internal="
      <> cell_text fl stamp_text (get "internal_amount" row)
      <> ", clearing="
      <> cell_text fl stamp_text (get "clearing_amount" row)
      <> ". Requires manual review."

  unfoldable pub generate_notes : Row F → Result (Cell F)
  generate_notes row = do
    status ← item "status" row
    ok (
        if equal_cells fl status (text (value matched))
        then null
        else if equal_cells fl status (text (value unmatched))
        then text pending_note
        else text (amounts_note row))

  -- `merged['status'] == 'EXCEPTION'`, a row's part of it
  abbrev is_exception : Row F → Cell F
  is_exception row = flag (equal_cells fl (get "status" row) (text (value exception)))

  -- What is done to the merged table: four columns, each from the table with those before it.
  unfoldable pub classify_all : Frame F → Result (Frame F)
  unfolding classify_record compute_discrepancy generate_notes
  classify_all merged = do
    statuses ← map_result classify_record merged.rows
    let with_status = assign "status" (pd.infer (map text statuses)) merged
    discrepancies ← map_result compute_discrepancy with_status.rows
    let with_discrepancy = assign "discrepancy_amount" (pd.infer discrepancies) with_status
    let flagged =
        assign "requires_investigation" (map is_exception with_discrepancy.rows) with_discrepancy
    notes ← map_result generate_notes flagged.rows
    ok (assign "notes" (pd.infer notes) flagged)

  unfoldable pub reconcile : Frame F → Frame F → Result (Frame F)
  unfolding classify_all is_empty
  reconcile internal_df clearing_df = if is_empty internal_df then ok internal_df else do
    merged ← pd.merge "payment_reference" "_internal" "_clearing" internal_df clearing_df
    classify_all merged
