-- ===== src/Tests.antt =====
-- Runs on small inputs, and the theorems at concrete data.
mod Reported
mod Runs
mod Endpoints
mod Events
mod Threads
mod Tables
mod Pages
mod Ascending
mod History
mod Returns
mod Floats
mod Coverage
mod Process
use global_payments_api.Prelude.{
  ℕ, String, pos, negsuc, length, ◌≤◌, ◌↔◌, ◌⊎◌, ◌≡◌, refl, arith, eq_iff, Bool, true, false, List,
  [], ◌∷◌, map, Option, none, some, inl, inr, All, All₂,
}
use global_payments_api.Python.Raised.{Result, ok, err}
use global_payments_api.Python.Decimal.{Decimal, finite, of_minor_units, decimal_text}
use global_payments_api.Python.Float.Sample.{Millionths, is_nan, sample_float}
use global_payments_api.Frame.{Cell, null, text, decimal, number, Row, Frame, get, is_empty}
use global_payments_api.Pandas.{Pandas, CanMerge, IsDocumented, left_pairs}
use global_payments_api.Pandas.Sample.{sample_pandas, sample_pandas-IsDocumented}
use global_payments_api.Reconcile.{classify_record, classify_all, reconcile}
use global_payments_api.Reconcile.Rows.{IsClassified, classify_all-IsClassified}
use global_payments_api.Reconcile.Total.{classify_all-Returns}
use global_payments_api.Reconcile.Statuses.{IsStatus, classify-matched_iff, reconcile-IsStatus}
use global_payments_api.Reconcile.Join.{IsComparison, HasColumns, reconcile-left_pairs}
use global_payments_api.Reconcile.Cells.{to_float}
use global_payments_api.Reconcile.Suffix.{key, reconcile_unmatched}
use global_payments_api.Loading.{payment_row, payments_frame, no_clearing_columns}
use global_payments_api.Services.{Payment}

abbrev pub panda : Pandas Millionths
panda = sample_pandas none is_nan refl (some (pos 0))

pub panda-IsDocumented : IsDocumented none panda
panda-IsDocumented = sample_pandas-IsDocumented none is_nan refl (some (pos 0))

abbrev pub stamp_text : ℕ → String
stamp_text n = "time"

abbrev pub payment : Payment
payment = record {
  payment_reference = "PAY-1";
  payment_id = "aaa";
  amount_minor_units = pos 25050;
  currency = "GBP";
  status = "COMPLETED";
  clearing_reference = some "CLR-9";
  created_at = 1;
  updated_at = 2;
}

-- The clearing network's record of the same payment, with the same amount.
abbrev pub settled : Row Millionths
settled =
    ("payment_reference", text "PAY-1")
    ∷ ("clearing_amount", decimal (finite false 25050 (negsuc 1)))
    ∷ ("clearing_currency", text "GBP")
    ∷ ("clearing_reference", text "NET-1")
    ∷ ("clearing_status", text "SETTLED")
    ∷ []

abbrev pub clearing_df : Frame Millionths
clearing_df = record { columns = no_clearing_columns; rows = settled ∷ [] }

pub internal_df : Frame Millionths
unfolding payments_frame
internal_df = payments_frame sample_float panda stamp_text (payment ∷ [])

pub can_merge : CanMerge key "_internal" "_clearing" internal_df clearing_df
unfolding internal_df
can_merge = record { key_left = refl; key_right = refl; labels = refl }

reconcile_unmatched_example :
    (result : Frame Millionths) × (reconcile sample_float panda stamp_text internal_df clearing_df
      ≡ ok result)
    × All (λ r. get "status" r ≡ text "UNMATCHED") result.rows
unfolding internal_df is_empty
reconcile_unmatched_example =
    reconcile_unmatched sample_float panda stamp_text panda-IsDocumented internal_df clearing_df
      can_merge refl refl refl

-- A merged row in which both sides have their columns.
abbrev both : Row Millionths
both =
    ("clearing_reference", text "NET-1")
    ∷ ("internal_amount", decimal (finite false 25050 (negsuc 1)))
    ∷ ("internal_currency", text "GBP")
    ∷ ("clearing_amount", decimal (finite false 25051 (negsuc 1)))
    ∷ ("clearing_currency", text "GBP")
    ∷ []

abbrev merged_df : Frame Millionths
merged_df = record { columns = []; rows = both ∷ [] }

classified : (s : String) × (classify_record sample_float panda stamp_text both ≡ ok s)
unfolding classify_record get to_float
classified = (_, refl)

classify_all-IsClassified_example :
    (result : Frame Millionths) × All₂
      (IsClassified sample_float panda stamp_text panda-IsDocumented)
      merged_df.rows
      result.rows
classify_all-IsClassified_example =
    let (result, h) =
      classify_all-Returns sample_float panda stamp_text panda-IsDocumented merged_df
        (classified, tt) in
    (
      result,
      classify_all-IsClassified sample_float panda stamp_text panda-IsDocumented merged_df result h,
    )

has_columns : HasColumns sample_float panda stamp_text panda-IsDocumented internal_df clearing_df
unfolding internal_df
has_columns = record {
  payment_reference = refl;
  internal_amount = refl;
  internal_currency = refl;
  clearing_amount = refl;
  clearing_currency = refl;
  no_internal_amount = refl;
  no_internal_currency = refl;
  no_clearing_amount = refl;
  no_clearing_currency = refl;
}

reconcile-left_pairs_example :
    (result : Frame Millionths) × (All₂
        (IsComparison sample_float panda stamp_text panda-IsDocumented internal_df clearing_df)
        (left_pairs key internal_df.rows clearing_df.rows)
        result.rows
      × (length internal_df.rows ≤ length result.rows))
unfolding internal_df is_empty
reconcile-left_pairs_example =
    let (result, h, unmatched) =
      reconcile_unmatched sample_float panda stamp_text panda-IsDocumented internal_df clearing_df
        can_merge refl refl refl in
    (
      result,
      reconcile-left_pairs sample_float panda stamp_text panda-IsDocumented internal_df clearing_df
          can_merge has_columns refl result h,
    )
