-- ===== src/Tests/Reported.antt =====
-- The report of exceptions after a comparison of one payment.
use global_payments_api.Prelude.{String, ◌≡◌, refl, List, [], ◌∷◌, map, some}
use global_payments_api.Python.Raised.{Result, ok}
use global_payments_api.Python.Date.{Date}
use global_payments_api.Python.Float.Sample.{Millionths, sample_float}
use global_payments_api.Frame.{Frame, get, get_or, item, is_empty, assign, put_all, put, lookup}
use global_payments_api.Models.{ReconciliationRecord, status_of}
use global_payments_api.Reconcile.{
  classify_record, classify_all, compute_discrepancy, generate_notes, reconcile,
}
use global_payments_api.Reconcile.Cells.{equal_cells}
use global_payments_api.Services.Memory.{memory}
use global_payments_api.Persist.{record_of, status_cell}
use global_payments_api.Persist.Outcome.{AllBuilt}
use global_payments_api.Run.{with_counts, run_id_of}
use global_payments_api.Routes.Exceptions.{
  ExceptionsReport, report, exceptions_report, exceptions_report-with_counts,
}
use global_payments_api.Tests.{panda, panda-IsDocumented, stamp_text, internal_df, clearing_df}
use global_payments_api.Tests.Runs.{day, ids, to_csv, running}

abbrev pub from_iso : String → Result Date
from_iso s = ok day

abbrev pub same_order :
    List (ReconciliationRecord Millionths) → List (ReconciliationRecord Millionths)
same_order rs = rs

pub compared :
    (result : Frame Millionths) × (reconcile sample_float panda stamp_text internal_df clearing_df
      ≡ ok result)
unfolding internal_df is_empty reconcile classify_all classify_record compute_discrepancy
    generate_notes equal_cells get get_or item assign put_all put lookup
compared = (_, refl)

pub built :
    (all : List (ReconciliationRecord Millionths)) × AllBuilt
      (run_id_of day)
      ids
      0
      (compared.0.rows)
      all
unfolding compared record_of status_cell status_of get item
built = (_ ∷ [], (refl, tt))

exceptions_report-with_counts_example :
    (answer : ExceptionsReport Millionths) × (exceptions_report sample_float stamp_text from_iso
        same_order
        (some "2024-03-15")
        (built.0)
      ≡ report answer)
    × (answer.count
        ≡ (with_counts sample_float panda stamp_text memory ids to_csv "bucket"
            (compared.0)
            (map (get "status") (compared.0.rows))
            running).exception_count)
unfolding internal_df is_empty
exceptions_report-with_counts_example =
    exceptions_report-with_counts sample_float stamp_text from_iso same_order panda
      panda-IsDocumented memory ids to_csv "bucket" (λ rs. refl) "2024-03-15" day internal_df
      clearing_df (compared.0) running [] (built.0) refl refl refl (compared.1) (built.1) tt
