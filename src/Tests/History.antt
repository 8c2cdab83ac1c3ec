-- ===== src/Tests/History.antt =====
-- The tables after a run of the whole job, and what the endpoints show of them.
use global_payments_api.Prelude.{◌+◌, ◌≡◌, refl, ap, length, arith}
use global_payments_api.Python.Float.Sample.{Millionths, sample_float}
use global_payments_api.Python.Date.{Date, compact, slashed}
use global_payments_api.Python.Decimal.{show, pad, of_minor_units, is_true}
use global_payments_api.Frame.{get, get_or, item, lookup, put, put_all, assign, is_empty}
use global_payments_api.Models.{status_of, match_rate}
use global_payments_api.Loading.{
  column, payment_row, payments_frame, clearing_key, load_internal_payments, load_clearing_file,
}
use global_payments_api.Reconcile.{
  classify_record, classify_all, compute_discrepancy, generate_notes, reconcile,
}
use global_payments_api.Reconcile.Cells.{to_float, equal_cells}
use global_payments_api.Persist.{status_cell, record_of, save_batch, persist_rows, persist_results}
use global_payments_api.Services.{View, store_run, find_run}
use global_payments_api.Services.Memory.{memory, memory-IsSession}
use global_payments_api.Run.{
  run_id_of, new_run, total_amount, upload_report, complete_run, try_run, run_daily_reconciliation,
}
use global_payments_api.Run.History.{Reached, no_run, run_of, IsSound, Reached-IsSound}
use global_payments_api.Run.Additions.{Adds, run_daily_reconciliation-Adds}
use global_payments_api.Run.Dates.{IsDate, KeepsDate, run_of_other_date}
use global_payments_api.Routes.Runs.{RunBody, found_200, get_run}
use global_payments_api.Routes.History.{all_pages, get_run-all_pages}
use global_payments_api.Tests.{panda, panda-IsDocumented, stamp_text}
use global_payments_api.Tests.Runs.{day, ids, to_csv, no_tables, ready}
use global_payments_api.Tests.Endpoints.{date_text, one_amount}
use global_payments_api.Tests.Pages.{
  to_int, lower, enum_of, no_time, in_order, paginate, paginate-IsPaginate,
}

abbrev after : View Millionths
after =
    (run_daily_reconciliation sample_float panda stamp_text memory ids to_csv "bucket" day
      ready).1.tables

after-Reached :
    Reached sample_float panda stamp_text panda-IsDocumented memory memory-IsSession ids to_csv
      "bucket" after
after-Reached =
    run_of {v = no_tables} day ready (no_run refl refl)
      (record { runs = refl; records = refl; nothing_staged = refl })

run_daily_reconciliation-Adds_example : Adds (run_id_of day) no_tables after
run_daily_reconciliation-Adds_example =
    run_daily_reconciliation-Adds sample_float panda stamp_text memory memory-IsSession ids to_csv
      "bucket" day ready refl

Reached-IsSound_example : IsSound after
Reached-IsSound_example =
    Reached-IsSound sample_float panda stamp_text panda-IsDocumented memory memory-IsSession ids
      to_csv "bucket" after after-Reached

shown :
    (b : RunBody Millionths) × (get_run sample_float date_text stamp_text one_amount
        "RECON-20240315" after.runs
      ≡ found_200 b)
    × (b.status ≡ "COMPLETED")
unfolding run_daily_reconciliation try_run new_run run_id_of compact show pad complete_run
    total_amount upload_report persist_results persist_rows save_batch record_of status_cell
    status_of reconcile classify_all classify_record compute_discrepancy generate_notes
    load_internal_payments load_clearing_file clearing_key payments_frame payment_row of_minor_units
    column to_float equal_cells match_rate get get_or item lookup put put_all assign is_empty
    find_run store_run get_run slashed is_true
shown = (_, refl, refl)

get_run-all_pages_example :
    (length (
        all_pages sample_float panda stamp_text panda-IsDocumented memory memory-IsSession ids
          to_csv "bucket" date_text one_amount to_int lower enum_of no_time paginate in_order
          paginate-IsPaginate "RECON-20240315" 50 after.records)
      ≡ shown.0.total_records)
    × (shown.0.matched + shown.0.unmatched + shown.0.exceptions ≡ shown.0.total_records)
get_run-all_pages_example =
    get_run-all_pages sample_float panda stamp_text panda-IsDocumented memory memory-IsSession ids
      to_csv "bucket" date_text one_amount to_int lower enum_of no_time paginate in_order
      paginate-IsPaginate after after-Reached "RECON-20240315" (shown.0) 49 (shown.1) (shown.2)
      (omega arith)

-- The day before.
abbrev eve : Date
eve = record { year = 2024; month = 3; day = 14 }

day-IsDate : IsDate day
day-IsDate = record { month = omega arith; day = omega arith }

eve-IsDate : IsDate eve
eve-IsDate = record { month = omega arith; day = omega arith }

run_of_other_date_example : KeepsDate eve no_tables after
run_of_other_date_example =
    run_of_other_date sample_float panda stamp_text memory memory-IsSession ids to_csv "bucket" day
      eve ready day-IsDate eve-IsDate
      (λ e. let same : 15 ≡ 14 = ap (λ (d : Date). d.day) e in omega (arith, same)) refl
