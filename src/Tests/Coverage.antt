-- ===== src/Tests/Coverage.antt =====
-- A run on a table of payments, with a clearing file.
use global_payments_api.Prelude.{
  arith, All, map, ℕ, String, ◌≡◌, refl, sym, ap, ◌∙◌, eqb, if◌then◌else◌, List, [], ◌∷◌, Bool,
  true, none,
}
use mathlib.Core.Path.{subst}
use global_payments_api.Python.Raised.{Result, ok, err}
use global_payments_api.Python.Date.{Date}
use global_payments_api.Python.Decimal.Parse.{decimal_of}
use global_payments_api.Python.Float.Sample.{Millionths, sample_float}
use global_payments_api.Frame.{item, text, stamp, Frame, get, assign}
use global_payments_api.Pandas.{Pandas, IsDocumented}
use global_payments_api.Services.{Payment, Services, IsSession, attempts, after_attempt}
use global_payments_api.Services.Memory.{Memory, memory, memory-IsSession}
use global_payments_api.Loading.{
  payments_frame, or_missing_file, load_clearing_file, try_clearing_file, clearing_frame, rename,
  column,
}
use global_payments_api.Loading.Query.{is_wanted, select_payments}
use global_payments_api.Reconcile.Cells.{equal_cells, cell_text}
use global_payments_api.Services.{find_run}
use global_payments_api.Reconcile.{reconcile}
use global_payments_api.Run.{run_id_of, run_daily_reconciliation}
use global_payments_api.Persist.{record_of}
use global_payments_api.Run.Stand.{Fits}
use global_payments_api.Run.Coverage.{Covers, run_daily_reconciliation-Covers}
use global_payments_api.Schema.Widths.{
  IsBounded, StoresWithin, run_daily_reconciliation-StoresWithin,
}
use global_payments_api.Tests.{panda, panda-IsDocumented, stamp_text, payment}
use global_payments_api.Tests.Runs.{day, ids, to_csv, no_tables, ready}

-- Time 1 is on the day, and no other one.
abbrev date_of : ℕ → Date
date_of t = if eqb t 1 then day else record { year = 2024; month = 3; day = 16 }

abbrev before : String → String → Bool
before s t = true

-- A completed payment, one that is under way, and one of the next day.
abbrev table : List Payment
table =
    payment
    ∷ record payment { payment_reference = "PAY-2"; status = "PENDING" }
    ∷ record payment { payment_reference = "PAY-3"; created_at = 2 }
    ∷ []

-- What is read of the file.
abbrev raw : Frame Millionths
raw = record {
  columns =
      "payment_reference" ∷ "amount" ∷ "currency" ∷ "reference" ∷ "status" ∷ "settled_at" ∷ [];
  rows =
      (("payment_reference", text "PAY-1")
        ∷ ("amount", text "250.50")
        ∷ ("currency", text "GBP")
        ∷ ("reference", text "NET-1")
        ∷ ("status", text "SETTLED")
        ∷ ("settled_at", stamp 3)
        ∷ [])
      ∷ [];
}

abbrev pub reader : Pandas Millionths
reader = record panda { read_csv = λ body. ok raw }

pub reader-IsDocumented : IsDocumented none reader
reader-IsDocumented = record {
  merge_lem = panda-IsDocumented.merge_lem;
  infer_lem = panda-IsDocumented.infer_lem;
  isna-null = refl;
  missing_lem = panda-IsDocumented.missing_lem;
  isna-not_a_time = refl;
  isna-nan = refl;
  isna-text = λ s. refl;
}

abbrev dated : Services Millionths
dated = record memory {
  query_payments = λ d m. (ok (select_payments date_of before d table), m);
  get_object = λ b k m. (ok "csv", m);
}

dated-IsSession : IsSession dated
dated-IsSession = record {
  view-add_run = λ r w. refl;
  view-set_run = λ r w. refl;
  rollback-set_run = λ r w. refl;
  bulk_save_lem = memory-IsSession.bulk_save_lem;
  commit_lem = memory-IsSession.commit_lem;
  commit_blocked = memory-IsSession.commit_blocked;
  commit_clash = memory-IsSession.commit_clash;
  retry_lem = λ f w. refl;
  view-query = λ d w. refl;
  view-get = λ b k w. refl;
  view-put = λ b k t w. refl;
}

unfoldable pub clearing :
    (c : Frame Millionths) × (clearing_frame sample_float reader stamp_text "csv" ≡ ok c)
unfolding clearing_frame rename column decimal_of cell_text get assign
clearing = (_, refl)

clearing-Fits :
    Fits sample_float reader stamp_text reader-IsDocumented
      (select_payments date_of before day table)
      (clearing.0)
unfolding clearing select_payments is_wanted payments_frame
clearing-Fits = (
  record { key_left = refl; key_right = refl; labels = refl },
  record {
    no_payment_id = refl;
    no_internal_amount = refl;
    no_internal_currency = refl;
    no_internal_status = refl;
    no_internal_created_at = refl;
  },
)

frame_or : Frame Millionths → Result (Frame Millionths) × Memory Millionths → Frame Millionths
frame_or f (ok g, w) = g
frame_or f (err e, w) = f

loaded :
    (w w' : Memory Millionths) (c : Frame Millionths)
    → load_clearing_file sample_float reader stamp_text dated "bucket" day w ≡ (ok c, w')
    → clearing.0 ≡ c
unfolding load_clearing_file try_clearing_file frame_or
loaded w w' c h =
    sym (
      ap
        (λ m. frame_or c (
          after_attempt (or_missing_file sample_float reader stamp_text m, w)
            (attempts 2 (try_clearing_file sample_float reader stamp_text dated "bucket" day))))
        (clearing.1))
    ∙ ap (frame_or c) h

some_payments :
    (w w' : Memory Millionths) (ps : List Payment)
    → dated.query_payments day w ≡ (ok ps, w')
    → ps ≡ select_payments date_of before day table
some_payments w w' ps h = sym (ap payments_of h)
  where
    payments_of : Result (List Payment) × Memory Millionths → List Payment
    payments_of (ok l, v) = l
    payments_of (err e, v) = ps

run_daily_reconciliation-Covers_example :
    Covers sample_float reader stamp_text reader-IsDocumented dated dated-IsSession ids to_csv
      "bucket" date_of before day table no_tables
      (run_daily_reconciliation sample_float reader stamp_text dated ids to_csv "bucket" day ready)
run_daily_reconciliation-Covers_example =
    run_daily_reconciliation-Covers sample_float reader stamp_text reader-IsDocumented dated
      dated-IsSession ids to_csv "bucket" date_of before day table some_payments
      (λ w w' c h.
        subst
          (Fits sample_float reader stamp_text reader-IsDocumented
            (select_payments date_of before day table))
          (loaded w w' c h) clearing-Fits)
      ready refl

-- The run returns, with one record, of the completed payment of the day.
one_record :
    map
      (λ r. r.payment_reference)
      ((run_daily_reconciliation sample_float reader stamp_text dated ids to_csv "bucket" day
        ready).1.tables.records)
    ≡ text "PAY-1" ∷ []
unfolding run_daily_reconciliation load_clearing_file try_clearing_file clearing_frame rename column
    decimal_of cell_text get assign reconcile find_run select_payments is_wanted payments_frame
    run_id_of item equal_cells record_of
one_record = refl

bounded : All IsBounded table
bounded = (
  record {
    reference = omega arith;
    currency = omega arith;
    status = omega arith;
    amount = omega arith;
  },
  (
    record {
      reference = omega arith;
      currency = omega arith;
      status = omega arith;
      amount = omega arith;
    },
    (
      record {
        reference = omega arith;
        currency = omega arith;
        status = omega arith;
        amount = omega arith;
      },
      tt,
    ),
  ),
)

run_daily_reconciliation-StoresWithin_example :
    StoresWithin sample_float reader stamp_text reader-IsDocumented dated dated-IsSession ids to_csv
      "bucket" date_of before no_tables
      (run_daily_reconciliation sample_float reader stamp_text dated ids to_csv "bucket" day ready)
run_daily_reconciliation-StoresWithin_example =
    run_daily_reconciliation-StoresWithin sample_float reader stamp_text reader-IsDocumented dated
      dated-IsSession ids to_csv "bucket" date_of before day table some_payments
      (λ w w' c h.
        subst
          (Fits sample_float reader stamp_text reader-IsDocumented
            (select_payments date_of before day table))
          (loaded w w' c h) clearing-Fits)
      (omega arith) bounded ready refl
