-- ===== src/Tests/Tables.antt =====
-- The tables of the migration, and the records of a comparison of one payment in them.
use global_payments_api.Prelude.{◌≡◌, refl, [], ◌∷◌, none, some, All, All₂}
use global_payments_api.Python.Raised.{ok}
use global_payments_api.Python.Float.Sample.{sample_float}
use global_payments_api.Pandas.{left_pairs}
use global_payments_api.Reconcile.Suffix.{key}
use global_payments_api.Loading.{payments_frame}
use global_payments_api.Run.{run_id_of}
use global_payments_api.Run.Compared.{IsSeparate}
use global_payments_api.Run.Records.{IsOfPair, reconcile-IsOfPair}
use global_payments_api.Schema.{
  Catalogue, upgrade, downgrade, runs_table, records_table, run_columns, record_columns,
  perform_all,
}
use global_payments_api.Schema.Memory.{in_memory, in_memory-IsDatabase}
use global_payments_api.Schema.Migration.{IsFresh, downgrade-upgrade}
use global_payments_api.Schema.Required.{IsComplete, reconcile-IsComplete}
use global_payments_api.Tests.{
  panda, panda-IsDocumented, stamp_text, payment, clearing_df, internal_df, can_merge,
}
use global_payments_api.Tests.Runs.{day, ids}
use global_payments_api.Tests.Reported.{compared, built}

abbrev nothing_there : Catalogue
nothing_there = record { table = λ n. none; index = λ j. none }

nothing_there-IsFresh : IsFresh nothing_there
nothing_there-IsFresh = record {
  no_runs = refl;
  no_records = refl;
  no_runs_run_date = refl;
  no_runs_status = refl;
  no_recon_payment_ref = refl;
  no_recon_run_id = refl;
  no_recon_status = refl;
  no_recon_investigation = refl;
  no_index_on = λ j t cols e. cc;
}

downgrade-upgrade_example :
    (w1 w2 : Catalogue) × (perform_all in_memory upgrade nothing_there ≡ (ok tt, w1))
    × (w1.table runs_table ≡ some run_columns)
    × (w1.table records_table ≡ some record_columns)
    × (perform_all in_memory downgrade w1 ≡ (ok tt, w2))
    × (w2 ≡ nothing_there)
downgrade-upgrade_example =
    downgrade-upgrade in_memory in_memory-IsDatabase nothing_there nothing_there-IsFresh

apart : IsSeparate sample_float panda stamp_text panda-IsDocumented clearing_df
apart = record {
  no_payment_id = refl;
  no_internal_amount = refl;
  no_internal_currency = refl;
  no_internal_status = refl;
  no_internal_created_at = refl;
}

reconcile-IsOfPair_example :
    All₂
      (IsOfPair sample_float panda stamp_text panda-IsDocumented (run_id_of day))
      (left_pairs key
        (payments_frame sample_float panda stamp_text (payment ∷ [])).rows
        clearing_df.rows)
      (built.0)
unfolding internal_df
reconcile-IsOfPair_example =
    reconcile-IsOfPair sample_float panda stamp_text panda-IsDocumented clearing_df apart
      (run_id_of day) payment [] (compared.0) ids (built.0) can_merge (compared.1) (built.1)

reconcile-IsComplete_example : All IsComplete (built.0)
unfolding internal_df
reconcile-IsComplete_example =
    reconcile-IsComplete sample_float panda stamp_text panda-IsDocumented (λ t. refl) clearing_df
      apart (run_id_of day) payment [] (compared.0) ids (built.0) can_merge (compared.1) (built.1)
