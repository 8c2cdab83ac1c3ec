-- ===== src/Tests/Returns.antt =====
-- A run on services that work, with a clearing file, whose database takes no NaN and no NaT for a time.
use global_payments_api.Prelude.{
  ◌≡◌, refl, sym, ap, Bool, true, false, not, ◌&&◌, List, [], ◌∷◌, All, arith,
}
use global_payments_api.Python.Raised.{Result, ok, err}
use global_payments_api.Python.Float.Sample.{Millionths, sample_float}
use global_payments_api.Frame.{
  Cell, null, stamp, Frame, get, get_or, item, assign, put, put_all, lookup,
}
use global_payments_api.Models.{ReconciliationRecord}
use global_payments_api.Services.{Services, IsSession}
use global_payments_api.Services.Memory.{
  Memory, save_if, save_if-lem, save_if-false, commit-succeeds, memory, memory-IsSession,
}
use global_payments_api.Loading.{payments_frame}
use global_payments_api.Reconcile.{reconcile}
use global_payments_api.Reconcile.Cells.{to_float, equal_cells}
use global_payments_api.Persist.{record_of}
use global_payments_api.Persist.Returns.{IsUp}
use global_payments_api.Run.{run_id_of}
use global_payments_api.Run.Storable.{CanSum}
use global_payments_api.Run.Returns.{IsAccepted}
use global_payments_api.Tests.{stamp_text, payment}
use global_payments_api.Tests.Coverage.{reader, reader-IsDocumented, clearing}
use global_payments_api.Tests.Runs.{day, ids, to_csv}

-- A cell that a column of times takes.
abbrev is_time_or_null : Cell Millionths → Bool
is_time_or_null null = true
is_time_or_null (stamp t) = true
is_time_or_null _ = false

abbrev Accepts : ReconciliationRecord Millionths → Type 0
Accepts r = is_time_or_null r.clearing_settled_at ≡ true

abbrev all_accepted : List (ReconciliationRecord Millionths) → Bool
all_accepted [] = true
all_accepted (r ∷ rs) = let rest = all_accepted rs in is_time_or_null r.clearing_settled_at && rest

all_accepted-All :
    (rs : List (ReconciliationRecord Millionths)) → All Accepts rs → not (all_accepted rs) ≡ false
all_accepted-All [] h = refl
all_accepted-All (r ∷ rs) h = ground (arith, h.0, all_accepted-All rs h.1)

-- One payment, its clearing record, and a database that refuses what it does not take.
abbrev careful : Services Millionths
careful = record memory {
  query_payments = λ d m. (ok (payment ∷ []), m);
  get_object = λ b k m. (ok "csv", m);
  bulk_save = λ rs m. save_if (not (all_accepted rs)) rs m;
}

careful-IsSession : IsSession careful
careful-IsSession = record {
  view-add_run = λ r w. refl;
  view-set_run = λ r w. refl;
  rollback-set_run = λ r w. refl;
  bulk_save_lem = λ rs w. save_if-lem (not (all_accepted rs)) rs w;
  commit_lem = memory-IsSession.commit_lem;
  commit_blocked = memory-IsSession.commit_blocked;
  commit_clash = memory-IsSession.commit_clash;
  retry_lem = λ f w. refl;
  view-query = λ d w. refl;
  view-get = λ b k w. refl;
  view-put = λ b k t w. refl;
}

abbrev Works : Memory Millionths → Type 0
Works w = w.broken ≡ false

careful-IsUp : IsUp careful Accepts Works
careful-IsUp = record {
  add_up = λ r w g. g;
  set_up = λ r w g. g;
  save_up =
      λ rs w h g. (tt, _, save_if-false (not (all_accepted rs)) rs w (all_accepted-All rs h), g);
  commit_up = λ w g can. (tt, _, commit-succeeds w g can, g);
}

sums : CanSum sample_float reader stamp_text reader-IsDocumented
unfolding to_float
sums = record { sum_lem = λ ds. (_, _, refl, refl) }

abbrev internal : Frame Millionths
internal = payments_frame sample_float reader stamp_text (payment ∷ [])

compared :
    (f : Frame Millionths) × (reconcile sample_float reader stamp_text internal (clearing.0) ≡ ok f)
    × IsAccepted sample_float reader stamp_text reader-IsDocumented careful ids to_csv "bucket" sums
        careful-IsSession Accepts Works careful-IsUp
        (run_id_of day)
        f.rows
unfolding reconcile clearing payments_frame equal_cells item get get_or assign put put_all lookup
    record_of run_id_of
compared = (_, refl, ((λ id r h. ap settled (sym h)), tt))
  where
    settled : Result (ReconciliationRecord Millionths) → Bool
    settled (ok r) = is_time_or_null r.clearing_settled_at
    settled (err e) = true
