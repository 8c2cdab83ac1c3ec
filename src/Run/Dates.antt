-- ===== src/Run/Dates.antt =====
-- Runs of different dates.
use Prim.Native.String.{count}
use text.Mathlib.TextLemmas.{length-append, append_cancel_left, append_inj}
use global_payments_api.Prelude.{
  ℕ, ◌≤◌, String, ◌<>◌, ◌==◌, eq_iff, ◌≡◌, ◌≢◌, sym, ap, ◌∙◌, false, Bool-cases, inl, inr, [],
  arith,
}
use global_payments_api.Python.Float.{Float}
use global_payments_api.Python.Decimal.{show, pad}
use global_payments_api.Python.Decimal.Digits.{count-pad, pad-two_inj, show_inj}
use global_payments_api.Python.Date.{Date, compact}
use global_payments_api.Frame.{Frame}
use global_payments_api.Pandas.{Pandas}
use global_payments_api.Services.{Services, View, IsSession, find_run}
use global_payments_api.Run.{run_id_of, run_daily_reconciliation}
use global_payments_api.Run.Others.{run_daily_reconciliation-KeepsOthers}
use global_payments_api.Run.Additions.{run_daily_reconciliation-Adds}
use global_payments_api.Run.History.{count_of, count_of-append, count_of-others}

-- What `datetime.date` makes sure of, as far as the key needs it.
pub record IsDate (d : Date) : Type 0 where
  pub month : d.month ≤ 12
  pub day : d.day ≤ 31

compact_inj : (a b : Date) → IsDate a → IsDate b → compact a ≡ compact b → a ≡ b
unfolding compact
compact_inj a b ha hb e =
    let (years, rest) = append_inj e (
      omega (
        arith,
        ap count e,
        length-append (show a.year) (pad 2 a.month <> pad 2 a.day),
        length-append (show b.year) (pad 2 b.month <> pad 2 b.day),
        length-append (pad 2 a.month) (pad 2 a.day),
        length-append (pad 2 b.month) (pad 2 b.day),
        count-pad 2 a.month,
        count-pad 2 a.day,
        count-pad 2 b.month,
        count-pad 2 b.day,
      )) in
    let (months, days) = append_inj rest (count-pad 2 a.month ∙ sym (count-pad 2 b.month)) in
    let year : a.year ≡ b.year = show_inj a.year b.year years in
    let month : a.month ≡ b.month =
      pad-two_inj a.month b.month (omega (arith, ha.month)) (omega (arith, hb.month)) months in
    let day : a.day ≡ b.day =
      pad-two_inj a.day b.day (omega (arith, ha.day)) (omega (arith, hb.day)) days in
    λ i. record { year = year i; month = month i; day = day i }

-- Different dates have different keys.
run_id_of-ne : (a b : Date) → IsDate a → IsDate b → a ≢ b → (run_id_of a == run_id_of b) ≡ false
unfolding run_id_of
run_id_of-ne a b ha hb ne = elim (Bool-cases (run_id_of a == run_id_of b)) [
  | inl e ↦ absurd (
      ne (
        compact_inj a b ha hb (
          append_cancel_left "RECON-" (compact a) (compact b)
            ((eq_iff (run_id_of a) (run_id_of b)).0 e))))
  | inr e ↦ e
]

-- The same row, and as many records, for a date.
abbrev pub KeepsDate : {F : Type 0} → Date → View F → View F → Type 0
KeepsDate d v u =
    (find_run (run_id_of d) u.runs ≡ find_run (run_id_of d) v.runs)
    × (count_of (run_id_of d) u.records ≡ count_of (run_id_of d) v.records)

-- A run of one date, from a session with no records staged and however it ends, changes nothing of
-- another date: the row of that date's run is as it was, or there is still none, and as many records
-- have its key as before.
pub run_of_other_date :
    (fl : Float) (pd : Pandas fl.F) (stamp_text : ℕ → String) (svc : Services fl.F)
    (sess : IsSession svc) (ids : ℕ → ℕ) (to_csv : Frame fl.F → String) (bucket : String)
    (d other : Date) (w : svc.World)
    → IsDate d
    → IsDate other
    → d ≢ other
    → (svc.view w).staged ≡ []
    → KeepsDate other
        (svc.view w)
        (svc.view (run_daily_reconciliation fl pd stamp_text svc ids to_csv bucket d w).1)
run_of_other_date fl pd stamp_text svc sess ids to_csv bucket d other w hd ho ne idle =
    let apart = run_id_of-ne d other hd ho ne in
    let adds = run_daily_reconciliation-Adds fl pd stamp_text svc sess ids to_csv bucket d w idle in
    (
      run_daily_reconciliation-KeepsOthers fl pd stamp_text svc sess ids to_csv bucket d w
          (run_id_of other) apart,
      ap (count_of (run_id_of other)) adds.records
          ∙ count_of-append (run_id_of other) (svc.view w).records adds.new
          ∙ omega (arith, count_of-others (run_id_of d) (run_id_of other) adds.new apart adds.own),
    )
