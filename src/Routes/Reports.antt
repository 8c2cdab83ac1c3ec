-- ===== src/Routes/Reports.antt =====
-- `GET /api/v1/reports/summary`: `summary` of data-processing-service/app/routes/reports.py. The
-- functions of `datetime.date` and the arithmetic of `Numeric` columns are parameters; the query is
-- the filter that it asks for.
use mathlib.Core.Path.{subst}
use global_payments_api.Prelude.{
  ℕ, suc, ◌+◌, ◌≤◌, String, ◌==◌, ◌≡◌, refl, ap, Bool, true, ◌&&◌, List, [], ◌∷◌, map, Option, none,
  some, arith, length, leb, ltb, ltb-false→le, count_if, if◌then◌else◌, All, select, eq_iff,
  Bool-cases, inl, inr,
}
use global_payments_api.Python.Raised.{Result, ok, err, ◌>>=◌, >>=-eq-ok}
use global_payments_api.Python.Date.{Date}
use global_payments_api.Python.Float.{Float}
use global_payments_api.Models.{ReconciliationRun, match_rate}

-- `ordinal` is the number of a day, `toordinal`, and `back d n` is `d - timedelta(days=n)`.
pub record Calendar : Type 0 where
  pub from_iso : String → Result Date
  pub ordinal : Date → ℕ
  pub back : Date → ℕ → Result Date
  pub today : Date

pub record Totals (F : Type 0) : Type 0 where
  pub from_date : Date
  pub to_date : Date
  pub total_runs : ℕ
  pub total_records : ℕ
  pub total_matched : ℕ
  pub total_unmatched : ℕ
  pub total_exceptions : ℕ
  pub avg_match_rate_pct : F
  pub total_amount_gbp : String

-- The body without runs has a key `avg_match_rate`, and no amount.
pub data Report (F : Type 0) : Type 0 where
  range_too_long : Report F
  no_runs : Date → Date → Report F
  totals : Totals F → Report F

module _ (cal : Calendar) where
  open cal use {from_iso, ordinal, back, today}

  -- `date.fromisoformat(s) if s else …`
  abbrev date_or : Result Date → Option String → Result Date
  date_or default none = default
  date_or default (some s) = if s == "" then default else from_iso s

  -- `(to_date - from_date).days > 90`
  abbrev too_long : Date → Date → Bool
  too_long from_date to_date = ltb (ordinal from_date + 90) (ordinal to_date)

module _ {F : Type 0} where
  -- `sum(f(r) for r in runs)`
  abbrev pub sum_of : (ReconciliationRun F → ℕ) → List (ReconciliationRun F) → ℕ
  sum_of f [] = 0
  sum_of f (r ∷ runs) = f r + sum_of f runs

module _ (fl : Float) (cal : Calendar) (amount_text : List fl.F → String)
    (nonzero : fl.F → Bool) where
  open fl use {F}
  open cal use {ordinal}

  -- The three conditions of the query.
  abbrev pub is_listed : Date → Date → ReconciliationRun F → Bool
  is_listed from_date to_date r =
      leb (ordinal from_date) (ordinal r.run_date)
      && (leb (ordinal r.run_date) (ordinal to_date) && (r.status == "COMPLETED"))

  abbrev pub listed : Date → Date → List (ReconciliationRun F) → List (ReconciliationRun F)
  listed from_date to_date = select (is_listed from_date to_date)

  abbrev pub report_of : Date → Date → List (ReconciliationRun F) → Report F
  report_of from_date to_date [] = no_runs from_date to_date
  report_of from_date to_date (r ∷ rs) =
      let runs = r ∷ rs in
      totals (record {
        from_date = from_date;
        to_date = to_date;
        total_runs = length runs;
        total_records = sum_of (λ q. q.total_records) runs;
        total_matched = sum_of (λ q. q.matched_count) runs;
        total_unmatched = sum_of (λ q. q.unmatched_count) runs;
        total_exceptions = sum_of (λ q. q.exception_count) runs;
        avg_match_rate_pct =
            match_rate fl (sum_of (λ q. q.matched_count) runs) (sum_of (λ q. q.total_records) runs);
        total_amount_gbp =
            amount_text
              (select nonzero (map (λ (q : ReconciliationRun F). q.total_amount_gbp) runs));
      })

  unfoldable pub summary :
      Option String → Option String → List (ReconciliationRun F) → Result (Report F)
  summary from_str to_str runs = do
    to_date ← date_or cal (ok cal.today) to_str
    from_date ← date_or cal (cal.back to_date 30) from_str
    ok (
        if too_long cal from_date to_date
        then range_too_long
        else report_of from_date to_date (listed from_date to_date runs))

  -- The counters of a completed run add up to its records.
  abbrev pub IsTallied : ReconciliationRun F → Type 0
  IsTallied r =
      r.status ≡ "COMPLETED"
      → r.matched_count + r.unmatched_count + r.exception_count ≡ r.total_records

  -- A report of these runs: the totals are of at most 91 days, count the listed runs, and add up;
  -- a report without runs is one of dates between which no run is completed.
  abbrev pub IsReport : List (ReconciliationRun F) → Report F → Type 0
  IsReport runs range_too_long = Unit
  IsReport runs (no_runs from_date to_date) = count_if (is_listed from_date to_date) runs ≡ 0
  IsReport runs (totals t) =
      (t.total_matched + t.total_unmatched + t.total_exceptions ≡ t.total_records)
      × (t.total_runs ≡ count_if (is_listed t.from_date t.to_date) runs)
      × (1 ≤ t.total_runs)
      × (ordinal t.to_date ≤ ordinal t.from_date + 90)

  listed-tallied :
      (from_date to_date : Date) (runs : List (ReconciliationRun F))
      → All IsTallied runs
      → (sum_of (λ q. q.matched_count) (listed from_date to_date runs)
            + sum_of (λ q. q.unmatched_count) (listed from_date to_date runs)
            + sum_of (λ q. q.exception_count) (listed from_date to_date runs)
          ≡ sum_of (λ q. q.total_records) (listed from_date to_date runs))
        × (length (listed from_date to_date runs) ≡ count_if (is_listed from_date to_date) runs)
  listed-tallied from_date to_date [] h = (refl, refl)
  listed-tallied from_date to_date (r ∷ runs) (t, h) =
      let (same, len) = listed-tallied from_date to_date runs h in
      elim (Bool-cases (is_listed from_date to_date r)) [
        | inl e ↦ rw e (
          omega (
            arith,
            same,
            t (
                completed (leb (ordinal from_date) (ordinal r.run_date))
                  (leb (ordinal r.run_date) (ordinal to_date)) r.status e),
          ),
          ap suc len,
        )
        | inr e ↦ rw e (same, len)
      ]
    where
      completed :
          (a b : Bool) (s : String) → (a && (b && (s == "COMPLETED"))) ≡ true → s ≡ "COMPLETED"
      completed a b s e = ground (arith, eq_iff s "COMPLETED")

  report_of-IsReport :
      (from_date to_date : Date) (runs rs : List (ReconciliationRun F))
      → listed from_date to_date runs ≡ rs
      → All IsTallied runs
      → ordinal to_date ≤ ordinal from_date + 90
      → IsReport runs (report_of from_date to_date rs)
  report_of-IsReport from_date to_date runs [] e h short =
      omega (arith, (listed-tallied from_date to_date runs h).1, ap length e)
  report_of-IsReport from_date to_date runs (r ∷ rs) e h short =
      let (same, len) = listed-tallied from_date to_date runs h in
      (
        subst
            (λ l.
              sum_of (λ q. q.matched_count) l
                + sum_of (λ q. q.unmatched_count) l
                + sum_of (λ q. q.exception_count) l
              ≡ sum_of (λ q. q.total_records) l)
            e same,
        omega (arith, ap length e, len),
        omega arith,
        short,
      )

  -- If the counters of every completed run add up, then so do the totals of every report that
  -- `summary` returns: it counts the completed runs between its two dates, at least one and none
  -- else, over at most 90 days from the first date; a report without runs says that there is none.
  pub summary-IsReport :
      (from_str to_str : Option String) (runs : List (ReconciliationRun F)) (report : Report F)
      → All IsTallied runs
      → summary from_str to_str runs ≡ ok report
      → IsReport runs report
  unfolding summary
  summary-IsReport from_str to_str runs report tallied h =
      let (to_date, _, h1) = >>=-eq-ok (date_or cal (ok cal.today) to_str) _ h in
      let (from_date, _, h2) = >>=-eq-ok (date_or cal (cal.back to_date 30) from_str) _ h1 in
      elim (Bool-cases (too_long cal from_date to_date)) [
        | inl e ↦ subst (λ (r : Result (Report F)). OfResult r) (rw e at h2) tt
        | inr e ↦
            subst (λ (r : Result (Report F)). OfResult r) (rw e at h2)
              (report_of-IsReport from_date to_date runs (listed from_date to_date runs) refl
                tallied (ltb-false→le _ _ e))
      ]
    where
      OfResult : Result (Report F) → Type 0
      OfResult (ok r) = IsReport runs r
      OfResult (err e) = Unit
