-- ===== src/Schema/Widths.antt =====
-- The records of a run against the widths of the columns that the migration declares, as far as their
-- cells come from the payments and from the job itself. What the clearing file brings is not bounded.
use Prim.Native.String.{count}
use package.text.Mathlib.TextLemmas.{length-append}
use mathlib.Core.Path.{subst}
use global_payments_api.Prelude.{
  ◌and◌, ℕ, ◌-◌, ◌^◌, ◌≤◌, ◌<◌, String, ◌==◌, ◌<>◌, ◌≡◌, sym, Bool, true, ◌||◌, List, [], ◌∷◌, ◌++◌,
  All, All-map, inl, inr, magnitude, arith, if◌then◌else◌,
}
use global_payments_api.Python.Raised.{Result, ok, err}
use global_payments_api.Python.Decimal.{show, pad}
use global_payments_api.Python.Decimal.Digits.{count-pad}
use global_payments_api.Python.Decimal.Digits.Width.{count-show}
use global_payments_api.Python.Decimal.Hundredths.{IsBelow, of_minor_units-IsBelow}
use global_payments_api.Python.Float.{Float}
use global_payments_api.Python.Date.{Date, compact}
use global_payments_api.Frame.{Cell, text, decimal, Frame}
use global_payments_api.Pandas.{Pandas, IsDocumented}
use global_payments_api.Models.{
  ReconciliationRecord, ReconciliationStatus, matched, unmatched, exception, value,
}
use global_payments_api.Services.{Payment, Services, IsSession, View}
use global_payments_api.Loading.{load_clearing_file}
use global_payments_api.Loading.Query.{IsIn, select_payments}
use global_payments_api.Run.{Summary, run_id_of, run_daily_reconciliation}
use global_payments_api.Run.Stand.{Fits}
use global_payments_api.Run.Records.{IsOf}
use global_payments_api.Run.Coverage.{Covers, run_daily_reconciliation-Covers}
use global_payments_api.Schema.{ColumnType, string, numeric, record_columns}
use global_payments_api.Schema.Required.{cell_of}

-- A cell that a column of this type takes. A number is rounded to the digits behind its point.
abbrev pub FitsType : {F : Type 0} → ColumnType → Cell F → Type 0
FitsType (string n) (text s) = count s ≤ n
FitsType (numeric precision scale) (decimal d) = IsBelow (precision - scale) d
FitsType _ _ = Unit

-- The columns whose cells do not come from the clearing file.
abbrev pub is_own : String → Bool
is_own c =
    c == "payment_reference"
    || (c == "internal_amount"
        || (c == "internal_currency"
            || (c == "internal_status" || (c == "status" || c == "reconciliation_run_id"))))

abbrev stored_cell : {F : Type 0} → String → ReconciliationRecord F → Cell F
stored_cell c r =
    if c == "status"
    then text (value r.status)
    else if c == "reconciliation_run_id"
    then text r.reconciliation_run_id
    else cell_of c r

abbrev pub IsWithin : {F : Type 0} → ReconciliationRecord F → Type 0
IsWithin r =
    All (λ col. is_own col.name ≡ true → FitsType col.type (stored_cell col.name r)) record_columns

-- A payment within the widths of its own table, and of less than 10^18 minor units.
pub record IsBounded (p : Payment) : Type 0 where
  pub reference : count p.payment_reference ≤ 30
  pub currency : count p.currency ≤ 3
  pub status : count p.status ≤ 20
  pub amount : magnitude p.amount_minor_units < 10 ^ 18

count-run_id_of : (d : Date) → d.year < 10000 → count (run_id_of d) ≤ 50
unfolding run_id_of compact
count-run_id_of d h =
    let year = count-show d.year 3 h in
    omega (
      arith,
      year,
      count-pad 2 d.month,
      count-pad 2 d.day,
      length-append "RECON-" (show d.year <> pad 2 d.month <> pad 2 d.day),
      length-append (show d.year) (pad 2 d.month <> pad 2 d.day),
      length-append (show d.year <> pad 2 d.month) (pad 2 d.day),
      length-append (show d.year) (pad 2 d.month),
      length-append (pad 2 d.month) (pad 2 d.day),
    )

count-value : (s : ReconciliationStatus) → count (value s) ≤ 20
count-value matched = omega arith
count-value unmatched = omega arith
count-value exception = omega arith

module _ (fl : Float) (pd : Pandas fl.F) (stamp_text : ℕ → String)
    (doc : IsDocumented fl.nan pd) where
  open fl use {F}

  of-IsWithin :
      (run_id : String) (p : Payment) (r : ReconciliationRecord F)
      → IsBounded p
      → count run_id ≤ 50
      → IsOf fl pd stamp_text doc run_id p r
      → IsWithin r
  unfolding cell_of
  of-IsWithin run_id p r b short h =
      (λ q. cc)
      and (λ q. subst (FitsType (string 30)) (sym h.payment_reference) b.reference)
      and (λ q. cc)
      and (λ q.
          subst (FitsType (numeric 18 2)) (sym h.internal_amount)
            (of_minor_units-IsBelow p.amount_minor_units b.amount))
      and (λ q. subst (FitsType (string 3)) (sym h.internal_currency) b.currency)
      and (λ q. subst (FitsType (string 20)) (sym h.internal_status) b.status)
      and (λ q. cc)
      and (λ q. cc)
      and (λ q. cc)
      and (λ q. cc)
      and (λ q. cc)
      and (λ q. cc)
      and (λ q. count-value r.status)
      and (λ q. cc)
      and (λ q. cc)
      and (λ q. subst (λ c. count c ≤ 50) (sym h.run) short)
      and (λ q. cc)
      and (λ q. cc)
      and tt

  in-IsBounded : (p : Payment) (ps : List Payment) → All IsBounded ps → IsIn p ps → IsBounded p
  in-IsBounded p [] h i = absurd i
  in-IsBounded p (q ∷ ps) h (inl e) = subst IsBounded e h.0
  in-IsBounded p (q ∷ ps) h (inr i) = in-IsBounded p ps h.1 i

  module _ (svc : Services F) (sess : IsSession svc) (ids : ℕ → ℕ) (to_csv : Frame F → String)
      (bucket : String) (date_of : ℕ → Date) (before : String → String → Bool) where
    open svc use {World, view}

    -- A run that returns has added records that are within the widths.
    abbrev pub StoresWithin : View F → Result (Summary F) × World → Type 0
    StoresWithin v (err e, w') = Unit
    StoresWithin v (ok s, w') =
        (all : List (ReconciliationRecord F)) × ((view w').records ≡ v.records ++ all)
        × All IsWithin all

    Covers-StoresWithin :
        (d : Date) (table : List Payment) (v : View F) (m : Result (Summary F) × World)
        → d.year < 10000
        → All IsBounded table
        → Covers fl pd stamp_text doc svc sess ids to_csv bucket date_of before d table v m
        → StoresWithin v m
    Covers-StoresWithin d table v (err e, w') h b c = tt
    Covers-StoresWithin d table v (ok s, w') h b (all, recs, c) = (
      all,
      recs,
      All-map
          (λ r (p, i, due, k).
            of-IsWithin (run_id_of d) p r (in-IsBounded p table b i) (count-run_id_of d h) k)
          all c.of_payment,
    )

    -- With pandas as documented, where the query of the day gives what its SQL selects of a table of
    -- payments, the clearing file of the day can be merged with these payments and has none of their own
    -- columns, the year of the day has at most four digits, and the payments of the table are within
    -- its own widths and of less than 10^18 minor units: from a session with no records staged, in the
    -- records that a run adds where it returns, the cells that do not come from the clearing file are
    -- within the widths that the migration declares for their columns.
    pub run_daily_reconciliation-StoresWithin :
        (d : Date) (table : List Payment)
        → ((w w' : World) (ps : List Payment)
            → svc.query_payments d w ≡ (ok ps, w')
            → ps ≡ select_payments date_of before d table)
        → ((w w' : World) (clearing : Frame F)
            → load_clearing_file fl pd stamp_text svc bucket d w ≡ (ok clearing, w')
            → Fits fl pd stamp_text doc (select_payments date_of before d table) clearing)
        → d.year < 10000
        → All IsBounded table
        → (w : World) → (view w).staged ≡ []
        → StoresWithin
            (view w)
            (run_daily_reconciliation fl pd stamp_text svc ids to_csv bucket d w)
    run_daily_reconciliation-StoresWithin d table reads fits h b w idle =
        Covers-StoresWithin d table (view w) _ h b (
          run_daily_reconciliation-Covers fl pd stamp_text doc svc sess ids to_csv bucket date_of
            before d table reads fits w idle)
