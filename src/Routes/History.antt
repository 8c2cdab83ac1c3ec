-- ===== src/Routes/History.antt =====
-- The endpoints of one run and of its records, on the tables that runs have left.
use global_payments_api.Prelude.{
  ℕ, suc, ◌≤◌, ◌+◌, ℤ, String, ◌==◌, ◌≡◌, refl, ap, ◌∙◌, Bool, true, false, Bool-cases, inl, inr,
  Option, none, some, Option-cases, List, [], ◌∷◌, ◌&&◌, length, length-map, select, count_if,
  arith,
}
use global_payments_api.Python.Raised.{Result}
use global_payments_api.Python.Float.{Float}
use global_payments_api.Python.Date.{Date}
use global_payments_api.Frame.{Frame}
use global_payments_api.Pandas.{Pandas, IsDocumented}
use global_payments_api.Models.{ReconciliationStatus, ReconciliationRun, ReconciliationRecord}
use global_payments_api.Services.{Services, View, IsSession, find_run}
use global_payments_api.Run.History.{count_of, Reached, Reached-IsSound}
use global_payments_api.Routes.Runs.{RunBody, not_found_404, found_200, run_body, get_run}
use global_payments_api.Routes.Records.{RecordBody, Paged, IsPaginate}
use global_payments_api.Routes.Records.Pages.{first_pages, page_of, first_pages-records_page}

module _ {A : Type 0} where
  length-select :
      (p q : A → Bool)
      → ((a : A) → p a ≡ q a)
      → (xs : List A) → length (select p xs) ≡ count_if q xs
  length-select p q h [] = refl
  length-select p q h (x ∷ xs) =
      let e = length-select p q h xs in
      elim (Bool-cases (q x)) [
        | inl c ↦ let px = h x ∙ c in rw (px, c) (ap suc e)
        | inr c ↦ let px = h x ∙ c in rw (px, c) e
      ]

module _ (fl : Float) (date_text : Date → String) (time_text : ℕ → String)
    (amount_text : fl.F → String) where
  open fl use {F}

  -- The row behind a body.
  get_run-find_run :
      (i : String) (runs : List (ReconciliationRun F)) (b : RunBody F)
      → get_run fl date_text time_text amount_text i runs ≡ found_200 b
      → (r : ReconciliationRun F) × (find_run i runs ≡ some r)
        × (run_body fl date_text time_text amount_text r ≡ b)
  unfolding get_run
  get_run-find_run i runs b h = elim (Option-cases (find_run i runs)) [
    | inl e ↦ absurd (nothing (rw e at h))
    | inr (r, e) ↦ (r, e, same_body (rw e at h))
  ]
    where
      nothing : ¬ (not_found_404 ≡ found_200 b)
      nothing e = cc

      same_body : {a : RunBody F} → found_200 a ≡ found_200 b → a ≡ b
      same_body e = cc

and-true : (b : Bool) → (b && (true && true)) ≡ b
and-true true = refl
and-true false = refl

module _ (fl : Float) (pd : Pandas fl.F) (stamp_text : ℕ → String) (doc : IsDocumented fl.nan pd)
    (svc : Services fl.F) (sess : IsSession svc) (ids : ℕ → ℕ) (to_csv : Frame fl.F → String)
    (bucket : String) (date_text : Date → String) (amount_text : fl.F → String)
    (to_int : String → Result ℤ) (lower : String → String)
    (enum_of : String → Result ReconciliationStatus)
    (reconciled : ReconciliationRecord fl.F → Option String)
    (paginate : ℤ → ℤ → List (ReconciliationRecord fl.F) → Paged (ReconciliationRecord fl.F))
    (ordered : List (ReconciliationRecord fl.F) → List (ReconciliationRecord fl.F))
    (pages : IsPaginate ordered paginate) where
  open fl use {F}

  -- All records of a run that a client reads page by page without filters.
  abbrev pub all_pages : String → ℕ → List (ReconciliationRecord F) → List (RecordBody F)
  all_pages i q table =
      let page =
        page_of fl stamp_text to_int lower enum_of reconciled paginate ordered pages i none false
          table q in
      first_pages (page 1).pages (λ n. (page n).items)

  length-all_pages :
      (i : String) (q : ℕ) (table : List (ReconciliationRecord F))
      → suc q ≤ 200
      → length (all_pages i (suc q) table) ≡ count_of i table
  length-all_pages i q table small =
      ap length (
        first_pages-records_page fl stamp_text to_int lower enum_of reconciled paginate ordered
          pages i none false table q 1 small)
      ∙ length-map _ _
      ∙ pages.length-ordered _
      ∙ length-select _ (λ r. r.reconciliation_run_id == i)
          (λ r. and-true (r.reconciliation_run_id == i)) table

  -- With pandas and the pagination as documented, in the tables that any runs have led to from empty
  -- ones: if the endpoint of a run answers that it is COMPLETED, then a client that reads all pages of
  -- its records, of a size from 1 to 200, gets exactly as many as the answer's number of records, and
  -- the matched, the unmatched and the exceptions of the answer add up to it.
  pub get_run-all_pages :
      (v : View F)
      → Reached fl pd stamp_text doc svc sess ids to_csv bucket v
      → (i : String) (b : RunBody F) (q : ℕ)
      → get_run fl date_text stamp_text amount_text i v.runs ≡ found_200 b
      → b.status ≡ "COMPLETED"
      → suc q ≤ 200
      → (length (all_pages i (suc q) v.records) ≡ b.total_records)
        × (b.matched + b.unmatched + b.exceptions ≡ b.total_records)
  get_run-all_pages v reached i b q h c small =
      let (r, found, body) = get_run-find_run fl date_text stamp_text amount_text i v.runs b h in
      let whole =
        (Reached-IsSound fl pd stamp_text doc svc sess ids to_csv bucket v reached).completed i r
          found (ap (λ (x : RunBody F). x.status) body ∙ c) in
      (
        length-all_pages i q v.records small
            ∙ whole.stored
            ∙ ap (λ (x : RunBody F). x.total_records) body,
        omega (
          arith,
          whole.adds_up,
          ap (λ (x : RunBody F). x.total_records) body,
          ap (λ (x : RunBody F). x.matched) body,
          ap (λ (x : RunBody F). x.unmatched) body,
          ap (λ (x : RunBody F). x.exceptions) body,
        ),
      )
