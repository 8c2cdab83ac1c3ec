-- ===== src/Routes/Records/Pages.antt =====
-- The pages of a run's records: what they hold together.
use native.Mathlib.Nat.{suc-mul}
use mathlib.Core.List.{map-append}
use global_payments_api.Prelude.{
  ℕ, zero, suc, ◌+◌, ◌*◌, ◌≤◌, min, ℤ, pos, String, ◌≡◌, refl, sym, ap, ◌∙◌, Bool, true, Option,
  none, List, [], ◌∷◌, ◌++◌, map, take, drop, length, select, arith,
}
use global_payments_api.Python.Raised.{Result}
use global_payments_api.Python.Float.{Float}
use global_payments_api.Python.Date.{Date}
use global_payments_api.Models.{ReconciliationStatus, ReconciliationRecord}
use global_payments_api.Run.{run_id_of}
use global_payments_api.Routes.Exceptions.{report_on}
use global_payments_api.Routes.Records.{
  RecordBody, Paged, IsPaginate, serialize_record, is_selected, records_page,
}

module _ {A : Type 0} where
  take-nil : (n : ℕ) → take {A = A} n [] ≡ []
  take-nil zero = refl
  take-nil (suc n) = refl

  -- A prefix is one stretch more.
  take-add : (n m : ℕ) (xs : List A) → take n xs ++ take m (drop n xs) ≡ take (n + m) xs
  take-add zero m xs = let e : 0 + m ≡ m = omega arith in rw e
  take-add (suc n) m [] = let e : suc n + m ≡ suc (n + m) = omega arith in rw e (take-nil m)
  take-add (suc n) m (x ∷ xs) =
      let e : suc n + m ≡ suc (n + m) = omega arith in rw e (ap (λ l. x ∷ l) (take-add n m xs))

  pub take_all : (n : ℕ) (xs : List A) → length xs ≤ n → take n xs ≡ xs
  take_all zero [] h = refl
  take_all zero (x ∷ xs) h = absurd (omega arith)
  take_all (suc n) [] h = refl
  take_all (suc n) (x ∷ xs) h = ap (λ l. x ∷ l) (take_all n xs (omega (arith, h)))

-- The first pages one behind another.
abbrev pub first_pages {ℓ} : {A : Type ℓ} → ℕ → (ℕ → List A) → List A
first_pages zero page = []
first_pages (suc k) page = first_pages k page ++ page (suc k)

-- Pages that are cut of one list, each item serialized, make a prefix of it.
pub first_pages-map-take :
    {A B : Type 0} (f : A → B) (page : ℕ → List B) (n : ℕ) (xs : List A)
    → ((k : ℕ) → page (suc k) ≡ map f (take n (drop (k * n) xs)))
    → (k : ℕ) → first_pages k page ≡ map f (take (k * n) xs)
first_pages-map-take f page n xs cut zero = let e : 0 * n ≡ 0 = omega arith in rw e refl
first_pages-map-take f page n xs cut (suc k) =
    let next : suc k * n ≡ k * n + n = suc-mul k n in
    ap (λ l. l ++ page (suc k)) (first_pages-map-take f page n xs cut k)
    ∙ ap (λ l. map f (take (k * n) xs) ++ l) (cut k)
    ∙ sym (map-append f (take (k * n) xs) (take n (drop (k * n) xs)))
    ∙ ap (map f) (take-add (k * n) n xs)
    ∙ ap (λ m. map f (take m xs)) (sym next)

module _ (fl : Float) (stamp_text : ℕ → String) (to_int : String → Result ℤ)
    (lower : String → String) (enum_of : String → Result ReconciliationStatus)
    (reconciled : ReconciliationRecord fl.F → Option String)
    (paginate : ℤ → ℤ → List (ReconciliationRecord fl.F) → Paged (ReconciliationRecord fl.F))
    (ordered : List (ReconciliationRecord fl.F) → List (ReconciliationRecord fl.F))
    (pages : IsPaginate ordered paginate) (run_id : String) (status : Option ReconciliationStatus)
    (only_exceptions : Bool) (table : List (ReconciliationRecord fl.F)) where
  open fl use {F}

  -- The records that the filters leave.
  abbrev pub selected : List (ReconciliationRecord F)
  selected =
      select
        (is_selected fl stamp_text to_int lower enum_of reconciled paginate run_id status
          only_exceptions)
        table

  -- A page of the response, by its number and size.
  abbrev pub page_of : ℕ → ℕ → Paged (RecordBody F)
  page_of q p =
      records_page fl stamp_text to_int lower enum_of reconciled paginate run_id status
        only_exceptions (pos p) (pos q) table

  abbrev pub bodies : List (ReconciliationRecord F) → List (RecordBody F)
  bodies = map (serialize_record fl stamp_text to_int lower enum_of reconciled paginate)

  page_of-take :
      (q k : ℕ)
      → suc q ≤ 200
      → (page_of (suc q) (suc k)).items
        ≡ bodies (take (suc q) (drop (k * suc q) (ordered selected)))
  unfolding records_page
  page_of-take q k small =
      let whole : min (suc q) 200 ≡ suc q = omega arith in rw (whole, pages.items_lem k q selected)

  enough_pages :
      (q p : ℕ) → suc q ≤ 200 → length (ordered selected) ≤ (page_of (suc q) p).pages * suc q
  unfolding records_page
  enough_pages q p small =
      let whole : min (suc q) 200 ≡ suc q = omega arith in
      rw whole (omega (arith, pages.length-ordered selected, pages.pages_lem (pos p) q selected))

  -- With a `paginate` that cuts one list of the rows into pages: for a size from 1 to 200, the pages
  -- from the first to the last, by the number of pages that each response gives, hold together the
  -- bodies of that list.
  pub first_pages-records_page :
      (q p : ℕ)
      → suc q ≤ 200
      → first_pages (page_of (suc q) p).pages (λ n. (page_of (suc q) n).items)
        ≡ bodies (ordered selected)
  first_pages-records_page q p small =
      first_pages-map-take _ (λ n. (page_of (suc q) n).items) (suc q) (ordered selected)
        (λ k. page_of-take q k small) (page_of (suc q) p).pages
      ∙ ap bodies
          (take_all ((page_of (suc q) p).pages * suc q) (ordered selected) (enough_pages q p small))

-- Both endpoints agree: with an order that keeps the number of records and a `paginate` that counts
-- them, the report of exceptions of a date counts as many as any page of the records of that date's
-- run says that there are, without a status and with `exceptions_only`.
pub report_on-records_page :
    (fl : Float) (stamp_text : ℕ → String) (to_int : String → Result ℤ) (lower : String → String)
    (enum_of : String → Result ReconciliationStatus)
    (reconciled : ReconciliationRecord fl.F → Option String)
    (paginate : ℤ → ℤ → List (ReconciliationRecord fl.F) → Paged (ReconciliationRecord fl.F))
    (ordered : List (ReconciliationRecord fl.F) → List (ReconciliationRecord fl.F))
    (pages : IsPaginate ordered paginate) (from_iso : String → Result Date) (date_str : String)
    (d : Date) (table : List (ReconciliationRecord fl.F)) (page per_page : ℤ)
    → (report_on fl stamp_text from_iso ordered date_str d table).count
      ≡ (records_page fl stamp_text to_int lower enum_of reconciled paginate
          (run_id_of d)
          none
          true
          page
          per_page
          table).total
unfolding records_page
report_on-records_page fl stamp_text to_int lower enum_of reconciled paginate ordered pages from_iso
      date_str d table page per_page =
    pages.length-ordered _ ∙ sym (pages.total_lem page _ _)
