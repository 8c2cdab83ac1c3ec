-- ===== src/Routes/Records/Ascending.antt =====
-- The pages of a run's records where each of them is a query of its own: `get_run_records` of
-- data-processing-service/app/routes/reconciliation.py orders by the reference alone, so that the
-- database may order records with one reference in another way for each page.
use mathlib.Core.Logic.Or
use mathlib.Core.List.{Mem, Perm, mem-cons, mem-cons_self, mem-cons_of_mem}
use mathlib.Core.List.Perm
use mathlib.Core.Bool.{Bool-set}
use global_payments_api.Prelude.{
  ℕ, suc, ◌*◌, ◌≤◌, min, ℤ, pos, String, ◌≡◌, refl, ap, ◌∙◌, Bool, true, Option, List, [], ◌∷◌, map,
  take, drop, length, select, arith,
}
use global_payments_api.Python.Raised.{Result}
use global_payments_api.Python.Float.{Float}
use global_payments_api.Models.{ReconciliationStatus, ReconciliationRecord}
use global_payments_api.Reconcile.Cells.{cell_text}
use global_payments_api.Routes.Records.{
  RecordBody, Paged, serialize_record, is_selected, records_page,
}
use global_payments_api.Routes.Records.Pages.{first_pages, first_pages-map-take, take_all}

-- The order of a column of texts in the database.
pub record IsCollation (le : String → String → Bool) : Type 0 where
  pub le_refl : (s : String) → le s s ≡ true
  pub le_antisymm : (s t : String) → le s t ≡ true → le t s ≡ true → s ≡ t

module _ {A : Type 0} (le : String → String → Bool) (key : A → String) where
  -- Every key is at most those behind it.
  abbrev pub IsAscending : List A → Type 0
  IsAscending [] = Unit
  IsAscending (x ∷ xs) = ((y : A) → Mem y xs → le (key x) (key y) ≡ true) × IsAscending xs

  -- No two of the rows have one key.
  abbrev pub IsKeyed : List A → Type 0
  IsKeyed rows = (x y : A) → Mem x rows → Mem y rows → key x ≡ key y → x ≡ y

  module _ (c : IsCollation le) where
    head_le :
        {x y : A} {xs ys : List A}
        → IsAscending (x ∷ xs)
        → Perm (y ∷ ys) (x ∷ xs)
        → le (key x) (key y) ≡ true
    head_le {x} {y} asc p =
        Or.elim (Bool-set _ _) (mem-cons.0 ((Perm.mem_iff p).0 mem-cons_self))
          (λ e. rw e (c.le_refl (key x))) (asc.0 y)

    IsAscending-eq_of_perm :
        (xs ys : List A) → IsAscending xs → IsAscending ys → IsKeyed xs → Perm xs ys → xs ≡ ys
    IsAscending-eq_of_perm [] ys a b keyed p = Perm.nil-eq p
    IsAscending-eq_of_perm (x ∷ xs) [] a b keyed p = Perm.eq-nil p
    IsAscending-eq_of_perm (x ∷ xs) (y ∷ ys) a b keyed p =
        let same_key = c.le_antisymm (key x) (key y) (head_le a (Perm.symm p)) (head_le b p) in
        let heads : x ≡ y = keyed x y mem-cons_self ((Perm.mem_iff p).1 mem-cons_self) same_key in
        let tails = Perm.cons_inv (Perm.trans p (Perm.symm (Perm.cons' heads Perm.rfl))) in
        let rest =
          IsAscending-eq_of_perm xs ys (a.1) (b.1)
            (λ u v m n. keyed u v (mem-cons_of_mem x m) (mem-cons_of_mem x n)) tails in
        λ i. heads i ∷ rest i

-- `query.order_by(ReconciliationRecord.payment_reference).paginate(…)` on some rows, for pages from 1
-- on: each page is cut of an order of its own, which is ascending.
pub record IsOrderedPaginate {A : Type 0} (le : String → String → Bool) (key : A → String)
    (paginate : ℤ → ℤ → List A → Paged A) (rows : List A) : Type 0 where
  pub order : ℕ → ℕ → List A
  pub order-perm : (p q : ℕ) → Perm (order p q) rows
  pub length-order : (p q : ℕ) → length (order p q) ≡ length rows
  pub order-IsAscending : (p q : ℕ) → IsAscending le key (order p q)
  pub items_lem :
      (p q : ℕ)
      → (paginate (pos (suc p)) (pos (suc q)) rows).items
        ≡ take (suc q) (drop (p * suc q) (order p q))
  pub pages_lem : (p : ℤ) (q : ℕ) → length rows ≤ (paginate p (pos (suc q)) rows).pages * suc q

module _ (fl : Float) (stamp_text : ℕ → String) (to_int : String → Result ℤ)
    (lower : String → String) (enum_of : String → Result ReconciliationStatus)
    (reconciled : ReconciliationRecord fl.F → Option String)
    (paginate : ℤ → ℤ → List (ReconciliationRecord fl.F) → Paged (ReconciliationRecord fl.F))
    (run_id : String) (status : Option ReconciliationStatus) (only_exceptions : Bool)
    (table : List (ReconciliationRecord fl.F)) where
  open fl use {F}

  abbrev pub reference : ReconciliationRecord F → String
  reference r = cell_text fl stamp_text r.payment_reference

  -- The records that the filters leave.
  abbrev pub filtered : List (ReconciliationRecord F)
  filtered =
      select
        (is_selected fl stamp_text to_int lower enum_of reconciled paginate run_id status
          only_exceptions)
        table

  -- A page of the response, by its number and size.
  abbrev pub shown : ℕ → ℕ → Paged (RecordBody F)
  shown q p =
      records_page fl stamp_text to_int lower enum_of reconciled paginate run_id status
        only_exceptions (pos p) (pos q) table

  abbrev pub serialized_all : List (ReconciliationRecord F) → List (RecordBody F)
  serialized_all = map (serialize_record fl stamp_text to_int lower enum_of reconciled paginate)

  module _ (le : String → String → Bool) (c : IsCollation le)
      (pages : IsOrderedPaginate le reference paginate filtered) where
    items-shown :
        IsKeyed le reference filtered
        → (q p : ℕ) → suc q ≤ 200
        → (shown (suc q) (suc p)).items
          ≡ serialized_all (take (suc q) (drop (p * suc q) (pages.order 0 q)))
    unfolding records_page
    items-shown keyed q p small =
        let whole : min (suc q) 200 ≡ suc q = omega arith in
        let back = pages.order-perm p q in
        let same =
          IsAscending-eq_of_perm le reference c (pages.order p q) (pages.order 0 q)
            (pages.order-IsAscending p q) (pages.order-IsAscending 0 q)
            (λ x y m n. keyed x y ((Perm.mem_iff back).0 m) ((Perm.mem_iff back).0 n))
            (Perm.trans back (Perm.symm (pages.order-perm 0 q))) in
        rw (whole, pages.items_lem p q, same) refl

    enough_shown :
        (q p : ℕ) → suc q ≤ 200 → length (pages.order 0 q) ≤ (shown (suc q) p).pages * suc q
    unfolding records_page
    enough_shown q p small =
        let whole : min (suc q) 200 ≡ suc q = omega arith in
        rw whole (omega (arith, pages.length-order 0 q, pages.pages_lem (pos p) q))

    -- With a collation of the database, and a `paginate` that cuts each page of an ascending order of
    -- the rows of its own: where no two of the records that the filters leave have one reference, the
    -- pages of a size from 1 to 200, from the first to the last by the number that a response gives,
    -- hold together each of these records exactly once, by ascending references.
    pub first_pages-order :
        (q p : ℕ)
        → suc q ≤ 200
        → IsKeyed le reference filtered
        → (all : List (ReconciliationRecord F)) × Perm all filtered
          × IsAscending le reference all
          × (first_pages (shown (suc q) p).pages (λ n. (shown (suc q) n).items)
              ≡ serialized_all all)
    first_pages-order q p small keyed =
        let all = pages.order 0 q in
        (
          all,
          pages.order-perm 0 q,
          pages.order-IsAscending 0 q,
          first_pages-map-take _ (λ n. (shown (suc q) n).items) (suc q) all
                (λ k. items-shown keyed q k small) (shown (suc q) p).pages
              ∙ ap serialized_all
                  (take_all ((shown (suc q) p).pages * suc q) all (enough_shown q p small)),
        )
