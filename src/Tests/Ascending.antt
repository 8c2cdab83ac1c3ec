-- ===== src/Tests/Ascending.antt =====
-- The pages of two records, each page in an order of its own query.
use mathlib.Core.Logic.Or
use mathlib.Core.HLevel.{hedberg, Π_prop}
use mathlib.Core.Path.{subst}
use mathlib.Core.List.{Mem, Perm, mem-cons, not-mem-nil}
use mathlib.Core.List.Perm
use native.Mathlib.Decide.{ℕ_discrete}
use global_payments_api.Prelude.{
  ℤ, String, ◌==◌, eq_iff, Bool, Bool-cases, inl, inr, ◌≡◌, refl, sym, ◌∙◌, true, false, not, ◌||◌,
  none, List, [], ◌∷◌, ◌++◌, select, arith,
}
use global_payments_api.Python.Float.Sample.{Millionths, sample_float}
use global_payments_api.Frame.{Cell, text}
use global_payments_api.Models.{ReconciliationRecord}
use global_payments_api.Reconcile.Cells.{cell_text}
use global_payments_api.Routes.Records.{Paged}
use global_payments_api.Routes.Records.Pages.{first_pages}
use global_payments_api.Routes.Records.Ascending.{
  IsCollation, IsAscending, IsKeyed, IsOrderedPaginate, reference, filtered, shown, serialized_all,
  first_pages-order,
}
use global_payments_api.Tests.{stamp_text}
use global_payments_api.Tests.Runs.{rows_record}
use global_payments_api.Tests.Pages.{to_int, lower, enum_of, no_time, paginate, le-mul}

string_discrete : Discrete String
string_discrete s t = elim (Bool-cases (s == t)) [
  | inl e ↦ yes ((eq_iff s t).0 e)
  | inr e ↦ no (λ p. true_ne (sym ((eq_iff s t).1 p) ∙ e))
]
  where
    true_ne : ¬ (true ≡ false)
    true_ne e = cc

string_set : IsSet String
string_set = hedberg string_discrete

cells_set : IsSet (Cell Millionths)
cells_set = hlevel (string_set, ℕ_discrete)

records_set : IsSet (ReconciliationRecord Millionths)
records_set = hlevel (string_set, ℕ_discrete, cells_set)

-- "PAY-1" stands before every other text.
abbrev is_first : String → Bool
is_first s = s == "PAY-1"

abbrev le : String → String → Bool
le s t = is_first s || (s == t)

le-IsCollation : IsCollation le
le-IsCollation = record {
  le_refl = λ s. ground (arith, eq_iff s s);
  le_antisymm =
      λ s t h k. ground (arith, eq_iff s t, eq_iff t s, eq_iff s "PAY-1", eq_iff t "PAY-1");
}

abbrev first : ReconciliationRecord Millionths
first = rows_record

abbrev second : ReconciliationRecord Millionths
second = record rows_record { id = 1; payment_reference = text "PAY-2" }

abbrev table : List (ReconciliationRecord Millionths)
table = second ∷ first ∷ []

abbrev has_first_key : ReconciliationRecord Millionths → Bool
has_first_key r = is_first (cell_text sample_float stamp_text r.payment_reference)

abbrev by_reference :
    List (ReconciliationRecord Millionths) → List (ReconciliationRecord Millionths)
by_reference rows = select has_first_key rows ++ select (λ r. not (has_first_key r)) rows

abbrev ordering :
    ℤ → ℤ → List (ReconciliationRecord Millionths) → Paged (ReconciliationRecord Millionths)
ordering page per_page rows = paginate page per_page (by_reference rows)

abbrev key : ReconciliationRecord Millionths → String
key =
    reference sample_float stamp_text to_int lower enum_of no_time ordering "RECON-20240315" none
      false table

abbrev rows : List (ReconciliationRecord Millionths)
rows =
    filtered sample_float stamp_text to_int lower enum_of no_time ordering "RECON-20240315" none
      false table

ordered-IsOrderedPaginate : IsOrderedPaginate le key ordering rows
unfolding cell_text
ordered-IsOrderedPaginate = record {
  order = λ p q. first ∷ second ∷ [];
  order-perm = λ p q. Perm.swap second first [];
  length-order = λ p q. refl;
  order-IsAscending = λ p q. (λ y m. refl, (λ y m. absurd (not-mem-nil m), tt));
  items_lem = λ p q. refl;
  pages_lem = λ p q. le-mul 2 q;
}

apart : (◌≡◌ {A = String} "PAY-2" "PAY-1") → ⊥
apart e = false_ne ((eq_iff "PAY-2" "PAY-1").1 e)
  where
    false_ne : ¬ (false ≡ true)
    false_ne q = cc

-- A record of the table is one of the two.
one_of :
    (P : ReconciliationRecord Millionths → Type 0)
    → ((x : ReconciliationRecord Millionths) → IsProp (P x))
    → P second
    → P first
    → (x : ReconciliationRecord Millionths) → Mem x table
    → P x
one_of P prop p q x m =
    Or.elim (prop x) (mem-cons.0 m) (λ e. subst P (sym e) p)
      (λ k. Or.elim (prop x) (mem-cons.0 k) (λ e. subst P (sym e) q) (λ z. absurd (not-mem-nil z)))

rows-IsKeyed : IsKeyed le key rows
unfolding cell_text
rows-IsKeyed x y m n =
    one_of (λ a. key a ≡ key y → a ≡ y) (λ a. Π_prop (λ e. records_set a y))
      (one_of (λ b. key second ≡ key b → second ≡ b) (λ b. Π_prop (λ e. records_set second b))
        (λ e. refl) (λ e. absurd (apart e)) y n)
      (one_of (λ b. key first ≡ key b → first ≡ b) (λ b. Π_prop (λ e. records_set first b))
        (λ e. absurd (apart (sym e))) (λ e. refl) y n)
      x m

first_pages-order_example :
    (all : List (ReconciliationRecord Millionths)) × Perm all rows
    × IsAscending le key all
    × (first_pages
          (shown sample_float stamp_text to_int lower enum_of no_time ordering "RECON-20240315" none
            false table 1 1).pages
          (λ n.
            (shown sample_float stamp_text to_int lower enum_of no_time ordering "RECON-20240315"
              none false table 1 n).items)
        ≡ serialized_all sample_float stamp_text to_int lower enum_of no_time ordering
            "RECON-20240315" none false table all)
first_pages-order_example =
    first_pages-order sample_float stamp_text to_int lower enum_of no_time ordering "RECON-20240315"
      none false table le le-IsCollation ordered-IsOrderedPaginate 0 1 (omega arith) rows-IsKeyed
