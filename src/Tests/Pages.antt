-- ===== src/Tests/Pages.antt =====
-- The lists of runs and of records, with a query and pages over the rows in the order of the table.
use native.Mathlib.Nat.{mul-suc}
use global_payments_api.Prelude.{
  ℕ, suc, ◌*◌, ◌≤◌, arith, ℤ, pos, negsuc, String, ◌==◌, ◌≡◌, refl, List, [], ◌∷◌, Option, none,
  some, length, take, drop, if◌then◌else◌,
}
use global_payments_api.Python.Raised.{Raised, Result, ok, err, value_error, database_error}
use global_payments_api.Python.Date.{Date}
use global_payments_api.Python.Float.Sample.{Millionths, sample_float}
use global_payments_api.Models.{
  ReconciliationRun, ReconciliationRecord, ReconciliationStatus, unmatched,
}
use global_payments_api.Routes.Lists.{
  RunEntry, IsQuery, int_arg, list_runs, IsListed, list_runs-IsListed,
}
use global_payments_api.Routes.Records.{Paged, IsPaginate}
use global_payments_api.Tests.{stamp_text}
use global_payments_api.Tests.Runs.{running}

abbrev negative : Raised
negative = record { kind = database_error; text = "must not be negative" }

abbrev page_number : ℤ → ℕ
page_number (pos n) = n
page_number (negsuc n) = 1

-- The pages before the one of this number, from 1 on.
abbrev before : ℤ → ℕ
before (pos (suc p)) = p
before _ = 0

pub le-mul : (n q : ℕ) → n ≤ n * suc q
le-mul n q = omega (arith, mul-suc n q)

module _ {A : Type 0} where
  abbrev pub in_order : List A → List A
  in_order rows = rows

  abbrev query : ℤ → ℤ → List A → Result (List A)
  query (pos l) (pos o) rows = ok (take l (drop o rows))
  query (negsuc n) o rows = err negative
  query (pos l) (negsuc n) rows = err negative

  query-IsQuery : IsQuery in_order query
  query-IsQuery = record {
    query_lem = λ l o rows. refl;
    negative_limit = λ n o rows. (_, refl);
    negative_offset = λ l n rows. (_, refl);
  }

  -- As many pages are announced as there are rows.
  abbrev pub paginate : ℤ → ℤ → List A → Paged A
  paginate page per_page rows = record {
    items = take (page_number per_page) (drop (before page * page_number per_page) rows);
    page = page_number page;
    per_page = page_number per_page;
    total = length rows;
    pages = length rows;
  }

  pub paginate-IsPaginate : IsPaginate in_order paginate
  paginate-IsPaginate = record {
    items_lem = λ p q rows. refl;
    total_lem = λ p q rows. refl;
    pages_lem = λ p q rows. le-mul (length rows) q;
    length-ordered = λ rows. refl;
  }

-- Numbers are read from two texts only.
abbrev not_a_number : Raised
not_a_number = record { kind = value_error; text = "invalid literal for int()" }

abbrev pub to_int : String → Result ℤ
to_int s = if s == "1" then ok (pos 1) else err not_a_number

abbrev date_text : Date → String
date_text d = "2024-03-15"

abbrev runs : List (ReconciliationRun Millionths)
runs = running ∷ record running { id = "RECON-20240316" } ∷ []

listed :
    (entries : List (RunEntry Millionths)) × (list_runs sample_float to_int date_text stamp_text
        query
        (some "1")
        (some "1")
        runs
      ≡ ok entries)
unfolding list_runs
listed = (_, refl)

list_runs-IsListed_example :
    (l o : ℤ) × (int_arg to_int 30 (some "1") ≡ ok l)
    × (int_arg to_int 0 (some "1") ≡ ok o)
    × IsListed sample_float to_int date_text stamp_text query in_order l o runs (listed.0)
list_runs-IsListed_example =
    list_runs-IsListed sample_float to_int date_text stamp_text query in_order query-IsQuery
      (some "1") (some "1") runs (listed.0) (listed.1)

abbrev pub lower : String → String
lower s = if s == "True" then "true" else s

abbrev pub enum_of : String → Result ReconciliationStatus
enum_of s = if s == "UNMATCHED" then ok unmatched else err not_a_number

abbrev pub no_time : ReconciliationRecord Millionths → Option String
no_time r = none
