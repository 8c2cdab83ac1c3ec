-- ===== src/Frame.antt =====
-- Tables of the reconciliation job: what a pandas `DataFrame` and its rows hold. A row is a label for
-- each cell, read as `row.get(c)` (None where the label is missing) or `row[c]` (KeyError).
pub mod Laws
pub mod Labels
use global_payments_api.Prelude.{
  ℕ, ℤ, String, ◌==◌, Bool, true, false, ◌||◌, List, [], ◌∷◌, ◌++◌, Option, none, some,
  if◌then◌else◌,
}
use global_payments_api.Python.Decimal.{Decimal}
use global_payments_api.Python.Raised.{Result, ok, err, key_error}

-- The values of a cell, over the type of binary floats. `null` is None; a float NaN is a `number`.
pub data Cell (F : Type 0) : Type 0 where
  null : Cell F
  text : String → Cell F
  integer : ℤ → Cell F
  decimal : Decimal → Cell F
  number : F → Cell F
  flag : Bool → Cell F
  stamp : ℕ → Cell F
  not_a_time : Cell F  -- pd.NaT

abbrev pub Row : Type 0 → Type 0
Row F = List (String × Cell F)

pub record Frame (F : Type 0) : Type 0 where
  pub columns : List String
  pub rows : List (Row F)

-- Whether a label is among some.
abbrev pub contains : String → List String → Bool
contains c [] = false
contains c (x ∷ xs) = x == c || contains c xs

-- No label is written twice.
abbrev pub distinct : List String → Bool
distinct [] = true
distinct (x ∷ xs) = if contains x xs then false else distinct xs

abbrev pub no_items {ℓ} : {A : Type ℓ} → List A → Bool
no_items [] = true
no_items (x ∷ xs) = false

module _ {F : Type 0} where
  unfoldable pub lookup : String → Row F → Option (Cell F)
  lookup c [] = none
  lookup c ((l, v) ∷ r) = if l == c then some v else lookup c r

  abbrev or_null : Option (Cell F) → Cell F
  or_null none = null
  or_null (some v) = v

  -- `row.get(c)`
  unfoldable pub get : String → Row F → Cell F
  unfolding lookup
  get c r = or_null (lookup c r)

  abbrev or_else : Cell F → Option (Cell F) → Cell F
  or_else d none = d
  or_else d (some v) = v

  -- `row.get(c, d)`
  unfoldable pub get_or : String → Cell F → Row F → Cell F
  unfolding lookup
  get_or c d r = or_else d (lookup c r)

  abbrev or_key_error : String → Option (Cell F) → Result (Cell F)
  or_key_error c none = err (record { kind = key_error; text = c })
  or_key_error c (some v) = ok v

  -- `row[c]`
  unfoldable pub item : String → Row F → Result (Cell F)
  unfolding lookup
  item c r = or_key_error c (lookup c r)

  -- The row with one cell written, in its old place if the label is there.
  unfoldable pub put : String → Cell F → Row F → Row F
  put c v [] = (c, v) ∷ []
  put c v ((l, w) ∷ r) = if l == c then (c, v) ∷ r else (l, w) ∷ put c v r

  -- A cell for each row, of which there are as many.
  unfoldable pub put_all : String → List (Cell F) → List (Row F) → List (Row F)
  unfolding put
  put_all c (v ∷ vs) (r ∷ rs) = put c v r ∷ put_all c vs rs
  put_all c [] rs = []
  put_all c (v ∷ vs) [] = []

  -- `frame[c] = cells`
  unfoldable pub assign : String → List (Cell F) → Frame F → Frame F
  unfolding put_all
  assign c cells f = record {
    columns = if contains c f.columns then f.columns else f.columns ++ c ∷ [];
    rows = put_all c cells f.rows;
  }

  -- `frame.empty`: no row, or no column
  unfoldable pub is_empty : Frame F → Bool
  is_empty f = no_items f.rows || no_items f.columns
