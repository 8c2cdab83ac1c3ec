-- ===== src/Pandas.antt =====
-- What the service takes from pandas: a left merge, the column that results from a row-wise
-- `apply`, and `isna`. They are a parameter of the model; `IsDocumented` is what its manual says.
pub mod Sample
use global_payments_api.Prelude.{
  ℕ, String, ◌==◌, ◌<>◌, ◌≡◌, ◌⊎◌, Bool, true, false, not, ◌&&◌, List, [], ◌∷◌, ◌++◌, map, Option,
  none, some, if◌then◌else◌, All₂, select,
}
use global_payments_api.Python.Raised.{Result, ok, err}
use global_payments_api.Frame.{
  Cell, null, text, decimal, number, stamp, not_a_time, Row, Frame, get, contains, distinct,
}

pub record Pandas (F : Type 0) : Type 0 where
  -- `left.merge(right, on=…, how='left', suffixes=(…, …))`
  pub merge : String → String → String → Frame F → Frame F → Result (Frame F)
  -- the column that `frame.apply(f, axis=1)` makes of the values of `f`
  pub infer : List (Cell F) → List (Cell F)
  -- `pd.isna(x)`
  pub isna : Cell F → Bool
  -- `pd.read_csv(body, dtype=…)`, the named columns read as texts
  pub read_csv : String → Result (Frame F)
  -- what a left merge writes in a column of the right table where a left row has no partner
  pub missing : Frame F → String → Cell F
  -- whether `pd.to_datetime(column, utc=True)` raises for a column of these times of the database
  pub check_times : List ℕ → Result (Unit {0})
  -- what it makes of one of them where it does not
  pub to_utc : Cell F → Cell F
  -- `pd.to_datetime(column, utc=True, errors='coerce')`, whose format is that of the first cell
  pub to_utc_or_missing : List (Cell F) → List (Cell F)
  -- `column.sum()`
  pub sum : List (Cell F) → Result (Cell F)

-- How a merge on `on` names the columns: those of both sides, but for the key, take a suffix.
abbrev pub merged_label : String → String → List String → String → String
merged_label on suffix others c =
    if c == on then c else if contains c others then c <> suffix else c

abbrev pub not_key : String → List String → List String
not_key on = select (λ c. not (c == on))

abbrev pub merged_columns : String → String → String → List String → List String → List String
merged_columns on ls rs lcs rcs =
    map (merged_label on ls rcs) lcs ++ map (merged_label on rs lcs) (not_key on rcs)

module _ {F : Type 0} where
  -- Equality of keys, as far as texts go.
  abbrev pub same_key : Cell F → Cell F → Bool
  same_key (text s) (text t) = s == t
  same_key _ _ = false

  -- The rows of the right side whose key is that of a left row.
  abbrev pub partners : String → Row F → List (Row F) → List (Row F)
  partners on a = select (λ b. same_key (get on a) (get on b))

  abbrev pub paired : Row F → List (Row F) → List (Row F × Option (Row F))
  paired a [] = (a, none) ∷ []
  paired a (b ∷ bs) = map (λ b'. (a, some b')) (b ∷ bs)

  -- A left outer join: the left rows in order, each with its partners in order, or alone.
  abbrev pub left_pairs : String → List (Row F) → List (Row F) → List (Row F × Option (Row F))
  left_pairs on [] right = []
  left_pairs on (a ∷ rest) right = paired a (partners on a right) ++ left_pairs on rest right

  -- What a right column holds beside a left row.
  abbrev pub right_cell : (String → Cell F) → String → Option (Row F) → Cell F
  right_cell na c (some b) = get c b
  right_cell na c none = na c

  -- A time, or the missing value among times.
  abbrev is_time : Cell F → Bool
  is_time (stamp t) = true
  is_time not_a_time = true
  is_time _ = false

  abbrev pub all_times : List (Cell F) → Bool
  all_times [] = true
  all_times (x ∷ xs) = let rest = all_times xs in is_time x && rest

-- The cells of one merged row; `na` gives the missing values of the right columns, `on`, `ls` and `rs` are the key and the suffixes, and `lcs` and `rcs`
-- the columns of both sides.
pub record IsJoined {F : Type 0} (na : String → Cell F) (on ls rs : String) (lcs rcs : List String)
    (p : Row F × Option (Row F)) (m : Row F) : Type 0 where
  pub left_cells :
      (c : String) → contains c lcs ≡ true → get (merged_label on ls rcs c) m ≡ get c p.0
  pub right_cells :
      (c : String)
      → contains c (not_key on rcs) ≡ true
      → get (merged_label on rs lcs c) m ≡ right_cell na c p.1
  pub no_others :
      (c : String) → contains c (merged_columns on ls rs lcs rcs) ≡ false → get c m ≡ null

-- The key is a column of both sides, and no two columns of the result have one name.
pub record CanMerge {F : Type 0} (on ls rs : String) (l r : Frame F) : Type 0 where
  pub key_left : contains on l.columns ≡ true
  pub key_right : contains on r.columns ≡ true
  pub labels : distinct (merged_columns on ls rs l.columns r.columns) ≡ true

-- Two cells are equal, or both are missing values.
abbrev pub SameCell : {F : Type 0} → Pandas F → Cell F → Cell F → Type 0
SameCell p x y = (x ≡ y) ⊎ ((p.isna x ≡ true) × (p.isna y ≡ true))

pub record IsDocumented {F : Type 0} (nan : F) (p : Pandas F) : Type 0 where
  pub merge_lem :
      (on ls rs : String) (l r : Frame F)
      → CanMerge on ls rs l r
      → (m : Frame F) × (p.merge on ls rs l r ≡ ok m)
        × (m.columns ≡ merged_columns on ls rs l.columns r.columns)
        × All₂
            (IsJoined (p.missing r) on ls rs l.columns r.columns)
            (left_pairs on l.rows r.rows)
            m.rows
  pub infer_lem : (cells : List (Cell F)) → All₂ (SameCell p) cells (p.infer cells)
  -- NaN, or NaT in a column of times.
  pub missing_lem :
      (f : Frame F) (c : String)
      → (p.missing f c ≡ number nan)
        ⊎ ((p.missing f c ≡ not_a_time) × (all_times (map (get c) f.rows) ≡ true))
  pub isna-not_a_time : p.isna not_a_time ≡ true
  pub isna-null : p.isna null ≡ true
  pub isna-nan : p.isna (number nan) ≡ true
  pub isna-text : (s : String) → p.isna (text s) ≡ false
