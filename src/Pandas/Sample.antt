-- ===== src/Pandas/Sample.antt =====
-- A small pandas that does what is documented: it shows that the assumptions can be met.
use global_payments_api.Prelude.{
  String, ◌≡◌, refl, Bool, true, false, List, [], ◌∷◌, ◌++◌, map, Option, All₂, arith, ◌⊎◌, inl,
  inr, not, ◌&&◌, Bool-cases, if◌then◌else◌,
}
use global_payments_api.Python.Raised.{ok}
use global_payments_api.Frame.{
  Cell, null, text, number, not_a_time, Row, Frame, distinct, get, no_items,
}
use global_payments_api.Frame.Labels.{
  entries, lookup-entries, lookup-entries_none, contains-map, contains-append, distinct-append_left,
  distinct-append_right, distinct-append_apart,
}
use global_payments_api.Pandas.{
  Pandas, merged_label, merged_columns, not_key, left_pairs, right_cell, all_times, IsJoined,
  SameCell, IsDocumented,
}

module _ {F : Type 0} (nan : F) (is_nan : F → Bool) (nan_lem : is_nan nan ≡ true)
    (zero_sum : F) where
  abbrev joined :
      (String → Cell F)
      → String
      → String
      → String
      → List String
      → List String
      → Row F × Option (Row F)
      → Row F
  joined na on ls rs lcs rcs p =
      entries (merged_label on ls rcs) (λ c. get c p.0) lcs
      ++ (entries (merged_label on rs lcs) (λ c. right_cell na c p.1) (not_key on rcs) ++ [])

  joined-IsJoined :
      (na : String → Cell F) (on ls rs : String) (lcs rcs : List String)
      (p : Row F × Option (Row F))
      → distinct (merged_columns on ls rs lcs rcs) ≡ true
      → IsJoined na on ls rs lcs rcs p (joined na on ls rs lcs rcs p)
  unfolding get
  joined-IsJoined na on ls rs lcs rcs p d = record {
    left_cells = λ c h.
        rw
          (lookup-entries (merged_label on ls rcs) _ c lcs _ (distinct-append_left (map _ lcs) _ d)
            h)
          refl;
    right_cells = λ c h.
        rw
          (lookup-entries_none (merged_label on ls rcs) _ (merged_label on rs lcs c) lcs _ (
            distinct-append_apart (merged_label on rs lcs c) (map _ lcs) _ d
              (contains-map (merged_label on rs lcs) c (not_key on rcs) h)))
          (rw
            (lookup-entries (merged_label on rs lcs) _ c (not_key on rcs) []
              (distinct-append_right (map _ lcs) _ d) h)
            refl);
    no_others = λ c h.
        rw
          (lookup-entries_none (merged_label on ls rcs) _ c lcs _ (
            ground (
              arith,
              contains-append c (map (merged_label on ls rcs) lcs)
                  (map (merged_label on rs lcs) (not_key on rcs)),
            )))
          (rw
            (lookup-entries_none (merged_label on rs lcs) _ c (not_key on rcs) [] (
              ground (
                arith,
                contains-append c (map (merged_label on ls rcs) lcs)
                    (map (merged_label on rs lcs) (not_key on rcs)),
              )))
            refl);
  }

  all_joined :
      (na : String → Cell F) (on ls rs : String) (lcs rcs : List String)
      (ps : List (Row F × Option (Row F)))
      → distinct (merged_columns on ls rs lcs rcs) ≡ true
      → All₂ (IsJoined na on ls rs lcs rcs) ps (map (joined na on ls rs lcs rcs) ps)
  all_joined na on ls rs lcs rcs [] d = tt
  all_joined na on ls rs lcs rcs (p ∷ ps) d =
      (joined-IsJoined na on ls rs lcs rcs p d, all_joined na on ls rs lcs rcs ps d)

  abbrev missing : Cell F → Bool
  missing null = true
  missing (text s) = false
  missing (number x) = is_nan x
  missing not_a_time = true
  missing _ = false

  abbrev missing_of : Frame F → String → Cell F
  missing_of f c =
      if not (no_items f.rows) && all_times (map (get c) f.rows) then not_a_time else number nan

  missing_of_lem :
      (f : Frame F) (c : String)
      → (missing_of f c ≡ number nan)
        ⊎ ((missing_of f c ≡ not_a_time) × (all_times (map (get c) f.rows) ≡ true))
  missing_of_lem f c = elim (Bool-cases (not (no_items f.rows) && all_times (map (get c) f.rows))) [
    | inl e ↦ rw e (inr (refl, ground (arith, e)))
    | inr e ↦ rw e (inl refl)
  ]

  abbrev pub sample_pandas : Pandas F
  sample_pandas = record {
    merge = λ on ls rs l r. ok (record {
      columns = merged_columns on ls rs l.columns r.columns;
      rows = map (joined (missing_of r) on ls rs l.columns r.columns) (left_pairs on l.rows r.rows);
    });
    infer = λ cells. cells;
    isna = missing;
    read_csv = λ body. ok (record { columns = []; rows = [] });
    missing = missing_of;
    check_times = λ ts. ok tt;
    to_utc = λ cell. cell;
    to_utc_or_missing = λ cells. cells;
    sum = λ cells. ok (number zero_sum);
  }

  SameCell-all : (cells : List (Cell F)) → All₂ (SameCell sample_pandas) cells cells
  SameCell-all [] = tt
  SameCell-all (x ∷ xs) = (inl refl, SameCell-all xs)

  pub sample_pandas-IsDocumented : IsDocumented nan sample_pandas
  sample_pandas-IsDocumented = record {
    merge_lem = λ on ls rs l r can. (
      _,
      refl,
      refl,
      all_joined (missing_of r) on ls rs l.columns r.columns (left_pairs on l.rows r.rows)
          can.labels,
    );
    infer_lem = SameCell-all;
    isna-null = refl;
    missing_lem = missing_of_lem;
    isna-not_a_time = refl;
    isna-nan = nan_lem;
    isna-text = λ s. refl;
  }
