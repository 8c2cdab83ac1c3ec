-- ===== src/Frame/Labels.antt =====
-- Lists of column labels without repetition, and rows that are built from them.
use global_payments_api.Prelude.{
  String, eq_iff, ◌≡◌, refl, true, false, ◌||◌, List, [], ◌∷◌, ◌++◌, map, arith, some,
}
use global_payments_api.Frame.{Cell, Row, contains, distinct, lookup}

pub contains-append :
    (c : String) (xs ys : List String) → contains c (xs ++ ys) ≡ (contains c xs || contains c ys)
contains-append c [] ys = refl
contains-append c (x ∷ xs) ys = ground (arith, contains-append c xs ys)

pub contains-map :
    (f : String → String) (c : String) (xs : List String)
    → contains c xs ≡ true
    → contains (f c) (map f xs) ≡ true
contains-map f c [] h = cc
contains-map f c (x ∷ xs) h = ground (arith, contains-map f c xs, eq_iff x c, eq_iff (f x) (f c))

pub distinct-append_left : (xs ys : List String) → distinct (xs ++ ys) ≡ true → distinct xs ≡ true
distinct-append_left [] ys h = refl
distinct-append_left (x ∷ xs) ys h =
    ground (arith, distinct-append_left xs ys, contains-append x xs ys)

pub distinct-append_right : (xs ys : List String) → distinct (xs ++ ys) ≡ true → distinct ys ≡ true
distinct-append_right [] ys h = h
distinct-append_right (x ∷ xs) ys h = ground (arith, distinct-append_right xs ys)

-- A label of the second part is none of the first.
pub distinct-append_apart :
    (c : String) (xs ys : List String)
    → distinct (xs ++ ys) ≡ true
    → contains c ys ≡ true
    → contains c xs ≡ false
distinct-append_apart c [] ys h k = refl
distinct-append_apart c (x ∷ xs) ys h k =
    ground (arith, distinct-append_apart c xs ys, contains-append x xs ys, eq_iff x c)

module _ {F : Type 0} where
  -- A cell for each label.
  abbrev pub entries : (String → String) → (String → Cell F) → List String → Row F
  entries f v [] = []
  entries f v (c ∷ cs) = (f c, v c) ∷ entries f v cs

  pub lookup-entries :
      (f : String → String) (v : String → Cell F) (c : String) (cs : List String) (rest : Row F)
      → distinct (map f cs) ≡ true
      → contains c cs ≡ true
      → lookup (f c) (entries f v cs ++ rest) ≡ some (v c)
  unfolding lookup
  lookup-entries f v c [] rest d h = cc
  lookup-entries f v c (x ∷ xs) rest d h =
      ground
        (arith, lookup-entries f v c xs rest, contains-map f c xs, eq_iff x c, eq_iff (f x) (f c))

  pub lookup-entries_none :
      (f : String → String) (v : String → Cell F) (d : String) (cs : List String) (rest : Row F)
      → contains d (map f cs) ≡ false
      → lookup d (entries f v cs ++ rest) ≡ lookup d rest
  unfolding lookup
  lookup-entries_none f v d [] rest h = refl
  lookup-entries_none f v d (x ∷ xs) rest h = ground (arith, lookup-entries_none f v d xs rest)
