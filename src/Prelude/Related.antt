-- ===== src/Prelude/Related.antt =====
-- Lists whose items are related place by place.
use mathlib.Core.Path.{◌≡◌, refl, ap}
use mathlib.Core.List.{List, [], ◌∷◌, ◌++◌}
use mathlib.Core.Logic.{◌⊎◌, inl, inr}
use global_payments_api.Prelude.Lists.{All, All₂, length}
use Prim.Native.Nat.{suc}

-- The proofs for the items of a known list, one after the other, up to `tt`.
infixr 3 ◌and◌
abbrev pub ◌and◌ {ℓ κ} : {A : Type ℓ} {B : Type κ} → A → B → A × B
a and b = (a, b)

module _ {ℓ} {A : Type ℓ} where
  pub All-map : {P Q : A → Type 0} → ((a : A) → P a → Q a) → (xs : List A) → All P xs → All Q xs
  All-map f [] h = tt
  All-map f (x ∷ xs) h = (f x h.0, All-map f xs h.1)

  pub All-unit : (xs : List A) → All (λ x. Unit {0}) xs
  All-unit [] = tt
  All-unit (x ∷ xs) = (tt, All-unit xs)

  pub All-append : (P : A → Type 0) (xs ys : List A) → All P xs → All P ys → All P (xs ++ ys)
  All-append P [] ys h k = k
  All-append P (x ∷ xs) ys h k = (h.0, All-append P xs ys h.1 k)

-- A predicate of some item.
abbrev pub Any {ℓ} : {A : Type ℓ} → (A → Type 0) → List A → Type 0
Any P [] = ⊥
Any P (x ∷ xs) = P x ⊎ Any P xs

module _ {ℓ} {A : Type ℓ} where
  pub Any-append_left : (P : A → Type 0) (xs ys : List A) → Any P xs → Any P (xs ++ ys)
  Any-append_left P [] ys h = absurd h
  Any-append_left P (x ∷ xs) ys (inl h) = inl h
  Any-append_left P (x ∷ xs) ys (inr h) = inr (Any-append_left P xs ys h)

  pub Any-append_right : (P : A → Type 0) (xs ys : List A) → Any P ys → Any P (xs ++ ys)
  Any-append_right P [] ys h = h
  Any-append_right P (x ∷ xs) ys h = inr (Any-append_right P xs ys h)

module _ {ℓ κ} {A : Type ℓ} {B : Type κ} where
  -- What holds of some on the left and goes over to the related item holds of some on the right.
  pub Any-All₂ :
      {R : A → B → Type 0} {P : A → Type 0} {Q : B → Type 0}
      → ((a : A) (b : B) → P a → R a b → Q b)
      → (xs : List A) (ys : List B) → Any P xs
      → All₂ R xs ys
      → Any Q ys
  Any-All₂ f [] ys p h = absurd p
  Any-All₂ f (x ∷ xs) [] p h = absurd h
  Any-All₂ f (x ∷ xs) (y ∷ ys) (inl p) h = inl (f x y p h.0)
  Any-All₂ f (x ∷ xs) (y ∷ ys) (inr p) h = inr (Any-All₂ f xs ys p h.1)

module _ {ℓ κ} {A : Type ℓ} {B : Type κ} where
  pub All₂-map :
      {R S : A → B → Type 0}
      → ((a : A) (b : B) → R a b → S a b)
      → (xs : List A) (ys : List B) → All₂ R xs ys
      → All₂ S xs ys
  All₂-map f [] [] h = tt
  All₂-map f (x ∷ xs) (y ∷ ys) h = (f x y h.0, All₂-map f xs ys h.1)
  All₂-map f [] (y ∷ ys) h = absurd h
  All₂-map f (x ∷ xs) [] h = absurd h

  pub All₂-length :
      (R : A → B → Type 0) (xs : List A) (ys : List B) → All₂ R xs ys → length xs ≡ length ys
  All₂-length R [] [] h = refl
  All₂-length R (x ∷ xs) (y ∷ ys) h = ap suc (All₂-length R xs ys h.1)
  All₂-length R [] (y ∷ ys) h = absurd h
  All₂-length R (x ∷ xs) [] h = absurd h

  -- What holds of all on the left and goes over to the related items holds of all on the right.
  pub All-All₂ :
      {R : A → B → Type 0} {P : A → Type 0} {Q : B → Type 0}
      → ((a : A) (b : B) → P a → R a b → Q b)
      → (xs : List A) (ys : List B) → All P xs
      → All₂ R xs ys
      → All Q ys
  All-All₂ f [] [] p h = tt
  All-All₂ f (x ∷ xs) (y ∷ ys) p h = (f x y p.0 h.0, All-All₂ f xs ys p.1 h.1)
  All-All₂ f [] (y ∷ ys) p h = absurd h
  All-All₂ f (x ∷ xs) [] p h = absurd h

  pub All₂-All :
      (R : A → B → Type 0) (P : A → Type 0)
      → (xs : List A) (ys : List B) → All P xs
      → All₂ R xs ys
      → All₂ (λ x y. P x × R x y) xs ys
  All₂-All R P [] [] p h = tt
  All₂-All R P (x ∷ xs) (y ∷ ys) p h = ((p.0, h.0), All₂-All R P xs ys p.1 h.1)
  All₂-All R P [] (y ∷ ys) p h = absurd h
  All₂-All R P (x ∷ xs) [] p h = absurd h

module _ {ℓ κ μ} {A : Type ℓ} {B : Type κ} {C : Type μ} where
  -- Two rows of relations joined to one.
  pub All₂-compose :
      {R : A → B → Type 0} {S : B → C → Type 0} {T : A → C → Type 0}
      → ((a : A) (b : B) (c : C) → R a b → S b c → T a c)
      → (xs : List A) (ys : List B) (zs : List C) → All₂ R xs ys
      → All₂ S ys zs
      → All₂ T xs zs
  All₂-compose f [] [] [] h k = tt
  All₂-compose f (x ∷ xs) (y ∷ ys) (z ∷ zs) h k = (f x y z h.0 k.0, All₂-compose f xs ys zs h.1 k.1)
  All₂-compose f [] (y ∷ ys) zs h k = absurd h
  All₂-compose f (x ∷ xs) [] zs h k = absurd h
  All₂-compose f [] [] (z ∷ zs) h k = absurd k
  All₂-compose f (x ∷ xs) (y ∷ ys) [] h k = absurd k
