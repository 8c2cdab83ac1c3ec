-- ===== src/Python/Raised.antt =====
-- Python exceptions as values, and calls that may raise.
use global_payments_api.Prelude.{String, List, [], ◌∷◌, ◌≡◌, refl, ◌⊎◌, inl, inr, All, All₂}
use mathlib.Core.Path.{subst}

-- The classes that the service's handlers tell apart, or that its own code raises.
pub data Class : Type 0 where
  value_error type_error key_error invalid_operation : Class
  no_such_key retry_error json_decode_error kafka_exception : Class
  attribute_error merge_error database_error other : Class

-- An exception is its class and what `str(exc)` gives.
pub record Raised : Type 0 where
  pub kind : Class
  pub text : String

pub data Result {ℓ} (A : Type ℓ) : Type ℓ where
  err : Raised → Result A
  ok : A → Result A

-- What follows a call that returns; what a call raises goes on.
abbrev pub ◌>>=◌ {ℓ κ} :
    {A : Type ℓ} {B : Type κ} (call : Result A) (rest : A → Result B) → Result B
err raised >>= rest = err raised
ok value >>= rest = rest value

infixl 5 ◌>>=◌
-- A call for each item, in order; the first that raises ends the row.
abbrev pub map_result {ℓ κ} : {A : Type ℓ} {B : Type κ} → (A → Result B) → List A → Result (List B)
map_result f [] = ok []
map_result f (x ∷ xs) = do y ← f x; ys ← map_result f xs; ok (y ∷ ys)

-- A call into an outside service returns or raises, and leaves a new state of the world either way.
abbrev pub Exec {ℓ} : Type ℓ → Type ℓ → Type ℓ
Exec W A = W → Result A × W

pub Result-cases {ℓ} :
    {A : Type ℓ} (m : Result A) → ((a : A) × (m ≡ ok a)) ⊎ ((e : Raised) × (m ≡ err e))
Result-cases (ok a) = inl (a, refl)
Result-cases (err e) = inr (e, refl)

module _ {ℓ κ} {A : Type ℓ} {B : Type κ} where
  -- The inversion of a bind that succeeds.
  pub >>=-eq-ok :
      (call : Result A) (rest : A → Result B) {result : B}
      → (call >>= rest) ≡ ok result
      → (value : A) × (call ≡ ok value) × (rest value ≡ ok result)
  >>=-eq-ok (err raised) rest h = cc
  >>=-eq-ok (ok value) rest h = (value, refl, h)

module _ {A B : Type 0} where
  -- The results of a row of calls that all succeed, each from its own item.
  pub map_result-All₂ :
      (f : A → Result B) (xs : List A) (ys : List B)
      → map_result f xs ≡ ok ys
      → All₂ (λ x y. f x ≡ ok y) xs ys
  map_result-All₂ f [] [] h = tt
  map_result-All₂ f [] (y ∷ ys) h = cc
  map_result-All₂ f (x ∷ xs) ys h =
      let (y, hy, rest) = >>=-eq-ok (f x) _ h in
      let (tail, ht, e) = >>=-eq-ok (map_result f xs) _ rest in
      subst (All₂ (λ x y. f x ≡ ok y) (x ∷ xs)) (result_path e) (hy, map_result-All₂ f xs tail ht)
    where
      result_path : {us vs : List B} → ok us ≡ ok vs → us ≡ vs
      result_path e = cc

  -- They all succeed if each does.
  pub map_result_total :
      (f : A → Result B) (xs : List A)
      → All (λ x. (y : B) × (f x ≡ ok y)) xs
      → (ys : List B) × (map_result f xs ≡ ok ys)
  map_result_total f [] h = ([], refl)
  map_result_total f (x ∷ xs) h =
      let (ys, e) = map_result_total f xs h.1 in (h.0.0 ∷ ys, rw (h.0.1, e))
