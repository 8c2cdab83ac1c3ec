-- ===== src/Python/Decimal/Digits.antt =====
-- The digits of a number tell it: `str(n)` and padded numbers.
pub mod Width
use Prim.Native.String.{count}
use text.Mathlib.TextLemmas.{length-append, append_inj}
use global_payments_api.Prelude.{
  ℕ, zero, suc, ◌/◌, ◌%◌, ◌≤◌, ◌<◌, String, ◌<>◌, ◌==◌, ◌≡◌, refl, sym, ap, ◌∙◌, arith, Bool-cases,
  inl, inr, ltb, if◌then◌else◌,
}
use global_payments_api.Python.Decimal.{digit, show_fuel, show, pad}

-- The number of a digit.
read : String → ℕ
read s =
    if s == "0"
    then 0
    else if s == "1"
    then 1
    else if s == "2"
    then 2
    else if s == "3"
    then 3
    else if s == "4"
    then 4
    else if s == "5"
    then 5
    else if s == "6"
    then 6
    else if s == "7"
    then 7
    else if s == "8"
    then 8
    else 9

record IsRead (d : ℕ) : Type 0 where
  short : count (digit d) ≡ 1
  told : read (digit d) ≡ d

digit-IsRead : (d : ℕ) → d < 10 → IsRead d
unfolding digit read
digit-IsRead zero h = record { short = refl; told = refl }
digit-IsRead (suc zero) h = record { short = refl; told = refl }
digit-IsRead (suc (suc zero)) h = record { short = refl; told = refl }
digit-IsRead (suc (suc (suc zero))) h = record { short = refl; told = refl }
digit-IsRead (suc (suc (suc (suc zero)))) h = record { short = refl; told = refl }
digit-IsRead (suc (suc (suc (suc (suc zero))))) h = record { short = refl; told = refl }
digit-IsRead (suc (suc (suc (suc (suc (suc zero)))))) h = record { short = refl; told = refl }
digit-IsRead (suc (suc (suc (suc (suc (suc (suc zero))))))) h = record { short = refl; told = refl }
digit-IsRead (suc (suc (suc (suc (suc (suc (suc (suc zero)))))))) h = record {
  short = refl;
  told = refl;
}
digit-IsRead (suc (suc (suc (suc (suc (suc (suc (suc (suc zero))))))))) h = record {
  short = refl;
  told = refl;
}
digit-IsRead (suc (suc (suc (suc (suc (suc (suc (suc (suc (suc n)))))))))) h = absurd (omega arith)

-- A text with one more digit tells the text and the digit.
last_digit :
    (s t : String) (a b : ℕ) → a < 10 → b < 10 → s <> digit a ≡ t <> digit b → (s ≡ t) × (a ≡ b)
last_digit s t a b ha hb e =
    let of_a = digit-IsRead a ha in
    let of_b = digit-IsRead b hb in
    let (same, last) = append_inj e (
      omega (
        arith,
        of_a.short,
        of_b.short,
        length-append s (digit a),
        length-append t (digit b),
        ap count e,
      )) in
    (same, sym of_a.told ∙ ap read last ∙ of_b.told)

pub count-pad : (k n : ℕ) → count (pad k n) ≡ k
unfolding pad
count-pad zero n = refl
count-pad (suc k) n =
    length-append (pad k (n / 10)) (digit (n % 10))
    ∙ omega (arith, count-pad k (n / 10), (digit-IsRead (n % 10) (omega arith)).short)

-- Two numbers below 100 with the same two digits.
pub pad-two_inj : (n m : ℕ) → n < 100 → m < 100 → pad 2 n ≡ pad 2 m → n ≡ m
unfolding pad
pad-two_inj n m hn hm e =
    let (tens, ones) =
      last_digit (pad 1 (n / 10)) (pad 1 (m / 10)) (n % 10) (m % 10) (omega arith) (omega arith)
        e in
    let (none_left, tens_same) =
      last_digit (pad 0 (n / 10 / 10)) (pad 0 (m / 10 / 10)) (n / 10 % 10) (m / 10 % 10)
        (omega arith) (omega arith) tens in
    omega (arith, ones, tens_same)

show_fuel-long : (f n : ℕ) → 1 ≤ f → 1 ≤ count (show_fuel f n)
unfolding show_fuel
show_fuel-long zero n h = absurd (omega arith)
show_fuel-long (suc f) n h = elim (Bool-cases (ltb n 10)) [
  | inl e ↦ rw e (omega (arith, (digit-IsRead n (ground arith)).short))
  | inr e ↦ rw e (
      omega (
        arith,
        length-append (show_fuel f (n / 10)) (digit (n % 10)),
        (digit-IsRead (n % 10) (omega arith)).short,
      ))
]

-- A number of one digit is not printed as one of more.
one_digit : (f a n : ℕ) → a < 10 → 1 ≤ f → digit a ≡ show_fuel f (n / 10) <> digit (n % 10) → ⊥
one_digit f a n ha hf e = omega (
  arith,
  ap count e,
  (digit-IsRead a ha).short,
  length-append (show_fuel f (n / 10)) (digit (n % 10)),
  (digit-IsRead (n % 10) (omega arith)).short,
  show_fuel-long f (n / 10) hf,
)

show_fuel_inj : (f g n m : ℕ) → n < f → m < g → show_fuel f n ≡ show_fuel g m → n ≡ m
unfolding show_fuel
show_fuel_inj zero g n m hf hg e = absurd (omega arith)
show_fuel_inj (suc f) zero n m hf hg e = absurd (omega arith)
show_fuel_inj (suc f) (suc g) n m hf hg e = elim (Bool-cases (ltb n 10)) [
  | inl a ↦ elim (Bool-cases (ltb m 10)) [
    | inl b ↦
        let same : digit n ≡ digit m = (rw (a, b) at e) in
        sym (digit-IsRead n (ground arith)).told
        ∙ ap read same
        ∙ (digit-IsRead m (ground arith)).told
    | inr b ↦ absurd (one_digit g n m (ground arith) (ground arith) (rw (a, b) at e))
  ]
  | inr a ↦ elim (Bool-cases (ltb m 10)) [
    | inl b ↦ absurd (one_digit f m n (ground arith) (ground arith) (sym (rw (a, b) at e)))
    | inr b ↦
        let (tens, ones) =
          last_digit (show_fuel f (n / 10)) (show_fuel g (m / 10)) (n % 10) (m % 10) (omega arith)
            (omega arith) (rw (a, b) at e) in
        omega (arith, ones, show_fuel_inj f g (n / 10) (m / 10) (ground arith) (ground arith) tens)
  ]
]

pub show_inj : (n m : ℕ) → show n ≡ show m → n ≡ m
unfolding show
show_inj n m e = show_fuel_inj (suc n) (suc m) n m (omega arith) (omega arith) e
