-- ===== src/Python/Float/Binary64/Rounding.antt =====
-- How far a rounded ratio is from it.
use native.Mathlib.Nat.{
  div-add-mod, mod-lt, pow-succ', pow-le-pow_right, mul-le-mul_left, mul-suc, mul_assoc, mul_comm,
  mul_left_comm, mul-le-mul, mul-le-mul_right, one-le-pow, div-lt_iff_lt-mul,
  le_of_mul-le-mul_right,
}
use mathlib.Core.Path.{subst, subst₂}
use global_payments_api.Prelude.{
  ℕ, zero, suc, ◌+◌, ◌-◌, ◌*◌, ◌/◌, ◌%◌, ◌^◌, ◌≤◌, ◌<◌, ◌≡◌, refl, sym, ap, ◌∙◌, ◌||◌, ◌&&◌,
  Bool-cases, inl, inr, arith, ltb, eqb,
}
use global_payments_api.Python.Float.Binary64.{width, shift, nearest, round}

width-le : (f q b : ℕ) → q < 2 ^ b → width f q ≤ b
unfolding width
width-le zero q b h = omega arith
width-le (suc f) q zero h = ground arith
width-le (suc f) q (suc b) h =
    let smaller = width-le f (q / 2) b (omega (arith, pow-succ' 2 b)) in ground arith

-- Two distances: a number is within `e` of another.
pub record Within (e a b : ℕ) : Type 0 where
  pub above : a ≤ b + e
  pub below : b ≤ a + e

-- Both candidates, by what is left of the division.
up-Within : (u k r : ℕ) → r < u → u ≤ 2 * r → Within u (2 * (u * suc k)) (2 * (u * k + r))
up-Within u k r h half = record {
  above = omega (arith, mul-suc u k);
  below = omega (arith, mul-suc u k);
}

down-Within : (u k r : ℕ) → 2 * r ≤ u → Within u (2 * (u * k)) (2 * (u * k + r))
down-Within u k r half = record { above = omega arith; below = omega arith }

regroup : (x s d : ℕ) → x * 2 ^ s * d ≡ d * 2 ^ s * x
regroup x s d = grind (arith, mul_assoc, mul_comm)

nearest-Within : (n d s : ℕ) → 1 ≤ d * 2 ^ s → Within (d * 2 ^ s) (2 * (nearest n d s * d)) (2 * n)
unfolding nearest
nearest-Within n d s h =
    let u = d * 2 ^ s in
    let k = n / u in
    let r = n % u in
    let small : r < u = mod-lt n h in
    let whole : u * k + r ≡ n = div-add-mod n u in
    elim (Bool-cases (ltb u (2 * r) || (eqb u (2 * r) && eqb (k % 2) 1))) [
      | inl e ↦ rw e (
          subst₂ (λ a b. Within u (2 * a) (2 * b)) (sym (regroup (suc k) s d)) whole
            (up-Within u k r small (ground arith)))
      | inr e ↦ rw e (
          subst₂ (λ a b. Within u (2 * a) (2 * b)) (sym (regroup k s d)) whole
            (down-Within u k r (ground arith)))
    ]

Within-mono : (e e' a b : ℕ) → e ≤ e' → Within e a b → Within e' a b
Within-mono e e' a b h w = record { above = omega (arith, w.above); below = omega (arith, w.below) }

-- A ratio below `2 ^ (e + 53)` is rounded by half of `2 ^ e` at most.
pub round-Within :
    (n d e : ℕ) → 1 ≤ d → n / d < 2 ^ (e + 53) → Within (d * 2 ^ e) (2 * (round n d * d)) (2 * n)
unfolding round shift
round-Within n d e h small =
    let s = width 4000 (n / d) - 53 in
    let few : s ≤ e = omega (arith, width-le 4000 (n / d) (e + 53) small) in
    let unit : 1 ≤ d * 2 ^ s =
      subst (λ x. x ≤ d * 2 ^ s) refl (mul-le-mul h (one-le-pow s 2 (omega arith))) in
    Within-mono (d * 2 ^ s) (d * 2 ^ e) _ _ (mul-le-mul_left d (pow-le-pow_right (omega arith) few))
      (nearest-Within n d s unit)

-- A ratio that is `p` hundredths of `m`: the rounded one is that within `2 ^ e`, if `p` is small.
pub hundredths-Within :
    (n d p m e : ℕ)
    → 1 ≤ d
    → n * 100 ≡ p * m * d
    → p * m < 100 * 2 ^ (e + 54)
    → Within (100 * 2 ^ e) (100 * round n d) (p * m)
hundredths-Within n d p m e h q small =
    let below : n / d < 2 ^ (suc e + 53) =
      let same : suc e + 53 ≡ e + 54 = omega arith in
      rw same ((div-lt_iff_lt-mul h).1 (omega (arith, q, mul-le-mul_right d small))) in
    let unit : d * 2 ^ suc e ≡ 2 * (d * 2 ^ e) =
      ap (λ x. d * x) (pow-succ' 2 e) ∙ mul_left_comm d 2 (2 ^ e) in
    let w = round-Within n d (suc e) h below in
    record {
      above = le_of_mul-le-mul_right {k = d} (omega (arith, q, unit, w.above)) h;
      below = le_of_mul-le-mul_right {k = d} (omega (arith, q, unit, w.below)) h;
    }
