-- ===== src/Python/Options/Plain.antt =====
-- Values without a percent sign are kept as they are; a stray percent sign is refused.
use global_payments_api.Prelude.{
  All, ℕ, suc, ◌≡◌, refl, ap, ◌∙◌, true, false, [], ◌∷◌, ◌++◌, some, eqb, arith, Bool-cases, inl,
  inr,
}
use global_payments_api.Python.Raised.{Result, ◌>>=◌, ok, err}
use global_payments_api.Python.Options.{
  Text, Options, outside, percent, open_paren, has_percent, same_text, raw_option, store,
  set_option, get_option, items, read_all, pieces, fill, interpolate, drop_pairs, is_settable,
  invalid_syntax,
}

same_text_refl : (n : Text) → same_text n n ≡ true
same_text_refl [] = refl
same_text_refl (c ∷ cs) = ground (arith, same_text_refl cs)

pub raw_option-store : (n v : Text) (o : Options) → raw_option n (store n v o) ≡ some v
raw_option-store n v [] = rw (same_text_refl n)
raw_option-store n v ((m, w) ∷ o) = elim (Bool-cases (same_text m n)) [
  | inl e ↦ rw (e, same_text_refl n)
  | inr e ↦ rw (e, e) (raw_option-store n v o)
]

without_percent :
    (c : ℕ) (cs : Text)
    → has_percent (c ∷ cs) ≡ false
    → (eqb c percent ≡ false) × (has_percent cs ≡ false)
without_percent c cs h = ground (arith, h)

drop_pairs-plain : (v : Text) → has_percent v ≡ false → drop_pairs false v ≡ v
unfolding drop_pairs
drop_pairs-plain [] h = refl
drop_pairs-plain (c ∷ cs) h =
    let (e, k) = without_percent c cs h in
    rw (e, drop_pairs) (ap (λ t. c ∷ t) (drop_pairs-plain cs k))

is_settable-plain : (v : Text) → has_percent v ≡ false → is_settable outside v ≡ true
unfolding is_settable
is_settable-plain [] h = refl
is_settable-plain (c ∷ cs) h =
    let (e, k) = without_percent c cs h in rw (e, is_settable) (is_settable-plain cs k)

pub set_option-plain :
    (n v : Text) (o : Options) → has_percent v ≡ false → set_option n v o ≡ ok (store n v o)
unfolding set_option
set_option-plain n v o h = rw (drop_pairs-plain v h, is_settable-plain v h)

fill-plain :
    (inner : Text → Result Text) (o : Options) (v : Text)
    → has_percent v ≡ false
    → fill inner o (pieces outside v) ≡ ok v
unfolding fill pieces
fill-plain inner o [] h = refl
fill-plain inner o (c ∷ cs) h =
    let (e, k) = without_percent c cs h in
    rw (e, pieces) (ap (λ m. m >>= λ rest. ok (c ∷ rest)) (fill-plain inner o cs k))

pub interpolate-plain :
    (f : ℕ) (o : Options) (v : Text) → has_percent v ≡ false → interpolate (suc f) o v ≡ ok v
unfolding interpolate
interpolate-plain f o v h = fill-plain (interpolate f o) o v h

drop_pairs-stray :
    (before after : Text) (c : ℕ)
    → has_percent before ≡ false
    → eqb c percent ≡ false
    → drop_pairs false (before ++ (percent ∷ c ∷ after))
      ≡ before ++ (percent ∷ c ∷ drop_pairs false after)
unfolding drop_pairs
drop_pairs-stray [] after c h k = rw (k, drop_pairs)
drop_pairs-stray (x ∷ before) after c h k =
    let (e, j) = without_percent x before h in
    rw (e, drop_pairs) (ap (λ t. x ∷ t) (drop_pairs-stray before after c j k))

is_settable-stray :
    (before after : Text) (c : ℕ)
    → has_percent before ≡ false
    → eqb c open_paren ≡ false
    → is_settable outside (before ++ (percent ∷ c ∷ after)) ≡ false
unfolding is_settable
is_settable-stray [] after c h k = rw (k, is_settable)
is_settable-stray (x ∷ before) after c h k =
    let (e, j) = without_percent x before h in
    rw (e, is_settable) (is_settable-stray before after c j k)

-- A percent sign that another one does not precede, and that neither another nor a parenthesis
-- follows.
pub set_option_stray :
    (n before after : Text) (c : ℕ) (o : Options)
    → has_percent before ≡ false
    → eqb c percent ≡ false
    → eqb c open_paren ≡ false
    → set_option n (before ++ (percent ∷ c ∷ after)) o ≡ err invalid_syntax
unfolding set_option
set_option_stray n before after c o h k l =
    rw
      (drop_pairs-stray before after c h k, is_settable-stray before (drop_pairs false after) c h l)

pub get_option-plain :
    (n v : Text) (o : Options) → has_percent v ≡ false → get_option n (store n v o) ≡ ok v
unfolding get_option
get_option-plain n v o h = rw (raw_option-store n v o) (interpolate-plain 9 (store n v o) v h)

read_all-plain :
    (o rest : Options)
    → All (λ (p : Text × Text). has_percent p.1 ≡ false) rest
    → read_all o rest ≡ ok rest
read_all-plain o [] h = refl
read_all-plain o ((n, v) ∷ rest) h =
    ap (λ m. m >>= λ value. read_all o rest >>= λ values. ok ((n, value) ∷ values))
      (interpolate-plain 9 o v h.0)
    ∙ ap (λ m. m >>= λ values. ok ((n, v) ∷ values)) (read_all-plain o rest h.1)

-- A section without percent signs is read as it is.
pub items-plain :
    (o : Options) → All (λ (p : Text × Text). has_percent p.1 ≡ false) o → items o ≡ ok o
unfolding items
items-plain o h = read_all-plain o o h
