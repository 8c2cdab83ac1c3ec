-- ===== src/Routes/Table/First.antt =====
-- A router that takes the first rule that fits: it shows that the assumption can be met.
use global_payments_api.Prelude.{
  Option, eq_refl, String, ◌==◌, eq_iff, ◌≡◌, refl, sym, ap, ◌∙◌, true, false, List, [], ◌∷◌, none,
  some, Any, inl, inr, Bool-cases, Option-cases, if◌then◌else◌,
}
use mathlib.Core.Path.{subst}
use global_payments_api.Routes.Table.{
  Method, get, post, Endpoint, method_not_allowed_405, not_found_404, Part, literal, variable, Rule,
  Fits, Leads, IsRouter, same_method, Answer, handled,
}

abbrev bound : String → Option String → Option String
bound t none = none
bound t (some s) = some t

-- The value of the variable, or the empty text, where the path is as the rule says.
unfoldable pub match_path : List Part → List String → Option String
match_path [] [] = some ""
match_path (literal s ∷ parts) (t ∷ path) =
    let rest = match_path parts path in if s == t then rest else none
match_path (variable ∷ parts) (t ∷ path) =
    let rest = match_path parts path in if t == "" then none else bound t rest
match_path _ _ = none

abbrev pub or_405 : Answer → Answer
or_405 (handled e) = handled e
or_405 _ = method_not_allowed_405

abbrev pub choose : Rule → Method → Option String → Answer → Answer
choose r m none rest = rest
choose r m (some s) rest = if same_method r.method m then handled (r.endpoint s) else or_405 rest

abbrev pub dispatch_to : List Rule → Method → List String → Answer
dispatch_to [] m path = not_found_404
dispatch_to (r ∷ rules) m path = choose r m (match_path r.parts path) (dispatch_to rules m path)

match_path-Fits :
    (parts : List Part) (path : List String) (s : String)
    → match_path parts path ≡ some s
    → Fits parts path s
unfolding match_path
match_path-Fits [] [] s h = (refl, sym (some_text h))
  where
    some_text : {t : String} → some t ≡ some s → t ≡ s
    some_text e = cc
match_path-Fits [] (t ∷ path) s h = cc
match_path-Fits (literal x ∷ parts) [] s h = cc
match_path-Fits (variable ∷ parts) [] s h = cc
match_path-Fits (literal x ∷ parts) (t ∷ path) s h = elim (Bool-cases (x == t)) [
  | inl e ↦
      (path, ap (λ y. y ∷ path) (sym ((eq_iff x t).0 e)), match_path-Fits parts path s (rw e at h))
  | inr e ↦ absurd (none_ne (rw e at h))
]
  where
    none_ne : ¬ (none ≡ some s)
    none_ne e = cc
match_path-Fits (variable ∷ parts) (t ∷ path) s h = elim (Bool-cases (t == "")) [
  | inl e ↦ absurd (none_ne (rw e at h))
  | inr e ↦ elim (Option-cases (match_path parts path)) [
    | inl k ↦ absurd (none_ne (rw (e, k) at h))
    | inr (s', k) ↦
        let same : t ≡ s = some_some (rw (e, k) at h) in
        (
          path,
          ap (λ y. y ∷ path) same,
          subst (λ y. (y == "") ≡ false) same e,
          (s', match_path-Fits parts path s' k),
        )
  ]
]
  where
    none_ne : ¬ (none ≡ some s)
    none_ne e = cc

    some_some : some t ≡ some s → t ≡ s
    some_some e = cc

same_method→eq : (m n : Method) → same_method m n ≡ true → m ≡ n
same_method→eq get get h = refl
same_method→eq post post h = refl
same_method→eq get post h = cc
same_method→eq post get h = cc

or_405-handled : (a : Answer) (e : Endpoint) → or_405 a ≡ handled e → a ≡ handled e
or_405-handled (handled x) e h = h
or_405-handled method_not_allowed_405 e h = cc
or_405-handled not_found_404 e h = cc

pub dispatch_to-Leads :
    (rules : List Rule) (m : Method) (path : List String) (e : Endpoint)
    → dispatch_to rules m path ≡ handled e
    → Any (Leads m path e) rules
dispatch_to-Leads [] m path e h = absurd (not_found h)
  where
    not_found : ¬ (not_found_404 ≡ handled e)
    not_found k = cc
dispatch_to-Leads (r ∷ rules) m path e h = elim (Option-cases (match_path r.parts path)) [
  | inl k ↦ inr (dispatch_to-Leads rules m path e (rw k at h))
  | inr (s, k) ↦ elim (Bool-cases (same_method r.method m)) [
    | inl q ↦ inl (
      s,
      match_path-Fits r.parts path s k,
      same_method→eq r.method m q,
      endpoint_of (rw (k, q) at h),
    )
    | inr q ↦ inr (
        dispatch_to-Leads rules m path e
          (or_405-handled (dispatch_to rules m path) e (rw (k, q) at h)))
  ]
]
  where
    endpoint_of : {x : Endpoint} → handled x ≡ handled e → x ≡ e
    endpoint_of k = cc

Fits-match_path :
    (parts : List Part) (path : List String) (s : String)
    → Fits parts path s
    → match_path parts path ≡ some s
unfolding match_path
Fits-match_path [] path s (e, z) = subst (λ p. match_path [] p ≡ some s) (sym e) (ap some (sym z))
Fits-match_path (literal x ∷ parts) path s (rest, e, f) =
    subst (λ p. match_path (literal x ∷ parts) p ≡ some s) (sym e)
      (rw eq_refl (Fits-match_path parts rest s f))
Fits-match_path (variable ∷ parts) path s (rest, e, full, (s', f)) =
    subst (λ p. match_path (variable ∷ parts) p ≡ some s) (sym e)
      (rw (full, Fits-match_path parts rest s' f) refl)

same_method_refl : (m : Method) → same_method m m ≡ true
same_method_refl get = refl
same_method_refl post = refl

-- Where some rule leads to an endpoint, one is chosen.
Leads-handled :
    (rules : List Rule) (m : Method) (path : List String) (e : Endpoint)
    → Any (Leads m path e) rules
    → (e' : Endpoint) × (dispatch_to rules m path ≡ handled e')
Leads-handled [] m path e h = absurd h
Leads-handled (r ∷ rules) m path e (inl (s, f, q, k)) =
    let same : same_method r.method m ≡ true =
      subst (λ x. same_method r.method x ≡ true) q (same_method_refl r.method) in
    rw (Fits-match_path r.parts path s f, same) (r.endpoint s, refl)
Leads-handled (r ∷ rules) m path e (inr h) =
    let (e', d) = Leads-handled rules m path e h in
    elim (Option-cases (match_path r.parts path)) [
      | inl k ↦ rw k (e', d)
      | inr (s, k) ↦ elim (Bool-cases (same_method r.method m)) [
        | inl q ↦ rw (k, q) (r.endpoint s, refl)
        | inr q ↦ rw (k, q, d) (e', refl)
      ]
    ]

pub dispatch_to-IsRouter : IsRouter dispatch_to
dispatch_to-IsRouter = record {
  found = dispatch_to-Leads;
  finds = λ rules m path e h only.
      let (e', d) = Leads-handled rules m path e h in
      d ∙ ap handled (only e' (dispatch_to-Leads rules m path e' d));
}
