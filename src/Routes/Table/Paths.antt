-- ===== src/Routes/Table/Paths.antt =====
-- Each endpoint has one address, which reaches it and no other.
use global_payments_api.Prelude.{
  String, ◌==◌, ◌≡◌, refl, sym, ap, ◌∙◌, ◌↔◌, false, List, [], ◌∷◌, Any, inl, inr,
}
use mathlib.Core.Path.{subst}
use global_payments_api.Routes.Table.{
  Method, get, post, Endpoint, liveness, readiness, root, trigger_reconciliation, list_runs,
  get_run, get_run_records, summary, exceptions_report, literal, Rule, Fits, Leads, IsRouter,
  url_map, Answer, handled,
}
use global_payments_api.Routes.Table.First.{match_path, dispatch_to, dispatch_to-Leads}

-- The requests that the functions are written for.
abbrev pub method_of : Endpoint → Method
method_of trigger_reconciliation = post
method_of _ = get

abbrev pub path_of : Endpoint → List String
path_of liveness = "health" ∷ "liveness" ∷ []
path_of readiness = "health" ∷ "readiness" ∷ []
path_of root = "health" ∷ "" ∷ []
path_of trigger_reconciliation = "api" ∷ "v1" ∷ "reconciliation" ∷ "run" ∷ []
path_of list_runs = "api" ∷ "v1" ∷ "reconciliation" ∷ "runs" ∷ []
path_of (get_run id) = "api" ∷ "v1" ∷ "reconciliation" ∷ "runs" ∷ id ∷ []
path_of (get_run_records id) = "api" ∷ "v1" ∷ "reconciliation" ∷ "runs" ∷ id ∷ "records" ∷ []
path_of summary = "api" ∷ "v1" ∷ "reports" ∷ "summary" ∷ []
path_of exceptions_report = "api" ∷ "v1" ∷ "reports" ∷ "exceptions" ∷ []

-- The argument is not empty.
abbrev pub IsNamed : Endpoint → Type 0
IsNamed (get_run id) = (id == "") ≡ false
IsNamed (get_run_records id) = (id == "") ≡ false
IsNamed _ = Unit

abbrev pub Reaches : Method → List String → Endpoint → Type 0
Reaches m path e = (m ≡ method_of e) × (path ≡ path_of e) × IsNamed e

reaches-dispatch :
    (e : Endpoint) → IsNamed e → dispatch_to url_map (method_of e) (path_of e) ≡ handled e
unfolding match_path
reaches-dispatch liveness h = refl
reaches-dispatch readiness h = refl
reaches-dispatch root h = refl
reaches-dispatch trigger_reconciliation h = refl
reaches-dispatch list_runs h = refl
reaches-dispatch (get_run id) h = rw h refl
reaches-dispatch (get_run_records id) h = rw h refl
reaches-dispatch summary h = refl
reaches-dispatch exceptions_report h = refl

-- A rule without a variable, of two parts and of four, that has led to the endpoint.
reaches_two :
    (m : Method) (path : List String) (a b s : String) (e : Endpoint)
    → Fits (literal a ∷ literal b ∷ []) path s
    → path_of e ≡ a ∷ b ∷ []
    → path ≡ path_of e
reaches_two m path a b s e (t, f, (u, g, (h, z))) k = cc

reaches_four :
    (m : Method) (path : List String) (a b c d s : String) (e : Endpoint)
    → Fits (literal a ∷ literal b ∷ literal c ∷ literal d ∷ []) path s
    → path_of e ≡ a ∷ b ∷ c ∷ d ∷ []
    → path ≡ path_of e
reaches_four m path a b c d s e (t, f, (u, g, (v, h, (w, i, (j, z))))) k = cc

Leads-Reaches :
    (m : Method) (path : List String) (e : Endpoint)
    → Any (Leads m path e) url_map
    → Reaches m path e
Leads-Reaches m path e (inl (s, f, q, k)) =
    subst (Reaches m path) k (sym q, reaches_two m path _ _ s liveness f refl, tt)
Leads-Reaches m path e (inr (inl (s, f, q, k))) =
    subst (Reaches m path) k (sym q, reaches_two m path _ _ s readiness f refl, tt)
Leads-Reaches m path e (inr (inr (inl (s, f, q, k)))) =
    subst (Reaches m path) k (sym q, reaches_two m path _ _ s root f refl, tt)
Leads-Reaches m path e (inr (inr (inr (inl (s, f, q, k))))) =
    subst (Reaches m path) k
      (sym q, reaches_four m path _ _ _ _ s trigger_reconciliation f refl, tt)
Leads-Reaches m path e (inr (inr (inr (inr (inl (s, f, q, k)))))) =
    subst (Reaches m path) k (sym q, reaches_four m path _ _ _ _ s list_runs f refl, tt)
Leads-Reaches m path e
      (inr (
        inr (
          inr (
            inr (
              inr (inl (s, (t, f, (u, g, (v, h, (w, i, (x, j, full, (s', (l, z))))))), q, k))))))) =
    subst (Reaches m path) k (sym q, cc, full)
Leads-Reaches m path e
      (inr (
        inr (
          inr (
            inr (
              inr (
                inr (
                  inl (
                    s,
                    (t, f, (u, g, (v, h, (w, i, (x, j, full, (s', (y, l, (n, z)))))))),
                    q,
                    k,
                  )))))))) =
    subst (Reaches m path) k (sym q, cc, full)
Leads-Reaches m path e (inr (inr (inr (inr (inr (inr (inr (inl (s, f, q, k))))))))) =
    subst (Reaches m path) k (sym q, reaches_four m path _ _ _ _ s summary f refl, tt)
Leads-Reaches m path e (inr (inr (inr (inr (inr (inr (inr (inr (inl (s, f, q, k)))))))))) =
    subst (Reaches m path) k (sym q, reaches_four m path _ _ _ _ s exceptions_report f refl, tt)
Leads-Reaches m path e (inr (inr (inr (inr (inr (inr (inr (inr (inr h))))))))) = absurd h

-- Two endpoints with the same address and method are one.
one_endpoint :
    (m : Method) (path : List String) (e e' : Endpoint)
    → Reaches m path e
    → Reaches m path e'
    → e' ≡ e
one_endpoint m path e e' (q, p, named) (q', p', named') = handled_endpoint (
    sym (reaches-dispatch e' named')
    ∙ ap (λ x. dispatch_to url_map x (path_of e')) (sym q' ∙ q)
    ∙ ap (dispatch_to url_map (method_of e)) (sym p' ∙ p)
    ∙ reaches-dispatch e named)
  where
    handled_endpoint : {x y : Endpoint} → handled x ≡ handled y → x ≡ y
    handled_endpoint h = cc

Reaches-Leads :
    (m : Method) (path : List String) (e : Endpoint)
    → Reaches m path e
    → Any (Leads m path e) url_map
Reaches-Leads m path e (q, p, named) = dispatch_to-Leads url_map m path e (
    ap (λ x. dispatch_to url_map x path) q
    ∙ ap (dispatch_to url_map (method_of e)) p
    ∙ reaches-dispatch e named)

-- With the router as documented, a request is handed to a function exactly if it is of that
-- function's method and has that function's address, with an argument that is not empty where
-- there is one.
pub url_map_iff :
    (route : List Rule → Method → List String → Answer)
    → IsRouter route
    → (m : Method) (path : List String) (e : Endpoint)
    → (route url_map m path ≡ handled e) ↔ Reaches m path e
url_map_iff route doc m path e = (
  λ h. Leads-Reaches m path e (doc.found url_map m path e h),
  λ h.
      doc.finds url_map m path e (Reaches-Leads m path e h)
        (λ e' l. one_endpoint m path e e' h (Leads-Reaches m path e' l)),
)
