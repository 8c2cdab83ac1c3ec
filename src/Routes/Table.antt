-- ===== src/Routes/Table.antt =====
-- Which endpoint a request reaches: the rules of the three blueprints of
-- data-processing-service/app/routes, and the prefixes under which `create_app` of
-- data-processing-service/app/__init__.py registers them. A path is what is between its slashes; a
-- variable of a rule stands for one part that is not empty. What Flask and the exporter of
-- metrics add is left out: HEAD and OPTIONS, `/static`, `/metrics` and the redirection to `/health/`.
-- The choice of a rule is Flask's: a parameter, of which `IsRouter` says what is documented.
pub mod First
pub mod Paths
use global_payments_api.Prelude.{
  Any, ◌≡◌, String, ◌==◌, Bool, true, false, ◌&&◌, List, [], ◌∷◌, ◌++◌, map, Option, none, some,
  if◌then◌else◌,
}

pub data Method : Type 0 where
  get post : Method

-- The functions of the routes, with the argument that the path gives.
pub data Endpoint : Type 0 where
  liveness readiness root : Endpoint
  trigger_reconciliation list_runs : Endpoint
  get_run get_run_records : String → Endpoint
  summary exceptions_report : Endpoint

pub data Part : Type 0 where
  literal : String → Part
  variable : Part

pub record Rule : Type 0 where
  pub method : Method
  pub parts : List Part
  pub endpoint : String → Endpoint  -- from the value of the variable

abbrev pub same_method : Method → Method → Bool
same_method get get = true
same_method post post = true
same_method _ _ = false

abbrev liveness_rule : Rule
liveness_rule = record { method = get; parts = literal "liveness" ∷ []; endpoint = λ s. liveness }

abbrev readiness_rule : Rule
readiness_rule = record {
  method = get;
  parts = literal "readiness" ∷ [];
  endpoint = λ s. readiness;
}

abbrev root_rule : Rule
root_rule = record { method = get; parts = literal "" ∷ []; endpoint = λ s. root }

abbrev health_rules : List Rule
health_rules = liveness_rule ∷ readiness_rule ∷ root_rule ∷ []

abbrev trigger_rule : Rule
trigger_rule = record {
  method = post;
  parts = literal "run" ∷ [];
  endpoint = λ s. trigger_reconciliation;
}

abbrev list_rule : Rule
list_rule = record { method = get; parts = literal "runs" ∷ []; endpoint = λ s. list_runs }

abbrev run_rule : Rule
run_rule = record {
  method = get;
  parts = literal "runs" ∷ variable ∷ [];
  endpoint = λ s. get_run s;
}

abbrev records_rule : Rule
records_rule = record {
  method = get;
  parts = literal "runs" ∷ variable ∷ literal "records" ∷ [];
  endpoint = λ s. get_run_records s;
}

abbrev reconciliation_rules : List Rule
reconciliation_rules = trigger_rule ∷ list_rule ∷ run_rule ∷ records_rule ∷ []

abbrev summary_rule : Rule
summary_rule = record { method = get; parts = literal "summary" ∷ []; endpoint = λ s. summary }

abbrev exceptions_rule : Rule
exceptions_rule = record {
  method = get;
  parts = literal "exceptions" ∷ [];
  endpoint = λ s. exceptions_report;
}

abbrev reports_rules : List Rule
reports_rules = summary_rule ∷ exceptions_rule ∷ []

-- `app.register_blueprint(…, url_prefix=…)`
abbrev prefixed : List String → Rule → Rule
prefixed prefix r = record r { parts = map literal prefix ++ r.parts }

abbrev register : List String → List Rule → List Rule
register prefix = map (prefixed prefix)

abbrev pub url_map : List Rule
url_map =
    register ("health" ∷ []) health_rules
    ++ (register ("api" ∷ "v1" ∷ "reconciliation" ∷ []) reconciliation_rules
        ++ register ("api" ∷ "v1" ∷ "reports" ∷ []) reports_rules)

-- The path is as the rule says, with this value for the variable.
abbrev pub Fits : List Part → List String → String → Type 0
Fits [] path s = (path ≡ []) × (s ≡ "")
Fits (literal x ∷ parts) path s = (rest : List String) × (path ≡ x ∷ rest) × Fits parts rest s
Fits (variable ∷ parts) path s =
    (rest : List String) × (path ≡ s ∷ rest)
    × ((s == "") ≡ false)
    × ((s' : String) × Fits parts rest s')

-- The rule has led to the endpoint.
abbrev pub Leads : Method → List String → Endpoint → Rule → Type 0
Leads m path e r = (s : String) × Fits r.parts path s × (r.method ≡ m) × (r.endpoint s ≡ e)

pub data Answer : Type 0 where
  handled : Endpoint → Answer
  method_not_allowed_405 not_found_404 : Answer

-- A rule that is chosen leads to the endpoint, and where rules lead to one endpoint only, that is the
-- answer.
pub record IsRouter (route : List Rule → Method → List String → Answer) : Type 0 where
  pub found :
      (rules : List Rule) (m : Method) (path : List String) (e : Endpoint)
      → route rules m path ≡ handled e
      → Any (Leads m path e) rules
  pub finds :
      (rules : List Rule) (m : Method) (path : List String) (e : Endpoint)
      → Any (Leads m path e) rules
      → ((e' : Endpoint) → Any (Leads m path e') rules → e' ≡ e)
      → route rules m path ≡ handled e
