-- ===== src/Routes/Trigger.antt =====
-- `POST /api/v1/reconciliation/run`: `trigger_reconciliation` of
-- data-processing-service/app/routes/reconciliation.py. `from_iso` is `date.fromisoformat`, and
-- `yesterday` the default date of the service, `date.today() - timedelta(days=1)`.
use global_payments_api.Prelude.{
  ℕ, String, ◌==◌, ◌<>◌, ◌≡◌, refl, [], Option, none, some, if◌then◌else◌,
}
use global_payments_api.Python.Raised.{
  Raised, Class, value_error, type_error, attribute_error, Result, ok, err,
}
use global_payments_api.Python.Float.{Float}
use global_payments_api.Python.Date.{Date}
use global_payments_api.Frame.{Frame}
use global_payments_api.Pandas.{Pandas}
use global_payments_api.Services.{Services, IsSession, View}
use global_payments_api.Run.{Summary, run_id_of, run_daily_reconciliation}
use global_payments_api.Run.Theorems.{IsOfDay, RunOutcome, run_daily_reconciliation-RunOutcome}

-- A status code and a body: a summary, or a code and a message.
pub data Response (A : Type 0) : Type 0 where
  ok_200 : A → Response A
  validation_error_400 : Response A
  reconciliation_failed_500 : String → Response A
  -- what the handler does not catch
  unhandled : Raised → Response A

-- What `body.get('date')` gives: nothing, or another value that counts as false; a text; or a value
-- that counts as true and is no text.
pub data DateField : Type 0 where
  no_date : DateField
  date_text : String → DateField
  no_text : DateField

-- What `request.get_json(silent=True) or {}` gives: an object, which is empty where there is no JSON or
-- its value counts as false, or a value of another type, by the name of the type.
pub data Body : Type 0 where
  object : DateField → Body
  no_object : String → Body

-- The date that the request asks for.
pub data Target : Type 0 where
  default_date : Target
  date : Date → Target
  invalid_date : Target
  escapes : Raised → Target

-- `except ValueError`
abbrev not_iso : Class → Raised → Target
not_iso value_error e = invalid_date
not_iso _ e = escapes e

abbrev parsed : Result Date → Target
parsed (ok d) = date d
parsed (err e) = not_iso e.kind e

module _ (from_iso : String → Result Date) where
  unfoldable pub target : Body → Target
  target (object no_date) = default_date
  target (object (date_text s)) = if s == "" then default_date else parsed (from_iso s)
  target (object no_text) =
      escapes (record { kind = type_error; text = "fromisoformat: argument must be str" })
  target (no_object type_name) = escapes (record {
    kind = attribute_error;
    text = "'" <> type_name <> "' object has no attribute 'get'";
  })

module _ (fl : Float) (pd : Pandas fl.F) (stamp_text : ℕ → String) (svc : Services fl.F)
    (ids : ℕ → ℕ) (to_csv : Frame fl.F → String) (bucket : String) (from_iso : String → Result Date)
    (yesterday : Date) where
  open fl use {F}
  open svc use {World, view}

  -- `except Exception`
  abbrev pub respond : Result (Summary F) × World → Response (Summary F) × World
  respond (ok s, w) = (ok_200 s, w)
  respond (err e, w) = (reconciliation_failed_500 e.text, w)

  abbrev run_target : Target → World → Response (Summary F) × World
  run_target default_date w =
      respond (run_daily_reconciliation fl pd stamp_text svc ids to_csv bucket yesterday w)
  run_target (date d) w =
      respond (run_daily_reconciliation fl pd stamp_text svc ids to_csv bucket d w)
  run_target invalid_date w = (validation_error_400, w)
  run_target (escapes e) w = (unhandled e, w)

  unfoldable pub trigger_reconciliation : Body → World → Response (Summary F) × World
  unfolding target run_daily_reconciliation
  trigger_reconciliation body w = run_target (target from_iso body) w

  -- The date of the run, if there is one.
  abbrev pub run_date : Target → Option Date
  run_date default_date = some yesterday
  run_date (date d) = some d
  run_date _ = none

  -- What a response to a target says of the tables, from the view `v`: a 200 that the target's date
  -- has all its results stored, a 500 with `m` that its run raised an exception with the text `m`,
  -- and any other one that there is no date, and nothing was done.
  abbrev pub Told : Target → View F → World → Response (Summary F) × World → Type 0
  Told t v w (ok_200 s, w') =
      (d : Date) × (run_date t ≡ some d)
      × RunOutcome fl svc ids (IsOfDay fl pd stamp_text svc bucket d) (run_id_of d) v (ok s, w')
  Told t v w (reconciliation_failed_500 m, w') =
      (d : Date) × (e : Raised) × (run_date t ≡ some d)
      × (e.text ≡ m)
      × RunOutcome fl svc ids (IsOfDay fl pd stamp_text svc bucket d) (run_id_of d) v (err e, w')
  Told t v w (validation_error_400, w') = (t ≡ invalid_date) × (w' ≡ w)
  Told t v w (unhandled e, w') = (t ≡ escapes e) × (w' ≡ w)

  respond-Told :
      (t : Target) (d : Date) (w : World) (m : Result (Summary F) × World)
      → run_date t ≡ some d
      → RunOutcome fl svc ids (IsOfDay fl pd stamp_text svc bucket d) (run_id_of d) (view w) m
      → Told t (view w) w (respond m)
  respond-Told t d w (ok s, w') q h = (d, q, h)
  respond-Told t d w (err e, w') q h = (d, e, q, refl, h)

  module _ (sess : IsSession svc) where
    run_target-Told :
        (t : Target) (w : World) → (view w).staged ≡ [] → Told t (view w) w (run_target t w)
    run_target-Told default_date w idle =
        respond-Told default_date yesterday w
          (run_daily_reconciliation fl pd stamp_text svc ids to_csv bucket yesterday w) refl
          (run_daily_reconciliation-RunOutcome fl pd stamp_text svc sess ids to_csv bucket yesterday
            w idle)
    run_target-Told (date d) w idle =
        respond-Told (date d) d w
          (run_daily_reconciliation fl pd stamp_text svc ids to_csv bucket d w) refl
          (run_daily_reconciliation-RunOutcome fl pd stamp_text svc sess ids to_csv bucket d w idle)
    run_target-Told invalid_date w idle = (refl, refl)
    run_target-Told (escapes e) w idle = (refl, refl)

    -- From a session with no records staged, the response to a trigger agrees with the tables: on a
    -- 200 the run of the requested date, or of the default one, has its records and its completed row
    -- stored; on a 500 that run raised an exception with that text and left nothing or an unfinished
    -- row; on a 400 the date is not in ISO format and the world is as before, and so it is where
    -- reading the body, or parsing the date, raises anything else.
    pub trigger_reconciliation-Told :
        (body : Body) (w : World)
        → (view w).staged ≡ []
        → Told (target from_iso body) (view w) w (trigger_reconciliation body w)
    unfolding trigger_reconciliation
    trigger_reconciliation-Told body w idle = run_target-Told (target from_iso body) w idle
