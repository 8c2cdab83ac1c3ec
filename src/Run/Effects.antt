-- ===== src/Run/Effects.antt =====
-- The steps before the records leave the tables alone.
use global_payments_api.Prelude.{ℕ, zero, suc, String, ◌≡◌, refl, ◌∙◌, ap}
use global_payments_api.Python.Raised.{Result, ok, err, Exec}
use global_payments_api.Python.Float.{Float}
use global_payments_api.Python.Date.{Date}
use global_payments_api.Frame.{Frame}
use global_payments_api.Pandas.{Pandas}
use global_payments_api.Services.{Services, IsSession, after_attempt, attempts}
use global_payments_api.Loading.{
  framed, parsed, load_internal_payments, try_clearing_file, load_clearing_file,
}

module _ {F : Type 0} (svc : Services F) {A : Type 0} (f : Exec svc.World A)
    (same : (w : svc.World) → svc.view (f w).1 ≡ svc.view w) where
  view-after_attempt :
      (m : Result A × svc.World) (more : Exec svc.World A)
      → ((w : svc.World) → svc.view (more w).1 ≡ svc.view w)
      → svc.view (after_attempt m more).1 ≡ svc.view m.1
  view-after_attempt (ok a, w) more h = refl
  view-after_attempt (err e, w) more h = h w

  view-attempts : (n : ℕ) (w : svc.World) → svc.view (attempts n f w).1 ≡ svc.view w
  view-attempts zero w = refl
  view-attempts (suc n) w = view-after_attempt (f w) (attempts n f) (view-attempts n) ∙ same w

module _ (fl : Float) (pd : Pandas fl.F) (stamp_text : ℕ → String) (svc : Services fl.F)
    (sess : IsSession svc) where
  open svc use {World, view}

  world-framed : (m : _) → (framed fl pd stamp_text svc m).1 ≡ m.1
  world-framed (ok ps, w) = refl
  world-framed (err e, w) = refl

  world-parsed : (m : _) → (parsed fl pd stamp_text svc m).1 ≡ m.1
  world-parsed (ok body, w) = refl
  world-parsed (err e, w) = refl

  pub view-load_internal_payments :
      (d : Date) (w : World) → view (load_internal_payments fl pd stamp_text svc d w).1 ≡ view w
  unfolding load_internal_payments
  view-load_internal_payments d w =
      ap view (world-framed (svc.query_payments d w)) ∙ sess.view-query d w

  view-try_clearing_file :
      (bucket : String) (d : Date) (w : World)
      → view (try_clearing_file fl pd stamp_text svc bucket d w).1 ≡ view w
  unfolding try_clearing_file
  view-try_clearing_file bucket d w =
      ap view (world-parsed (svc.get_object bucket _ w)) ∙ sess.view-get bucket _ w

  pub view-load_clearing_file :
      (bucket : String) (d : Date) (w : World)
      → view (load_clearing_file fl pd stamp_text svc bucket d w).1 ≡ view w
  unfolding load_clearing_file
  view-load_clearing_file bucket d w =
      ap (λ (m : Result (Frame fl.F) × World). view m.1)
        (sess.retry_lem (try_clearing_file fl pd stamp_text svc bucket d) w)
      ∙ view-attempts svc (try_clearing_file fl pd stamp_text svc bucket d)
          (view-try_clearing_file bucket d) 3 w
