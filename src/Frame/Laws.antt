-- ===== src/Frame/Laws.antt =====
-- Reading a row after a cell was written.
use global_payments_api.Prelude.{
  String, ◌==◌, eq_iff, ◌≡◌, refl, [], ◌∷◌, arith, some, if◌then◌else◌,
}
use global_payments_api.Python.Raised.{ok}
use global_payments_api.Frame.{Cell, Row, lookup, get, item, put}

module _ {F : Type 0} where
  pub lookup-put :
      (c d : String) (v : Cell F) (r : Row F)
      → lookup d (put c v r) ≡ (if c == d then some v else lookup d r)
  unfolding lookup put
  lookup-put c d v [] = refl
  lookup-put c d v ((l, w) ∷ r) =
      ground (arith, lookup-put c d v r, eq_iff l c, eq_iff l d, eq_iff c d)

  pub get-put :
      (c d : String) (v : Cell F) (r : Row F) → get d (put c v r) ≡ (if c == d then v else get d r)
  unfolding get
  get-put c d v r = ground (arith, lookup-put c d v r)

  pub item-put :
      (c d : String) (v : Cell F) (r : Row F)
      → item d (put c v r) ≡ (if c == d then ok v else item d r)
  unfolding item
  item-put c d v r = ground (arith, lookup-put c d v r)
