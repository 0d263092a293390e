-- ===== src/Backend/Plan/Total.antt =====
-- The ladder of `response_plan` ends before its assertion.
use lighttpd_fuzz.Base.{◌≡◌, refl, Bool, true, All, is_ok}
use lighttpd_fuzz.Base.Bytes.{Bytes}
use lighttpd_fuzz.Base.Text.{Text, elem}
use lighttpd_fuzz.Backend.Modes.{mode_names, canonical_mode}
use lighttpd_fuzz.Backend.Modes.Selected.{elem-All, canonical_mode-IsMode}
use lighttpd_fuzz.Backend.Plan.{mode_plan, response_plan}

module _ (http : Bool) (echo : Bytes) where
  names_ok : All (λ name. is_ok (mode_plan name http echo) ≡ true) mode_names
  unfolding mode_plan elem
  names_ok = (
    refl,
    (
      refl,
      (refl, (refl, (refl, (refl, (refl, (refl, (refl, (refl, (refl, (refl, (refl, tt))))))))))),
    ),
  )

  -- `response_plan` returns for every mode, canonical or not: its assertion is never raised.
  pub response_plan-returns : (mode : Text) → is_ok (response_plan mode http echo) ≡ true
  unfolding response_plan
  response_plan-returns mode =
      elem-All (λ name. is_ok (mode_plan name http echo) ≡ true) (canonical_mode mode) mode_names
        (canonical_mode-IsMode mode) names_ok
