-- ===== src/MissingTrip/Shown.antt =====
-- A badge at one threshold is a badge at each smaller positive one, where the order of the floats
-- is transitive.
use odograph.Prelude.{
  ◌≡◌, refl, inl, inr, true, false, Option, none, some, arith, Bool-cases, Option-cases,
}
use odograph.Floats.{Floats}
use odograph.MissingTrip.{Links, TripGap, MissingTripBadge, bridged, missing_trip_badge}

module _ (fl : Floats) (links : Links fl.Float) where
  open fl use {Float, of_nat, le}

  -- Of the order of floats, NaN included: it is transitive.
  abbrev pub IsTransitive : Type 0
  IsTransitive = (a b c : Float) → le a b ≡ true → le b c ≡ true → le a c ≡ true

  le_smaller :
      (a small large : Float)
      → IsTransitive
      → le small large ≡ true
      → le a large ≡ false
      → le a small ≡ false
  le_smaller a small large t h far = elim (Bool-cases (le a small)) [
    | inr e ↦ e
    | inl e ↦ absurd (ground (arith, far, t a small large e h))
  ]

  bridged_smaller :
      (small large : Float) (other : Option Float)
      → IsTransitive
      → le small large ≡ true
      → bridged fl links large other ≡ false
      → bridged fl links small other ≡ false
  bridged_smaller small large none t h e = refl
  bridged_smaller small large (some x) t h e = le_smaller x small large t h e

  -- Where the order of floats is transitive, a badge that a threshold shows is the same badge at
  -- each smaller threshold that is positive.
  pub missing_trip_badge_smaller :
      (trip : TripGap Float) (small large : Float) (badge : MissingTripBadge Float)
      → IsTransitive
      → le small large ≡ true
      → le small (of_nat 0) ≡ false
      → missing_trip_badge fl links trip large ≡ some badge
      → missing_trip_badge fl links trip small ≡ some badge
  unfolding missing_trip_badge
  missing_trip_badge_smaller trip small large badge t h positive e =
      elim (Option-cases trip.prev_end_gap_m) [
        | inl g ↦ absurd (ground (arith, e, g))
        | inr (gap, g) ↦ elim (Option-cases trip.prev_trip_ended_at) [
          | inl p ↦ absurd (ground (arith, e, g, p))
          | inr (ended, p) ↦
              let far : le gap large ≡ false = ground (arith, e, g, p) in
              let alone : bridged fl links large trip.other_device_end_gap_m ≡ false =
                ground (arith, e, g, p) in
              ground (
                arith,
                e,
                g,
                p,
                positive,
                le_smaller gap small large t h far,
                bridged_smaller small large trip.other_device_end_gap_m t h alone,
              )
        ]
      ]
