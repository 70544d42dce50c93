-- ===== src/Detector/Overrides/Discards.antt =====
-- Which trips a discard override drops.
use odograph.Prelude.{
  ℕ, ◌-◌, ◌*◌, ◌≤◌, ◌<◌, ◌≡◌, true, false, not, List, arith, any, All, All-imp, keep-passes,
}
use odograph.Detector.Model.{Trip, Override}
use odograph.Detector.Overrides.{discard_ranges, is_discarded_by, apply_discard_overrides}

module _ {F : Type 0} where
  -- A range never discards a trip more than twice as long as itself, where neither ends before it
  -- starts: a much larger trip that covers the range stays.
  pub longer_not_discarded :
      (trip : Trip F) (range : ℕ × ℕ)
      → trip.started_at ≤ trip.ended_at
      → range.0 ≤ range.1
      → 2 * (range.1 - range.0) < trip.ended_at - trip.started_at
      → is_discarded_by trip range ≡ false
  unfolding is_discarded_by
  longer_not_discarded trip range h r long = ground arith

  -- A trip that lies in the range, is at least half as long as it, and does not end before it
  -- starts, is discarded.
  pub inside_is_discarded :
      (trip : Trip F) (range : ℕ × ℕ)
      → trip.started_at ≤ trip.ended_at
      → range.0 ≤ trip.started_at
      → trip.ended_at ≤ range.1
      → range.1 - range.0 ≤ 2 * (trip.ended_at - trip.started_at)
      → is_discarded_by trip range ≡ true
  unfolding is_discarded_by
  inside_is_discarded trip range h a b half = ground arith

  -- No trip that is left is discarded by a range of the overrides.
  pub apply_discard_overrides-clean :
      (trips : List (Trip F)) (overrides : List Override)
      → All
          (λ t. any (is_discarded_by t) (discard_ranges overrides) ≡ false)
          (apply_discard_overrides trips overrides)
  unfolding apply_discard_overrides
  apply_discard_overrides-clean trips overrides =
      All-imp _ _ _ (λ t e. ground arith)
        (keep-passes (λ t. not (any (is_discarded_by t) (discard_ranges overrides))) trips)
