-- ===== src/Odometer.antt =====
-- `reconcile` of app/odometer.py: odometer readings against the distances of the trips between
-- them. Instants are in microseconds, and distances are floats.
pub mod Attribution
mod Tests
use odograph.Prelude.{
  ℕ, Bool, true, false, not, ◌&&◌, Option, none, some, List, [], ◌∷◌, map, leb, ltb, keep, sorted,
  if◌then◌else◌,
}
use odograph.Floats.{Floats}

pub record OdometerReading (F : Type 0) : Type 0 where
  pub recorded_at : ℕ
  pub odometer_m : F

pub record ReconInterval (F : Type 0) : Type 0 where
  pub start : ℕ
  pub end : ℕ
  pub odometer_delta_m : F
  pub detected_m : F
  pub coverage : Option F
  pub gap_m : F
  pub data_error : Bool

pub record ReconResult (F : Type 0) : Type 0 where
  pub intervals : List (ReconInterval F)
  pub total_odometer_delta_m : F
  pub total_detected_m : F
  pub total_coverage : Option F

-- The sort key of the readings.
unfoldable pub recorded_first : {F : Type 0} → OdometerReading F → OdometerReading F → Bool
recorded_first a b = leb a.recorded_at b.recorded_at

-- `start <= started_at < end`
unfoldable pub is_within : ℕ → ℕ → ℕ → Bool
is_within start end started_at = leb start started_at && ltb started_at end

module _ (fl : Floats) (trip_starts_dists : List (ℕ × fl.Float)) where
  open fl use {Float, of_nat, add, sub, div, le, lt, sum}

  pub detected_between : ℕ → ℕ → Float
  unfolding is_within
  detected_between start end =
      sum (map (λ t. t.1) (keep (λ (t : ℕ × Float). is_within start end t.0) trip_starts_dists))

  -- The interval between two readings that follow one another.
  pub interval_of : OdometerReading Float → OdometerReading Float → ReconInterval Float
  unfolding detected_between
  interval_of start_r end_r =
      let delta = sub end_r.odometer_m start_r.odometer_m in
      let detected = detected_between start_r.recorded_at end_r.recorded_at in
      let data_error = le delta (of_nat 0) in
      record {
        start = start_r.recorded_at;
        end = end_r.recorded_at;
        odometer_delta_m = delta;
        detected_m = detected;
        coverage = if data_error then none else some (div detected delta);
        gap_m = sub delta detected;
        data_error = data_error;
      }

  unfoldable pub intervals_of : List (OdometerReading Float) → List (ReconInterval Float)
  unfolding interval_of
  intervals_of (a ∷ b ∷ rs) = interval_of a b ∷ intervals_of (b ∷ rs)
  intervals_of _ = []

  -- The two sums over the intervals without a data error, from the ones so far.
  totals : Float → Float → List (ReconInterval Float) → Float × Float
  totals delta detected [] = (delta, detected)
  totals delta detected (i ∷ is) =
      totals (if i.data_error then delta else add delta i.odometer_delta_m)
        (if i.data_error then detected else add detected i.detected_m) is

  unfoldable pub reconcile : List (OdometerReading Float) → ReconResult Float
  unfolding intervals_of totals
  reconcile readings =
      let intervals = intervals_of (sorted recorded_first readings) in
      let (total_delta, total_detected) = totals (of_nat 0) (of_nat 0) intervals in
      record {
        intervals = intervals;
        total_odometer_delta_m = total_delta;
        total_detected_m = total_detected;
        total_coverage =
            if lt (of_nat 0) total_delta then some (div total_detected total_delta) else none;
      }
