-- ===== src/Detector/Model.antt =====
-- The data of app/detector/core.py, over the floats of the program. An instant is the number of
-- microseconds since `datetime.min` in UTC, by which aware datetimes are compared, and a duration
-- in seconds is given in microseconds, so that comparisons of durations are exact.
use odograph.Prelude.{ℕ, Bool, List, Option}
use odograph.Floats.{Floats}
use Prim.Native.String.{String}

pub record Point (F : Type 0) : Type 0 where
  pub t : ℕ
  pub lat : F
  pub lon : F
  pub accuracy_m : Option F
  pub velocity_kmh : Option F
  pub id : Option ℕ
  pub trigger : Option String

pub record Params (F : Type 0) : Type 0 where
  pub max_accuracy_m : F
  pub max_speed_ms : F
  pub stay_radius_m : F
  pub stay_min_duration : ℕ
  pub min_trip_distance_m : F
  pub gap_flag_threshold : ℕ
  pub walk_max_speed_ms : F
  pub walk_leg_max_speed_ms : F
  pub arrival_triggers : List String
  pub arrival_min_duration : ℕ

pub record Stay (F : Type 0) : Type 0 where
  pub started_at : ℕ
  pub ended_at : ℕ
  pub lat : F
  pub lon : F
  pub first_idx : ℕ
  pub last_idx : ℕ
  pub point_count : ℕ
  pub provisional : Bool

pub record Trip (F : Type 0) : Type 0 where
  pub started_at : ℕ
  pub ended_at : ℕ
  pub start_lat : F
  pub start_lon : F
  pub end_lat : F
  pub end_lon : F
  pub distance_m : F
  pub has_gap : Bool
  pub points : List (Point F)

-- An override with the fields that its kind uses. A suppress override always has its range.
pub data Override : Type 0 where
  suppress : (range_start range_end : ℕ) → Override
  force : (point_id : Option ℕ) → Override
  discard : (range_start range_end : Option ℕ) → Override

module _ (fl : Floats) where
  open fl use {Float, of_nat, add, sub, mul, div, sin, cos, asin, sqrt, radians}

  earth_radius_m : Float
  earth_radius_m = of_nat 6371000

  -- `x ** 2`
  square : Float → Float
  square x = mul x x

  pub haversine_m : (lat1 lon1 lat2 lon2 : Float) → Float
  unfolding earth_radius_m square
  haversine_m lat1 lon1 lat2 lon2 =
      let phi1 = radians lat1 in
      let phi2 = radians lat2 in
      let dphi = radians (sub lat2 lat1) in
      let dlmb = radians (sub lon2 lon1) in
      let a =
        add (square (sin (div dphi (of_nat 2))))
          (mul (mul (cos phi1) (cos phi2)) (square (sin (div dlmb (of_nat 2))))) in
      mul (mul (of_nat 2) earth_radius_m) (asin (sqrt a))

  unfoldable pub dist : Point Float → Point Float → Float
  unfolding haversine_m
  dist a b = haversine_m a.lat a.lon b.lat b.lon
