-- ===== src/Detector/Tests/Sample.antt =====
-- Natural numbers in place of the floats, and a track: parked, a drive, and parked again.
use odograph.Prelude.{ℕ, ◌+◌, ◌-◌, ◌*◌, ◌/◌, min, max, none, some, List, [], ◌∷◌, ltb, leb, get_or}
use odograph.Floats.{Floats}
use odograph.Detector.Model.{Point, Params}

abbrev sum_up : List ℕ → ℕ
sum_up [] = 0
sum_up (x ∷ xs) = x + sum_up xs

-- A unit of latitude is a unit of distance for small steps; the trigonometry is linear.
abbrev pub grid : Floats
grid = record {
  Float = ℕ;
  of_nat = λ n. n;
  add = λ a b. a + b;
  sub = λ a b. max a b - min a b;
  mul = λ a b. a * b;
  div = λ a b. a / b;
  le = leb;
  lt = ltb;
  sum = sum_up;
  sin = λ x. x;
  cos = λ x. 1;
  asin = λ x. x;
  sqrt = λ x. x;
  radians = λ x. x;
  seconds = λ a b. (b - a) / 1000000;
}

-- A point at a second and a latitude.
abbrev pub point : ℕ → ℕ → ℕ → Point ℕ
point id second lat = record {
  t = second * 1000000;
  lat = lat;
  lon = 0;
  accuracy_m = some 5;
  velocity_kmh = none;
  id = some id;
  trigger = some "c";
}

abbrev pub params : Params ℕ
params = record {
  max_accuracy_m = 100;
  max_speed_ms = 1000000000;
  stay_radius_m = 150;
  stay_min_duration = 300000000;
  min_trip_distance_m = 300;
  gap_flag_threshold = 600000000;
  walk_max_speed_ms = 1000;
  walk_leg_max_speed_ms = 2000;
  arrival_triggers = "c" ∷ "v" ∷ [];
  arrival_min_duration = 60000000;
}

abbrev pub track : List (Point ℕ)
track = point 1 0 0 ∷ point 2 400 0 ∷ point 3 460 2 ∷ point 4 520 4 ∷ point 5 920 4 ∷ []

-- The same track with an arrival at its end in place of a stay.
abbrev pub arriving : List (Point ℕ)
arriving = point 1 0 0 ∷ point 2 400 0 ∷ point 3 460 2 ∷ point 4 520 4 ∷ point 5 620 4 ∷ []

abbrev pub shuffled : List (Point ℕ)
shuffled = point 2 400 0 ∷ point 1 0 0 ∷ point 3 460 2 ∷ point 4 520 4 ∷ point 5 920 4 ∷ []

abbrev pub at : ℕ → Point ℕ
at i = get_or track i (point 1 0 0)

abbrev pub at_arriving : ℕ → Point ℕ
at_arriving i = get_or arriving i (point 1 0 0)
