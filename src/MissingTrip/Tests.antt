-- ===== src/MissingTrip/Tests.antt =====
-- A gap of 900 at a threshold of 500, alone, and bridged by a trip of another device.
use odograph.Prelude.{
  ℕ, ◌+◌, ◌-◌, ◌*◌, ◌/◌, ◌≡◌, refl, false, Option, none, some, List, [], ◌∷◌, ltb, leb,
}
use odograph.Floats.{Floats}
use odograph.MissingTrip.{Links, TripGap, describe_endpoint, prefill_link, missing_trip_badge}

abbrev sum_up : List ℕ → ℕ
sum_up [] = 0
sum_up (x ∷ xs) = x + sum_up xs

abbrev metres : Floats
metres = record {
  Float = ℕ;
  of_nat = λ n. n;
  add = λ a b. a + b;
  sub = λ a b. a - b;
  mul = λ a b. a * b;
  div = λ a b. a / b;
  le = leb;
  lt = ltb;
  sum = sum_up;
  sin = λ x. x;
  cos = λ x. x;
  asin = λ x. x;
  sqrt = λ x. x;
  radians = λ x. x;
  seconds = λ a b. b - a;
}

abbrev links : Links ℕ
links = record {
  rounded = λ x. "0.0000";
  local_date = λ t. "2024-05-01";
  local_time = λ t. "08:30";
  str_of = λ n. "7";
  urlencode = λ fields. "fields";
}

abbrev trip : Option ℕ → TripGap ℕ
trip other = record {
  id = some 7;
  prev_end_gap_m = some 900;
  prev_trip_ended_at = some 50;
  missing_trip_covered = false;
  other_device_end_gap_m = other;
  prev_trip_end_place_name = some "";
  prev_trip_end_lat = some 1;
  prev_trip_end_lon = none;
  start_place_name = some "Home";
  start_lat = none;
  start_lon = none;
  start_address = none;
}

shown_test :
    missing_trip_badge metres links (trip none) 500
    ≡ some (record { gap_m = 900; prefill_url = "/trips/manual?fields" })
unfolding missing_trip_badge prefill_link
shown_test = refl

bridged_test : missing_trip_badge metres links (trip (some 400)) 500 ≡ none
unfolding missing_trip_badge
bridged_test = refl

disabled_test : missing_trip_badge metres links (trip none) 0 ≡ none
unfolding missing_trip_badge
disabled_test = refl

unnamed_test : describe_endpoint links (some "") (some 1) none none ≡ "--"
unfolding describe_endpoint
unnamed_test = refl
