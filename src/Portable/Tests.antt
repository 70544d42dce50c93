-- ===== src/Portable/Tests.antt =====
-- A small platform and a bundle with a vehicle, a place, a rule and a trip, and the theorems at it.
use odograph.Prelude.{ℕ, ◌≡◌, refl, ltb, leb, ◌==◌, true, false, none, some, [], ◌∷◌}
use Prim.Native.String.{count}
use odograph.Portable.Json.{
  ℤ, pos, negsuc, Json, Items, Fields, boolean, int, str, array, object, nil, cons, empty, field,
  get,
}
use odograph.Portable.Platform.{Platform, zone_found}
use odograph.Portable.Rows.{row_issue, Progress, step, row_outcome, rows_loop, each_row}
use odograph.Portable.Values.{
  strip, is_known, plain_int, plain_bool, plain_str, optional_str, choice, optional_choice,
  optional_reference, number, parse_datetime,
}
use odograph.Portable.Vehicles.{
  VehicleRow, vehicle_ids, normalize_vehicles, normalize_mileage_rates,
}
use odograph.Portable.Places.{place_ids, normalize_places, normalize_tag_rules}
use odograph.Portable.Trips.{TripRow, trip_ids, trip_row, normalize_trips}
use odograph.Portable.Trips.Accepted.{AreTrips, normalize_trips-AreTrips}
use odograph.Portable.Expenses.{normalize_expenses, normalize_odometer_readings}
use odograph.Portable.Bundle.{
  Bundle, normalized, head_issues, normalize_settings, finish, normalize_bundle,
}
use odograph.Portable.Bundle.Accepted.{IsClosed, normalize_bundle-IsClosed}

-- Numbers in place of floats, dates and decimals; a time is the length of its text.
abbrev to_nat : ℤ → ℕ
to_nat (pos n) = n
to_nat (negsuc n) = 0

abbrev platform : Platform
platform = record {
  Float = ℕ;
  float_of_int = λ i. some (to_nat i);
  literal = to_nat;
  is_finite = λ x. true;
  lt_float = ltb;
  le_float = leb;
  datetime_fromisoformat = λ s. some (count s, true);
  Date = ℕ;
  date_fromisoformat = λ s. some (count s);
  Decimal = ℕ;
  decimal = λ s. some (count s);
  is_finite_decimal = λ d. true;
  le_decimal = leb;
  eq_decimal = λ a b. a == b;
  decimal_0 = 0;
  decimal_max = 100;
  quantize = λ d. d;
  zone_info = λ s. zone_found;
}

abbrev car_json : Fields ℕ
car_json =
    field "$id" (int (pos 1)) (field "name" (str "Car") (field "is_default" (boolean true) empty))

abbrev trip_json : Fields ℕ
trip_json = field "$id" (int (pos 5)) (
    field "device" (str "phone") (
      field "source" (str "manual") (
        field "started_at" (str "ab") (
          field "ended_at" (str "abc") (
            field "distance_m" (int (pos 1200)) (
              field "category" (str "business")
                (field "vehicle" (int (pos 1)) (field "start_label" (str "Depot") empty))))))))

-- A second trip that refers to an unknown vehicle.
abbrev stray_json : Fields ℕ
stray_json = field "$id" (int (pos 6)) (
    field "device" (str "phone") (
      field "source" (str "manual") (
        field "started_at" (str "ab") (
          field "ended_at" (str "abc") (
            field "distance_m" (int (pos 1200))
              (field "category" (str "business") (field "vehicle" (int (pos 2)) empty)))))))

abbrev no_rows : Json ℕ
no_rows = array nil

abbrev trips_json : Items ℕ
trips_json = cons (object trip_json) (cons (object stray_json) nil)

abbrev bundle_json : Fields ℕ
bundle_json = field "format" (str "odograph-portable") (
    field "format_version" (int (pos 1)) (
      field "schema_version" (int (pos 30)) (
        field "vehicles" (array (cons (object car_json) nil)) (
          field "places" no_rows (
            field "tag_rules" no_rows (
              field "mileage_rates" no_rows (
                field "trips" (array (cons (object trip_json) nil)) (
                  field "expenses" no_rows (
                    field "odometer_readings" no_rows (
                      field "settings"
                        (object (field "auto_assign_default_vehicle" (boolean true) empty))
                        empty))))))))))

abbrev car : VehicleRow
car = record {
  id = pos 1;
  name = "Car";
  make = none;
  model = none;
  plate = none;
  is_default = true;
  active = true;
}

abbrev trip : TripRow ℕ
trip = record {
  id = pos 5;
  device = "phone";
  source = "manual";
  started_at = 2;
  ended_at = 3;
  distance_m = 1200;
  has_gap = false;
  category = "business";
  exclusion = none;
  purpose = none;
  notes = none;
  vehicle = some (pos 1);
  start_place = none;
  end_place = none;
  tag_source = none;
  start_label = some "Depot";
  end_label = none;
}

abbrev bundle : Bundle ℕ ℕ ℕ
bundle = record {
  format_version = int (pos 1);
  schema_version = int (pos 30);
  vehicles = car ∷ [];
  places = [];
  tag_rules = [];
  mileage_rates = [];
  trips = trip ∷ [];
  expenses = [];
  odometer_readings = [];
  settings = some (record { auto_assign_default_vehicle = true; display_tz = none });
}

bundle-normalized : normalize_bundle platform (object bundle_json) ≡ some (normalized bundle)
unfolding normalize_bundle normalize_vehicles get each_row rows_loop step row_outcome plain_int
    is_known plain_str strip optional_str plain_bool normalize_places normalize_tag_rules
    normalize_mileage_rates normalize_trips normalize_expenses normalize_odometer_readings trip_row
    number choice parse_datetime optional_choice optional_reference finish head_issues
    normalize_settings place_ids trip_ids vehicle_ids
bundle-normalized = refl

normalize_bundle-IsClosed_example : IsClosed platform bundle
normalize_bundle-IsClosed_example =
    normalize_bundle-IsClosed platform (object bundle_json) bundle bundle-normalized

abbrev progress : Progress (TripRow ℕ)
progress = record {
  out = trip ∷ [];
  issues = row_issue "trips" 1 ".vehicle references unknown vehicle $id" ∷ [];
}

trips-read :
    each_row "trips" (trip_row platform (pos 1 ∷ []) []) (array trips_json) [] ≡ some progress
unfolding each_row rows_loop step row_outcome trip_row plain_int get is_known plain_str choice
    parse_datetime number optional_choice plain_bool optional_str optional_reference strip
trips-read = refl

trips-normalized : normalize_trips platform (pos 1 ∷ []) [] (array trips_json) [] ≡ some progress
unfolding normalize_trips
trips-normalized = trips-read

normalize_trips-AreTrips_example : AreTrips platform (pos 1 ∷ []) [] progress.out
normalize_trips-AreTrips_example =
    normalize_trips-AreTrips platform (pos 1 ∷ []) [] (array trips_json) [] progress
      trips-normalized
