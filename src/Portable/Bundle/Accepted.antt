-- ===== src/Portable/Bundle/Accepted.antt =====
-- What `normalize_bundle` accepts.
use odograph.Prelude.{◌≡◌, refl, Option, none, some, List, [], ◌∷◌, arith, All}
use mathlib.Core.Path.{subst}
use odograph.Portable.Json.{Json, Fields, object, get}
use odograph.Portable.Platform.{Platform}
use odograph.Portable.Rows.{Issue, Progress}
use odograph.Portable.Values.Ids.{AreDistinct}
use odograph.Portable.Vehicles.{
  VehicleRow, vehicle_ids, normalize_vehicles, MileageRate, normalize_mileage_rates,
}
use odograph.Portable.Vehicles.Accepted.{AreVehicles, normalize_vehicles-AreVehicles}
use odograph.Portable.Places.{PlaceRow, place_ids, normalize_places, TagRule, normalize_tag_rules}
use odograph.Portable.Places.Accepted.{
  normalize_places-AreDistinct, IsTagRule, normalize_tag_rules-AllTagRules,
}
use odograph.Portable.Trips.{TripRow, trip_ids, normalize_trips}
use odograph.Portable.Trips.Accepted.{AreTrips, normalize_trips-AreTrips}
use odograph.Portable.Expenses.{
  ExpenseRow, normalize_expenses, OdometerReading, normalize_odometer_readings,
}
use odograph.Portable.Expenses.Accepted.{
  IsExpense, normalize_expenses-AllExpenses, AreKnown, normalize_odometer_readings-AreKnown,
}
use odograph.Portable.Bundle.{
  Settings, Bundle, normalized, head_issues, ◌>>=◌, finish, normalize_settings, normalize_object,
  normalize_bundle,
}

some-bind :
    {A B : Type 0} (m : Option A) (f : A → Option B) (b : B)
    → (m >>= f) ≡ some b
    → (a : A) × (m ≡ some a) × (f a ≡ some b)
some-bind none f b h = absurd (ground arith)
some-bind (some a) f b h = (a, refl, h)

module _ (lib : Platform) where
  open lib use {Float, Date, Decimal}

  -- The references of a bundle resolve inside of it.
  pub record IsClosed (b : Bundle lib.Float lib.Date lib.Decimal) : Type 0 where
    pub vehicles : AreVehicles b.vehicles
    pub places : AreDistinct (place_ids b.places)
    pub tag_rules : All (IsTagRule (place_ids b.places)) b.tag_rules
    pub trips : AreTrips lib (vehicle_ids b.vehicles) (place_ids b.places) b.trips
    pub expenses : All (IsExpense lib (vehicle_ids b.vehicles) (trip_ids b.trips)) b.expenses
    pub odometer_readings : AreKnown lib (vehicle_ids b.vehicles) b.odometer_readings

  finish_normalized :
      (b b' : Bundle Float Date Decimal) (issues : List Issue)
      → some (finish lib b issues) ≡ some (normalized b')
      → (b ≡ b') × (issues ≡ [])
  unfolding finish
  finish_normalized b b' [] h = (ground arith, refl)
  finish_normalized b b' (i ∷ is) h = absurd (ground arith)

  -- The results of the seven loops and of the settings that an accepted bundle is made of.
  pub record Parts (bundle : Fields lib.Float) (b : Bundle lib.Float lib.Date lib.Decimal)
      : Type 0 where
    pub vehicles : Progress VehicleRow
    pub places : Progress (PlaceRow lib.Float)
    pub tag_rules : Progress TagRule
    pub rates : Progress (MileageRate lib.Float)
    pub trips : Progress (TripRow lib.Float)
    pub expenses : Progress (ExpenseRow lib.Date lib.Decimal)
    pub readings : Progress (OdometerReading lib.Float)
    pub settings : Option Settings × List Issue
    pub vehicles_eq :
        normalize_vehicles (get bundle "vehicles") (head_issues bundle) ≡ some vehicles
    pub places_eq : normalize_places lib (get bundle "places") vehicles.issues ≡ some places
    pub tag_rules_eq :
        normalize_tag_rules (place_ids places.out) (get bundle "tag_rules") places.issues
        ≡ some tag_rules
    pub rates_eq :
        normalize_mileage_rates lib (get bundle "mileage_rates") tag_rules.issues ≡ some rates
    pub trips_eq :
        normalize_trips lib
          (vehicle_ids vehicles.out)
          (place_ids places.out)
          (get bundle "trips")
          rates.issues
        ≡ some trips
    pub expenses_eq :
        normalize_expenses lib
          (vehicle_ids vehicles.out)
          (trip_ids trips.out)
          (get bundle "expenses")
          trips.issues
        ≡ some expenses
    pub readings_eq :
        normalize_odometer_readings lib
          (vehicle_ids vehicles.out)
          (get bundle "odometer_readings")
          expenses.issues
        ≡ some readings
    pub settings_eq :
        normalize_settings lib (get bundle "settings") readings.issues (get bundle "format_version")
        ≡ some settings
    pub bundle_eq :
        record {
          format_version = get bundle "format_version";
          schema_version = get bundle "schema_version";
          vehicles = vehicles.out;
          places = places.out;
          tag_rules = tag_rules.out;
          mileage_rates = rates.out;
          trips = trips.out;
          expenses = expenses.out;
          odometer_readings = readings.out;
          settings = settings.0;
        }
        ≡ b
    pub issues_eq : settings.1 ≡ []

  pub Parts-of :
      (bundle : Fields Float) (b : Bundle Float Date Decimal)
      → normalize_object lib bundle ≡ some (normalized b)
      → Parts bundle b
  unfolding normalize_object
  Parts-of bundle b h =
      let (vehicles, v, h1) =
        some-bind (normalize_vehicles (get bundle "vehicles") (head_issues bundle)) _ _ h in
      let (places, p, h2) =
        some-bind (normalize_places lib (get bundle "places") vehicles.issues) _ _ h1 in
      let (tag_rules, g, h3) =
        some-bind
          (normalize_tag_rules (place_ids places.out) (get bundle "tag_rules") places.issues) _ _
          h2 in
      let (rates, m, h4) =
        some-bind (normalize_mileage_rates lib (get bundle "mileage_rates") tag_rules.issues) _ _
          h3 in
      let (trips, t, h5) =
        some-bind
          (normalize_trips lib (vehicle_ids vehicles.out) (place_ids places.out)
            (get bundle "trips") rates.issues)
          _ _ h4 in
      let (expenses, e, h6) =
        some-bind
          (normalize_expenses lib (vehicle_ids vehicles.out) (trip_ids trips.out)
            (get bundle "expenses") trips.issues)
          _ _ h5 in
      let (readings, r, h7) =
        some-bind
          (normalize_odometer_readings lib (vehicle_ids vehicles.out)
            (get bundle "odometer_readings") expenses.issues)
          _ _ h6 in
      let (settings, s, h8) =
        some-bind
          (normalize_settings lib (get bundle "settings") readings.issues
            (get bundle "format_version"))
          _ _ h7 in
      let last = finish_normalized _ b settings.1 h8 in
      record {
        vehicles = vehicles;
        places = places;
        tag_rules = tag_rules;
        rates = rates;
        trips = trips;
        expenses = expenses;
        readings = readings;
        settings = settings;
        vehicles_eq = v;
        places_eq = p;
        tag_rules_eq = g;
        rates_eq = m;
        trips_eq = t;
        expenses_eq = e;
        readings_eq = r;
        settings_eq = s;
        bundle_eq = last.0;
        issues_eq = last.1;
      }

  Parts-IsClosed :
      (bundle : Fields Float) (b : Bundle Float Date Decimal) → Parts bundle b → IsClosed b
  Parts-IsClosed bundle b q = subst IsClosed q.bundle_eq (record {
    vehicles = normalize_vehicles-AreVehicles _ _ q.vehicles q.vehicles_eq;
    places = normalize_places-AreDistinct lib _ _ q.places q.places_eq;
    tag_rules =
        normalize_tag_rules-AllTagRules (place_ids q.places.out) _ _ q.tag_rules q.tag_rules_eq;
    trips =
        normalize_trips-AreTrips lib (vehicle_ids q.vehicles.out) (place_ids q.places.out) _ _
          q.trips q.trips_eq;
    expenses =
        normalize_expenses-AllExpenses lib (vehicle_ids q.vehicles.out) (trip_ids q.trips.out) _ _
          q.expenses q.expenses_eq;
    odometer_readings =
        normalize_odometer_readings-AreKnown lib (vehicle_ids q.vehicles.out) _ _ q.readings
          q.readings_eq;
  })

  -- A bundle that is accepted is closed: its vehicles, places and trips have distinct ids, every
  -- reference of a trip, a tag rule, an expense or a reading is the id of a row of the bundle, and
  -- its trips are in order.
  pub normalize_bundle-IsClosed :
      (raw : Json Float) (b : Bundle Float Date Decimal)
      → normalize_bundle lib raw ≡ some (normalized b)
      → IsClosed b
  unfolding normalize_bundle
  normalize_bundle-IsClosed (object bundle) b h = Parts-IsClosed bundle b (Parts-of bundle b h)
  normalize_bundle-IsClosed raw b h = absurd (ground arith)
