-- ===== src/Portable/Bundle/Whole.antt =====
-- `normalize_bundle` accepts a bundle as a whole or not at all.
use odograph.Prelude.{ℕ, ◌≤◌, ◌<◌, ◌≡◌, length}
use Prim.Native.String.{String}
use odograph.Portable.Json.{Json, Fields, get}
use odograph.Portable.Platform.{Platform}
use odograph.Portable.Rows.Counts.{count_rows, items_of}
use odograph.Portable.Vehicles.{default_count}
use odograph.Portable.Bundle.{Bundle, head_issues}

-- The number of rows of a list of the bundle.
abbrev pub rows_of : {F : Type 0} → Fields F → String → ℕ
rows_of bundle name = count_rows (items_of (get bundle name))

module _ (lib : Platform) where
  open lib use {Float, Date, Decimal}

  -- All of the bundle is accepted: the head has no issue, each row of each list is in the result,
  -- and of the vehicles there is one at least, and one default at most.
  pub record IsWhole (bundle : Fields lib.Float) (b : Bundle lib.Float lib.Date lib.Decimal)
      : Type 0 where
    pub head : length (head_issues bundle) ≡ 0
    pub vehicles : length b.vehicles ≡ rows_of bundle "vehicles"
    pub some_vehicle : 0 < length b.vehicles
    pub one_default : default_count b.vehicles ≤ 1
    pub places : length b.places ≡ rows_of bundle "places"
    pub tag_rules : length b.tag_rules ≡ rows_of bundle "tag_rules"
    pub mileage_rates : length b.mileage_rates ≡ rows_of bundle "mileage_rates"
    pub trips : length b.trips ≡ rows_of bundle "trips"
    pub expenses : length b.expenses ≡ rows_of bundle "expenses"
    pub odometer_readings : length b.odometer_readings ≡ rows_of bundle "odometer_readings"
