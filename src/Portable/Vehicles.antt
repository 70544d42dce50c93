-- ===== src/Portable/Vehicles.antt =====
-- `_normalize_vehicles` and `_normalize_mileage_rates` of app/portable/normalize.py.
pub mod Accepted
use odograph.Prelude.{
  ℕ, ltb, leb, ◌==◌, Bool, true, false, not, ◌&&◌, ◌||◌, Option, none, some, List, [], ◌∷◌, ◌++◌,
  map, any, keep, length, if◌then◌else◌,
}
use Prim.Native.String.{String}
use odograph.Portable.Json.{
  ℤ, pos, negsuc, eq_int, Json, Items, Fields, nil, null, boolean, int, array, get, get_default,
  is_none,
}
use odograph.Portable.Platform.{Platform}
use odograph.Portable.Rows.{
  Issue, bundle_issue, Outcome, accept, refuse, raise, ◌>>=◌, ◌>>◌, refuse_if, Progress, each_row,
}
use odograph.Portable.Values.{
  strip, is_blank, is_known, plain_int, plain_bool, plain_str, optional_str, positive,
}

pub record VehicleRow : Type 0 where
  pub id : ℤ
  pub name : String
  pub make : Option String
  pub model : Option String
  pub plate : Option String
  pub is_default : Bool
  pub active : Bool

-- The ids of the accepted vehicles: `seen_ids`.
unfoldable pub vehicle_ids : List VehicleRow → List ℤ
vehicle_ids = map (λ v. v.id)

unfoldable pub default_count : List VehicleRow → ℕ
default_count vs = length (keep (λ v. v.is_default) vs)

-- The check for two default vehicles, behind the loop.
unfoldable pub check_defaults : Progress VehicleRow → Progress VehicleRow
unfolding default_count
check_defaults p =
    if ltb 1 (default_count p.out)
    then record p {
      issues =
          p.issues ++ bundle_issue "vehicles: at most one vehicle may have is_default true" ∷ [];
    }
    else p

module _ {F : Type 0} where
  -- The body of the loop over the vehicles.
  unfoldable pub vehicle_row : List VehicleRow → Fields F → Outcome VehicleRow
  unfolding vehicle_ids
  vehicle_row out row = do
    rid ← plain_int ".$id must be an integer" (get row "$id")
    refuse_if (is_known (vehicle_ids out) rid) ".$id is a duplicate"
    name ← plain_str ".name must be a non-empty string" (get row "name")
    refuse_if (is_blank (strip name)) ".name must be a non-empty string"
    make ← optional_str ".make must be a string or null" (get row "make")
    model ← optional_str ".model must be a string or null" (get row "model")
    plate ← optional_str ".plate must be a string or null" (get row "plate")
    is_default ←
        plain_bool ".is_default must be a boolean" (get_default row "is_default" (boolean false))
    active ← plain_bool ".active must be a boolean" (get_default row "active" (boolean true))
    accept (record {
      id = rid;
      name = name;
      make = make;
      model = model;
      plate = plate;
      is_default = is_default;
      active = active;
    })

  unfoldable pub normalize_vehicles : Json F → List Issue → Option (Progress VehicleRow)
  unfolding vehicle_row check_defaults
  normalize_vehicles (array nil) issues = some (record {
    out = [];
    issues = issues ++ bundle_issue "vehicles must contain at least one vehicle" ∷ [];
  })
  normalize_vehicles raw issues = elim (each_row "vehicles" vehicle_row raw issues) [
    | none ↦ none
    | some p ↦ some (check_defaults p)
  ]

pub record MileageRate (F : Type 0) : Type 0 where
  pub year : ℤ
  pub rate_per_mi : F
  pub rate_h2_per_mi : Option F
  pub h2_start_month : Option ℤ

-- `1 <= month <= 12`
unfoldable pub is_month : ℤ → Bool
is_month (pos n) = leb 1 n && leb n 12
is_month (negsuc n) = false

module _ (lib : Platform) where
  open lib use {Float}

  -- The two fields that are set together; the rate is parsed first.
  unfoldable pub h2_rate : Json Float → Outcome (Option Float)
  h2_rate raw = if is_none raw then accept none else do
    rate ← positive lib ".rate_h2_per_mi must be a positive number" raw
    accept (some rate)

  unfoldable pub h2_month : Json Float → Outcome (Option ℤ)
  unfolding is_month
  h2_month raw = if is_none raw then accept none else do
    month ← plain_int ".h2_start_month must be between 1 and 12" raw
    refuse_if (not (is_month month)) ".h2_start_month must be between 1 and 12"
    accept (some month)

  -- The body of the loop over the mileage rates.
  unfoldable pub mileage_row : List (MileageRate Float) → Fields Float → Outcome (MileageRate Float)
  unfolding h2_rate h2_month
  mileage_row out row = do
    year ← plain_int ".year must be an integer" (get row "year")
    refuse_if (is_known (map (λ r. r.year) out) year) ".year is a duplicate"
    rate ← positive lib ".rate_per_mi must be a positive number" (get row "rate_per_mi")
    let raw_h2_rate = get row "rate_h2_per_mi"
    let month = get row "h2_start_month"
    refuse_if
        ((is_none raw_h2_rate && not (is_none month))
          || (not (is_none raw_h2_rate) && is_none month))
        ": rate_h2_per_mi and h2_start_month must be set together"
    h2 ← h2_rate raw_h2_rate
    from ← h2_month month
    accept (record { year = year; rate_per_mi = rate; rate_h2_per_mi = h2; h2_start_month = from })

  unfoldable pub normalize_mileage_rates :
      Json Float → List Issue → Option (Progress (MileageRate Float))
  unfolding mileage_row
  normalize_mileage_rates raw issues = each_row "mileage_rates" mileage_row raw issues
