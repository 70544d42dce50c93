-- ===== src/Portable/Bundle.antt =====
-- `_normalize_settings` and `normalize_bundle` of app/portable/normalize.py.
pub mod Accepted
pub mod Whole
use odograph.Prelude.{
  ℕ, ltb, leb, ◌==◌, ◌&&◌, ◌||◌, Bool, true, false, not, Option, none, some, List, [], ◌∷◌, ◌++◌,
  any, if◌then◌else◌,
}
use text.Mathlib.Text.{◌==◌ as str_eq}
use Prim.Native.String.{String, count}
use odograph.Portable.Json.{
  ℤ, pos, negsuc, eq_int, Json, Fields, null, boolean, int, real, str, object, get, is_one_of,
}
use odograph.Portable.Platform.{Platform, zone_found, zone_refused, zone_failed}
use odograph.Portable.Rows.{Issue, bundle_issue, Progress}
use odograph.Portable.Vehicles.{
  VehicleRow, vehicle_ids, normalize_vehicles, MileageRate, normalize_mileage_rates,
}
use odograph.Portable.Places.{PlaceRow, place_ids, normalize_places, TagRule, normalize_tag_rules}
use odograph.Portable.Trips.{TripRow, trip_ids, normalize_trips}
use odograph.Portable.Expenses.{
  ExpenseRow, normalize_expenses, OdometerReading, normalize_odometer_readings,
}

pub record Settings : Type 0 where
  pub auto_assign_default_vehicle : Bool
  pub display_tz : Option String

-- `settings` is `none` where the source has an empty dict.
pub record Bundle (F Date Decimal : Type 0) : Type 0 where
  pub format_version : Json F
  pub schema_version : Json F
  pub vehicles : List VehicleRow
  pub places : List (PlaceRow F)
  pub tag_rules : List TagRule
  pub mileage_rates : List (MileageRate F)
  pub trips : List (TripRow F)
  pub expenses : List (ExpenseRow Date Decimal)
  pub odometer_readings : List (OdometerReading F)
  pub settings : Option Settings

-- `(bundle, [])` or `(None, issues)`.
pub data Normalized (F Date Decimal : Type 0) : Type 0 where
  normalized : Bundle F Date Decimal → Normalized F Date Decimal
  rejected : List Issue → Normalized F Date Decimal

infixl 5 ◌>>=◌
abbrev pub ◌>>=◌ : {A B : Type 0} → Option A → (A → Option B) → Option B
none >>= f = none
some a >>= f = f a

-- An issue that is recorded when a check fails.
unfoldable pub issue_if : Bool → String → List Issue → List Issue
issue_if failed text issues = if failed then issues ++ bundle_issue text ∷ [] else issues

module _ {F : Type 0} where
  -- `not isinstance(v, int) or isinstance(v, bool) or v not in SUPPORTED_FORMAT_VERSIONS`
  unfoldable pub is_unsupported : Json F → Bool
  unfolding eq_int
  is_unsupported (int v) = not (any (eq_int v) (pos 1 ∷ pos 2 ∷ pos 3 ∷ []))
  is_unsupported _ = true

  unfoldable pub is_not_int : Json F → Bool
  is_not_int (int v) = false
  is_not_int _ = true

  -- The three checks of the bundle's head.
  unfoldable pub head_issues : Fields F → List Issue
  unfolding issue_if is_unsupported is_not_int is_one_of
  head_issues bundle =
      issue_if (is_not_int (get bundle "schema_version")) "schema_version must be an integer" (
        issue_if (is_unsupported (get bundle "format_version"))
          "format_version must be one of SUPPORTED_FORMAT_VERSIONS"
          (issue_if (not (is_one_of ("odograph-portable" ∷ []) (get bundle "format")))
            "format must be FORMAT" []))

module _ (lib : Platform) where
  open lib use {Float, Date, Decimal}

  -- `format_version == 3`, which the float 3.0 passes too.
  unfoldable pub is_version_3 : Json Float → Bool
  unfolding eq_int
  is_version_3 (int v) = eq_int v (pos 3)
  is_version_3 (real x) =
      lib.le_float x (lib.literal (pos 3)) && lib.le_float (lib.literal (pos 3)) x
  is_version_3 _ = false

  -- The issue of the time zone; `none` is an exception that is not caught.
  unfoldable pub zone_issues : Json Float → List Issue → Option (List Issue)
  unfolding issue_if
  zone_issues (str key) issues =
      if ltb 128 (count key)
      then some (issue_if true "settings.display_tz must be an IANA timezone" issues)
      else elim (lib.zone_info key) [
        | zone_found ↦ some issues
        | zone_refused ↦ some (issue_if true "settings.display_tz must be an IANA timezone" issues)
        | zone_failed ↦ none
      ]
  zone_issues _ issues = some (issue_if true "settings.display_tz must be an IANA timezone" issues)

  unfoldable pub text_of : Json Float → Option String
  text_of (str s) = some s
  text_of _ = none

  -- The settings behind the check of `auto_assign_default_vehicle`. Where an issue is recorded,
  -- a time zone that is no string is `none` here; the settings are then dropped.
  unfoldable pub normalize_zone :
      Fields Float → Bool → List Issue → Json Float → Option (Option Settings × List Issue)
  unfolding is_version_3 zone_issues text_of
  normalize_zone raw value issues format_version =
      let zone = get raw "display_tz" in
      if is_version_3 format_version
      then elim (zone_issues zone issues) [
        | none ↦ none
        | some found ↦ some (
          some (record { auto_assign_default_vehicle = value; display_tz = text_of zone }),
          found,
        )
      ]
      else some (some (record { auto_assign_default_vehicle = value; display_tz = none }), issues)

  unfoldable pub normalize_auto_assign :
      Fields Float → Json Float → List Issue → Json Float → Option (Option Settings × List Issue)
  unfolding normalize_zone
  normalize_auto_assign raw (boolean value) issues format_version =
      normalize_zone raw value issues format_version
  normalize_auto_assign raw _ issues format_version =
      some (none, issue_if true "settings.auto_assign_default_vehicle must be a boolean" issues)

  unfoldable pub normalize_settings :
      Json Float → List Issue → Json Float → Option (Option Settings × List Issue)
  unfolding normalize_auto_assign
  normalize_settings (object raw) issues format_version =
      normalize_auto_assign raw (get raw "auto_assign_default_vehicle") issues format_version
  normalize_settings _ issues format_version =
      some (none, issue_if true "settings must be an object" issues)

  -- `if issues: return None, issues`
  unfoldable pub finish : Bundle Float Date Decimal → List Issue → Normalized Float Date Decimal
  finish bundle [] = normalized bundle
  finish bundle (i ∷ is) = rejected (i ∷ is)

  -- `normalize_bundle` for an object; `none` is an exception.
  unfoldable pub normalize_object : Fields Float → Option (Normalized Float Date Decimal)
  unfolding head_issues finish normalize_settings
  normalize_object bundle = do
    vehicles ← normalize_vehicles (get bundle "vehicles") (head_issues bundle)
    let known_vehicles = vehicle_ids vehicles.out
    places ← normalize_places lib (get bundle "places") vehicles.issues
    let known_places = place_ids places.out
    tag_rules ← normalize_tag_rules known_places (get bundle "tag_rules") places.issues
    mileage_rates ← normalize_mileage_rates lib (get bundle "mileage_rates") tag_rules.issues
    trips ←
        normalize_trips lib known_vehicles known_places (get bundle "trips") mileage_rates.issues
    expenses ←
        normalize_expenses lib known_vehicles (trip_ids trips.out) (get bundle "expenses")
          trips.issues
    readings ←
        normalize_odometer_readings lib known_vehicles (get bundle "odometer_readings")
          expenses.issues
    settings ←
        normalize_settings (get bundle "settings") readings.issues (get bundle "format_version")
    let result : Bundle Float Date Decimal = record {
      format_version = get bundle "format_version";
      schema_version = get bundle "schema_version";
      vehicles = vehicles.out;
      places = places.out;
      tag_rules = tag_rules.out;
      mileage_rates = mileage_rates.out;
      trips = trips.out;
      expenses = expenses.out;
      odometer_readings = readings.out;
      settings = settings.0;
    }
    some (finish result settings.1)

  unfoldable pub normalize_bundle : Json Float → Option (Normalized Float Date Decimal)
  unfolding normalize_object
  normalize_bundle (object bundle) = normalize_object bundle
  normalize_bundle _ = some (rejected (bundle_issue "bundle must be a JSON object" ∷ []))
