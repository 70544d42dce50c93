-- ===== src/Portable/Trips.antt =====
-- `_normalize_trips` of app/portable/normalize.py.
pub mod Accepted
use odograph.Prelude.{ℕ, ltb, Bool, true, false, not, Option, none, some, List, [], ◌∷◌, map}
use text.Mathlib.Text.{◌==◌ as str_eq}
use Prim.Native.String.{String, count, ◌++◌ as append}
use odograph.Portable.Json.{ℤ, pos, Json, Fields, boolean, get, get_default}
use odograph.Portable.Platform.{Platform}
use odograph.Portable.Places.{is_some}
use odograph.Portable.Rows.{
  Issue, Outcome, accept, refuse, raise, ◌>>=◌, ◌>>◌, refuse_if, Progress, each_row,
}
use odograph.Portable.Values.{
  strip, is_blank, is_known, plain_int, plain_bool, plain_str, optional_str, choice,
  optional_choice, optional_reference, number, parse_datetime,
}

-- The constants of app/portable/format.py.
abbrev pub trip_sources : List String
trip_sources = "detected" ∷ "manual" ∷ []

abbrev pub trip_categories : List String
trip_categories = "unclassified" ∷ "business" ∷ "personal" ∷ []

abbrev pub trip_exclusions : List String
trip_exclusions = "not_my_vehicle" ∷ "not_deductible" ∷ []

abbrev pub tag_sources : List String
tag_sources = "human" ∷ "rule" ∷ []

abbrev pub trip_label_max_length : ℕ
trip_label_max_length = 100

pub record TripRow (F : Type 0) : Type 0 where
  pub id : ℤ
  pub device : String
  pub source : String
  pub started_at : ℕ
  pub ended_at : ℕ
  pub distance_m : F
  pub has_gap : Bool
  pub category : String
  pub exclusion : Option String
  pub purpose : Option String
  pub notes : Option String
  pub vehicle : Option ℤ
  pub start_place : Option ℤ
  pub end_place : Option ℤ
  pub tag_source : Option String
  pub start_label : Option String
  pub end_label : Option String

-- The fields of a trip that are checked first.
pub record TripHead (F : Type 0) : Type 0 where
  pub id : ℤ
  pub device : String
  pub source : String
  pub started_at : ℕ
  pub ended_at : ℕ
  pub distance_m : F

unfoldable pub trip_ids : {F : Type 0} → List (TripRow F) → List ℤ
trip_ids = map (λ t. t.id)

-- The checks of a label that is set; `side` is "start" or "end".
unfoldable pub check_label : String → String → Option ℤ → String → Outcome (Option String)
check_label side source place label = do
  refuse_if (is_blank (strip label)) (append "." (append side "_label must be a non-empty string"))
  refuse_if (not (str_eq label (strip label)))
      (append "." (append side "_label must not have leading or trailing whitespace"))
  refuse_if (ltb trip_label_max_length (count label))
      (append "." (append side "_label must be 100 characters or fewer"))
  refuse_if (not (str_eq source "manual"))
      (append "." (append side "_label is only allowed when source is manual"))
  refuse_if (is_some place)
      (append " cannot set both " (append side (append "_label and " (append side "_place"))))
  accept (some label)

unfoldable pub check_optional_label :
    String → String → Option ℤ → Option String → Outcome (Option String)
unfolding check_label
check_optional_label side source place none = accept none
check_optional_label side source place (some label) = check_label side source place label

module _ (lib : Platform) (known_vehicles known_places : List ℤ) where
  open lib use {Float}

  unfoldable pub label_of : String → String → Option ℤ → Json Float → Outcome (Option String)
  unfolding check_optional_label
  label_of side source place value = do
    label ← optional_str (append "." (append side "_label must be a string or null")) value
    check_optional_label side source place label

  -- The two labels of a trip.
  unfoldable pub labels_of :
      String → Option ℤ → Option ℤ → Fields Float → Outcome (Option String × Option String)
  unfolding label_of
  labels_of source start_place end_place row = do
    start_label ← label_of "start" source start_place (get row "start_label")
    end_label ← label_of "end" source end_place (get row "end_label")
    accept (start_label, end_label)

  -- The body of the loop over the trips, down to the distance.
  unfoldable pub trip_head : List (TripRow Float) → Fields Float → Outcome (TripHead Float)
  unfolding trip_ids
  trip_head out row = do
    rid ← plain_int ".$id must be an integer" (get row "$id")
    refuse_if (is_known (trip_ids out) rid) ".$id is a duplicate"
    device ← plain_str ".device must be a non-empty string" (get row "device")
    refuse_if (is_blank device) ".device must be a non-empty string"
    source ← choice trip_sources ".source must be one of TRIP_SOURCES" (get row "source")
    started_at ←
        parse_datetime lib ".started_at must be an ISO 8601 timestamp with a UTC offset"
          (get row "started_at")
    ended_at ←
        parse_datetime lib ".ended_at must be an ISO 8601 timestamp with a UTC offset"
          (get row "ended_at")
    refuse_if (ltb ended_at started_at) ".ended_at must not be before started_at"
    distance_m ←
        number lib (some (lib.literal (pos 0))) none ".distance_m must be a non-negative number"
          (get row "distance_m")
    accept (record {
      id = rid;
      device = device;
      source = source;
      started_at = started_at;
      ended_at = ended_at;
      distance_m = distance_m;
    })

  -- The rest of it, from the category on.
  unfoldable pub trip_rest : Fields Float → TripHead Float → Outcome (TripRow Float)
  unfolding labels_of
  trip_rest row head = do
    category ←
        choice trip_categories ".category must be one of TRIP_CATEGORIES" (get row "category")
    exclusion ←
        optional_choice trip_exclusions ".exclusion must be one of TRIP_EXCLUSIONS or null"
          (get row "exclusion")
    tag_source ←
        optional_choice tag_sources ".tag_source must be one of TAG_SOURCES or null"
          (get row "tag_source")
    has_gap ← plain_bool ".has_gap must be a boolean" (get_default row "has_gap" (boolean false))
    purpose ← optional_str ".purpose must be a string or null" (get row "purpose")
    notes ← optional_str ".notes must be a string or null" (get row "notes")
    vehicle ←
        optional_reference known_vehicles ".vehicle references unknown vehicle $id"
          (get row "vehicle")
    start_place ←
        optional_reference known_places ".start_place references unknown place $id"
          (get row "start_place")
    end_place ←
        optional_reference known_places ".end_place references unknown place $id"
          (get row "end_place")
    labels ← labels_of head.source start_place end_place row
    accept (record {
      id = head.id;
      device = head.device;
      source = head.source;
      started_at = head.started_at;
      ended_at = head.ended_at;
      distance_m = head.distance_m;
      has_gap = has_gap;
      category = category;
      exclusion = exclusion;
      purpose = purpose;
      notes = notes;
      vehicle = vehicle;
      start_place = start_place;
      end_place = end_place;
      tag_source = tag_source;
      start_label = labels.0;
      end_label = labels.1;
    })

  unfoldable pub trip_row : List (TripRow Float) → Fields Float → Outcome (TripRow Float)
  unfolding trip_head trip_rest
  trip_row out row = do head ← trip_head out row; trip_rest row head

  unfoldable pub normalize_trips : Json Float → List Issue → Option (Progress (TripRow Float))
  unfolding trip_row
  normalize_trips raw issues = each_row "trips" trip_row raw issues
