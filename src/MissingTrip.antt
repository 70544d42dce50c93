-- ===== src/MissingTrip.antt =====
-- app/missing_trip.py, with `describe_endpoint` of app/places_desc.py: the badge that a trip may
-- be missing in front of one. Formatting of coordinates and dates, and `urlencode`, are
-- parameters; an instant is a number of microseconds.
pub mod Shown
mod Tests
use odograph.Prelude.{
  ℕ, zero, suc, ◌+◌, ◌-◌, ◌*◌, ◌/◌, ◌%◌, ◌^◌, ◌≤◌, ◌<◌, min, max, ◌≡◌, refl, sym, ap, ◌∙◌, ◌≢◌, ◌↔◌,
  ◌⊎◌, inl, inr, Bool, true, false, ◌&&◌, ◌||◌, not, Option, none, some, List, [], ◌∷◌, ◌++◌, map,
  arith, ltb, leb, ◌==◌, if◌then◌else◌, ltb→lt, lt→ltb, leb→le, ==_iff, tests, Bool-cases,
  Option-cases, length, get_elem?, get_or, any, all, keep, elem, All, All-append, All-imp,
  length-append, any-append, All-keep, keep-passes, sorted, IsSorted, IsOrder, any-sorted,
  All-sorted, sorted-perm, sorted-IsSorted,
}
use Prim.Native.String.{String, [] as no_text, ◌∷◌ as char_cons, ◌++◌ as append}
use odograph.Floats.{Floats}

-- The library functions that the link is made with.
pub record Links (F : Type 0) : Type 0 where
  -- `f"{x:.4f}"`
  pub rounded : F → String
  -- `strftime` of the instant in the account's time zone, as `%Y-%m-%d` and as `%H:%M`.
  pub local_date : ℕ → String
  pub local_time : ℕ → String
  pub str_of : ℕ → String
  pub urlencode : List (String × String) → String

-- A value that `if` takes for true, of a string or none.
abbrev pub given : Option String → Option String
given none = none
given (some no_text) = none
given (some (char_cons c s)) = some (char_cons c s)

module _ {F : Type 0} (links : Links F) where
  abbrev coordinates : Option F → Option F → String
  coordinates (some lat) (some lon) = append (links.rounded lat) (append "," (links.rounded lon))
  coordinates _ _ = "--"

  unfoldable pub describe_endpoint : Option String → Option F → Option F → Option String → String
  describe_endpoint name lat lon address = elim (given name) [
    | some n ↦ n
    | none ↦ elim (given address) [ some a ↦ a | none ↦ coordinates lat lon ]
  ]

-- What the badge reads of a trip.
pub record TripGap (F : Type 0) : Type 0 where
  pub id : Option ℕ
  pub prev_end_gap_m : Option F
  pub prev_trip_ended_at : Option ℕ
  pub missing_trip_covered : Bool
  pub other_device_end_gap_m : Option F
  pub prev_trip_end_place_name : Option String
  pub prev_trip_end_lat : Option F
  pub prev_trip_end_lon : Option F
  pub start_place_name : Option String
  pub start_lat : Option F
  pub start_lon : Option F
  pub start_address : Option String

pub record MissingTripBadge (F : Type 0) : Type 0 where
  pub gap_m : F
  pub prefill_url : String

module _ (fl : Floats) (links : Links fl.Float) where
  open fl use {Float, of_nat, le}

  abbrev bridge_trip : Option ℕ → List (String × String)
  bridge_trip none = []
  bridge_trip (some id) = ("bridge_trip", links.str_of id) ∷ []

  unfoldable pub prefill_link : TripGap Float → ℕ → String
  unfolding describe_endpoint
  prefill_link trip prev_ended_at =
      let prev_end_label =
        describe_endpoint links trip.prev_trip_end_place_name trip.prev_trip_end_lat
          trip.prev_trip_end_lon none in
      let this_start_label =
        describe_endpoint links trip.start_place_name trip.start_lat trip.start_lon
          trip.start_address in
      append "/trips/manual?" (
        links.urlencode (
          ("manual_date", links.local_date prev_ended_at)
          ∷ ("manual_start", links.local_time prev_ended_at)
          ∷ (
            "manual_notes",
            append "bridge: " (append prev_end_label (append " → " this_start_label)),
          )
          ∷ bridge_trip trip.id))

  -- Whether a trip of another device ended within the threshold.
  abbrev pub bridged : Float → Option Float → Bool
  bridged threshold_m none = false
  bridged threshold_m (some other_gap_m) = le other_gap_m threshold_m

  abbrev badge_of :
      TripGap Float → Float → Option Float → Option ℕ → Option (MissingTripBadge Float)
  unfolding prefill_link
  badge_of trip threshold_m (some gap_m) (some prev_ended_at) =
      if le gap_m threshold_m
        || trip.missing_trip_covered
        || bridged threshold_m trip.other_device_end_gap_m
      then none
      else some (record { gap_m = gap_m; prefill_url = prefill_link trip prev_ended_at })
  badge_of trip threshold_m _ _ = none

  unfoldable pub missing_trip_badge : TripGap Float → Float → Option (MissingTripBadge Float)
  unfolding prefill_link
  missing_trip_badge trip threshold_m =
      if le threshold_m (of_nat 0)
      then none
      else badge_of trip threshold_m trip.prev_end_gap_m trip.prev_trip_ended_at
