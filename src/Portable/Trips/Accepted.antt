-- ===== src/Portable/Trips/Accepted.antt =====
-- What the accepted trips satisfy.
use odograph.Prelude.{
  ◌≤◌, ◌≡◌, refl, ap, true, false, Option, none, some, List, [], ◌∷◌, ◌++◌, arith, All, All-append,
}
use text.Mathlib.Text.{◌==◌ as str_eq}
use Prim.Native.String.{String, count}
use odograph.Portable.Json.{ℤ, pos, Json, Fields, null, str, get}
use odograph.Portable.Platform.{Platform}
use odograph.Portable.Rows.{Issue, accept, accept-bind, Progress}
use odograph.Portable.Rows.Counts.{each_row-Inv}
use odograph.Portable.Values.{
  strip, is_blank, is_known, below, optional_reference, number, optional_str,
}
use odograph.Portable.Values.Ids.{AreDistinct, AreDistinct-append, Resolves}
use odograph.Portable.Values.Accepted.{optional_reference-Resolves, number-finite}
use odograph.Portable.Trips.{
  TripRow, TripHead, trip_ids, trip_head, trip_rest, trip_row, check_label, check_optional_label,
  label_of, labels_of, normalize_trips, trip_label_max_length,
}

-- A label that is set is trimmed and not blank, is not too long, names an end of a manual trip,
-- and stands where no place is set.
pub record IsLabel (source : String) (place : Option ℤ) (label : String) : Type 0 where
  pub nonblank : is_blank (strip label) ≡ false
  pub trimmed : str_eq label (strip label) ≡ true
  pub short : count label ≤ trip_label_max_length
  pub manual : str_eq source "manual" ≡ true
  pub no_place : place ≡ none

abbrev pub IsOptionalLabel : String → Option ℤ → Option String → Type 0
IsOptionalLabel source place none = Unit
IsOptionalLabel source place (some label) = IsLabel source place label

check_label-IsLabel :
    (side source : String) (place : Option ℤ) (label : String) (kept : Option String)
    → check_label side source place label ≡ accept kept
    → IsOptionalLabel source place kept
unfolding check_label
check_label-IsLabel side source place label none h = tt
check_label-IsLabel side source none label (some kept) h = record {
  nonblank = ground arith;
  trimmed = ground arith;
  short = ground arith;
  manual = ground arith;
  no_place = refl;
}
check_label-IsLabel side source (some p) label (some kept) h = absurd (ground arith)

check_optional_label-IsOptionalLabel :
    (side source : String) (place : Option ℤ) (label kept : Option String)
    → check_optional_label side source place label ≡ accept kept
    → IsOptionalLabel source place kept
unfolding check_optional_label
check_optional_label-IsOptionalLabel side source place none none h = tt
check_optional_label-IsOptionalLabel side source place none (some k) h = absurd (ground arith)
check_optional_label-IsOptionalLabel side source place (some label) kept h =
    check_label-IsLabel side source place label kept h

module _ (lib : Platform) (known_vehicles known_places : List ℤ) where
  open lib use {Float}

  -- A trip does not end before it starts, is finitely long and not of negative length, its
  -- references resolve, and its labels are in order.
  pub record IsTrip (t : TripRow lib.Float) : Type 0 where
    pub forward : t.started_at ≤ t.ended_at
    pub distance :
        (lib.is_finite t.distance_m ≡ true)
        × (lib.lt_float t.distance_m (lib.literal (pos 0)) ≡ false)
    pub vehicle : Resolves known_vehicles t.vehicle
    pub start_place : Resolves known_places t.start_place
    pub end_place : Resolves known_places t.end_place
    pub start_label : IsOptionalLabel t.source t.start_place t.start_label
    pub end_label : IsOptionalLabel t.source t.end_place t.end_label

  trip_head-accept :
      (out : List (TripRow Float)) (row : Fields Float) (head : TripHead Float)
      → trip_head lib known_vehicles known_places out row ≡ accept head
      → (is_known (trip_ids out) head.id ≡ false)
        × (head.started_at ≤ head.ended_at)
        × (number lib
              (some (lib.literal (pos 0)))
              none
              ".distance_m must be a non-negative number"
              (get row "distance_m")
            ≡ accept head.distance_m)
  unfolding trip_head
  trip_head-accept out row head h = ground arith

  trip_rest_keeps :
      (row : Fields Float) (head : TripHead Float) (t : TripRow Float)
      → trip_rest lib known_vehicles known_places row head ≡ accept t
      → (t.id ≡ head.id)
        × (t.source ≡ head.source)
        × (t.started_at ≡ head.started_at)
        × (t.ended_at ≡ head.ended_at)
        × (t.distance_m ≡ head.distance_m)
  unfolding trip_rest
  trip_rest_keeps row head t h = ground arith

  trip_rest_references :
      (row : Fields Float) (head : TripHead Float) (t : TripRow Float)
      → trip_rest lib known_vehicles known_places row head ≡ accept t
      → (optional_reference known_vehicles ".vehicle references unknown vehicle $id"
            (get row "vehicle")
          ≡ accept t.vehicle)
        × (optional_reference known_places ".start_place references unknown place $id"
              (get row "start_place")
            ≡ accept t.start_place)
        × (optional_reference known_places ".end_place references unknown place $id"
              (get row "end_place")
            ≡ accept t.end_place)
  unfolding trip_rest
  trip_rest_references row head t h = ground arith

  trip_rest_labels :
      (row : Fields Float) (head : TripHead Float) (t : TripRow Float)
      → trip_rest lib known_vehicles known_places row head ≡ accept t
      → labels_of lib known_vehicles known_places head.source t.start_place t.end_place row
        ≡ accept (t.start_label, t.end_label)
  unfolding trip_rest
  trip_rest_labels row head t h = ground arith

  both_labels :
      (source : String) (start_place end_place : Option ℤ) (row : Fields Float)
      (start_label end_label : Option String)
      → labels_of lib known_vehicles known_places source start_place end_place row
        ≡ accept (start_label, end_label)
      → (label_of lib known_vehicles known_places "start" source start_place (get row "start_label")
          ≡ accept start_label)
        × (label_of lib known_vehicles known_places "end" source end_place (get row "end_label")
            ≡ accept end_label)
  unfolding labels_of
  both_labels source start_place end_place row start_label end_label h = ground arith

  label_of-IsOptionalLabel :
      (side source : String) (place : Option ℤ) (value : Json Float) (kept : Option String)
      → label_of lib known_vehicles known_places side source place value ≡ accept kept
      → IsOptionalLabel source place kept
  unfolding label_of optional_str
  label_of-IsOptionalLabel side source place null kept h =
      check_optional_label-IsOptionalLabel side source place none kept h
  label_of-IsOptionalLabel side source place (str s) kept h =
      check_optional_label-IsOptionalLabel side source place (some s) kept h
  label_of-IsOptionalLabel side source place value kept h = absurd (ground arith)

  trip_row-IsTrip :
      (out : List (TripRow Float)) (row : Fields Float) (t : TripRow Float)
      → trip_row lib known_vehicles known_places out row ≡ accept t
      → (is_known (trip_ids out) t.id ≡ false) × IsTrip t
  unfolding trip_row below
  trip_row-IsTrip out row t h =
      let (head, first, rest) =
        accept-bind (trip_head lib known_vehicles known_places out row)
          (trip_rest lib known_vehicles known_places row) t h in
      let (fresh, forward, distance) = trip_head-accept out row head first in
      let (id, source, started, ended, size) = trip_rest_keeps row head t rest in
      let finite =
        number-finite lib (some (lib.literal (pos 0))) none _ _ head.distance_m distance in
      let labels =
        both_labels head.source t.start_place t.end_place row t.start_label t.end_label
          (trip_rest_labels row head t rest) in
      let references = trip_rest_references row head t rest in
      (
        rw id fresh,
        record {
          forward = omega (arith, started, ended, forward);
          distance = rw size finite;
          vehicle = optional_reference-Resolves known_vehicles _ _ t.vehicle references.0;
          start_place = optional_reference-Resolves known_places _ _ t.start_place references.1;
          end_place = optional_reference-Resolves known_places _ _ t.end_place references.2;
          start_label =
              rw source (
                label_of-IsOptionalLabel "start" head.source t.start_place _ t.start_label
                  labels.0);
          end_label =
              rw source
                (label_of-IsOptionalLabel "end" head.source t.end_place _ t.end_label labels.1);
        },
      )

  -- The trips have distinct ids, and each of them is in order.
  pub record AreTrips (out : List (TripRow lib.Float)) : Type 0 where
    pub distinct : AreDistinct (trip_ids out)
    pub each : All IsTrip out

  ids-append :
      (xs : List (TripRow Float)) (t : TripRow Float)
      → trip_ids (xs ++ t ∷ []) ≡ trip_ids xs ++ t.id ∷ []
  unfolding trip_ids
  ids-append [] t = refl
  ids-append (x ∷ xs) t = ap (◌∷◌ x.id) (ids-append xs t)

  AreTrips-append :
      (out : List (TripRow Float)) (row : Fields Float) (t : TripRow Float)
      → trip_row lib known_vehicles known_places out row ≡ accept t
      → AreTrips out
      → AreTrips (out ++ t ∷ [])
  AreTrips-append out row t h a = record {
    distinct =
        rw ids-append
          (AreDistinct-append (trip_ids out) t.id a.distinct (trip_row-IsTrip out row t h).0);
    each = All-append IsTrip out (t ∷ []) a.each ((trip_row-IsTrip out row t h).1, tt);
  }

  -- The accepted trips have distinct ids, do not end before they start, are not of negative
  -- length, refer to known vehicles and places only, and have labels only where they may.
  pub normalize_trips-AreTrips :
      (raw : Json Float) (issues : List Issue) (p : Progress (TripRow Float))
      → normalize_trips lib known_vehicles known_places raw issues ≡ some p
      → AreTrips p.out
  unfolding normalize_trips trip_ids
  normalize_trips-AreTrips raw issues p h =
      each_row-Inv "trips" (trip_row lib known_vehicles known_places) AreTrips AreTrips-append raw
        issues p h (record { distinct = tt; each = tt })
