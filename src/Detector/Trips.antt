-- ===== src/Detector/Trips.antt =====
-- `assemble_trips` and `detect` of app/detector/core.py.
pub mod InOrder
pub mod Detects
use odograph.Prelude.{
  ℕ, zero, suc, ◌+◌, ◌-◌, ◌*◌, ◌/◌, ◌≤◌, ◌<◌, min, max, ◌≡◌, refl, sym, ap, ◌∙◌, ◌≢◌, ◌↔◌, ◌⊎◌, inl,
  inr, Bool, true, false, ◌&&◌, ◌||◌, not, Option, none, some, List, [], ◌∷◌, ◌++◌, map, arith, ltb,
  leb, ◌==◌, if◌then◌else◌, ltb→lt, lt→ltb, leb→le, ==_iff, tests, Bool-cases, Option-cases, length,
  get_elem?, get_or, any, all, keep, elem, All, All-append, All-imp, length-append, sorted,
  IsSorted, IsOrder, any-sorted, All-sorted, sorted-perm, sorted-IsSorted,
}
use odograph.Floats.{Floats}
use odograph.Detector.Model.{Point, Params, Stay, Trip, Override}
use odograph.Detector.Filter.{filter_points}
use odograph.Detector.Stays.{segment, path_length, find_stays, trailing_arrival_stay}
use odograph.Detector.Overrides.{forced_ids, apply_overrides, apply_discard_overrides}

module _ {F : Type 0} where
  -- `any((b.t - a.t).total_seconds() > threshold for a, b in zip(seg, seg[1:]))`
  unfoldable pub has_gap : ℕ → List (Point F) → Bool
  has_gap threshold (a ∷ b ∷ ps) = ltb (a.t + threshold) b.t || has_gap threshold (b ∷ ps)
  has_gap threshold _ = false

  -- `seg[-1]` for the segment `p ∷ ps`.
  unfoldable pub last_point : Point F → List (Point F) → Point F
  last_point p [] = p
  last_point p (q ∷ qs) = last_point q qs

module _ (fl : Floats) (params : Params fl.Float) where
  open fl use {Float, lt}

  -- The trip over a segment that is long enough. (An empty segment would be an IndexError in the
  -- source if the minimal distance were 0 or less; stays in order leave none empty.)
  trip_of : List (Point Float) → List (Trip Float)
  unfolding has_gap last_point
  trip_of [] = []
  trip_of (p ∷ ps) =
      let seg = p ∷ ps in
      let end = last_point p ps in
      if lt (path_length fl seg) params.min_trip_distance_m
      then []
      else record {
        started_at = p.t;
        ended_at = end.t;
        start_lat = p.lat;
        start_lon = p.lon;
        end_lat = end.lat;
        end_lon = end.lon;
        distance_m = path_length fl seg;
        has_gap = has_gap params.gap_flag_threshold seg;
        points = seg;
      }
        ∷ []

  module _ (n : ℕ) (at : ℕ → Point Float) where
    unfoldable pub assemble_trips : List (Stay Float) → List (Trip Float)
    unfolding trip_of
    assemble_trips (origin ∷ dest ∷ stays) =
        trip_of (segment fl params n at origin.last_idx dest.first_idx)
        ++ assemble_trips (dest ∷ stays)
    assemble_trips _ = []

-- `frozenset(o.point_id for o in force overrides if o.point_id is not None)`
pub pinned_ids : List (Option ℕ) → List ℕ
pinned_ids [] = []
pinned_ids (none ∷ ids) = pinned_ids ids
pinned_ids (some id ∷ ids) = id ∷ pinned_ids ids

module _ (fl : Floats) (params : Params fl.Float) where
  open fl use {Float}

  -- The stays of the filtered points: the found ones, with the arrival behind them.
  with_arrival : Option (Stay Float) → List (Stay Float) → List (Stay Float)
  with_arrival none stays = stays
  with_arrival (some arrival) stays = stays ++ arrival ∷ []

  override_stays : List (Point Float) → List (Stay Float) → List Override → List (Stay Float)
  override_stays pts stays [] = stays
  override_stays pts stays (o ∷ os) = apply_overrides pts stays (o ∷ os)

  -- `detect` behind the filter, for points `p ∷ ps` (of which `p` is also the value past the end).
  detect_in : List (Point Float) → List Override → List (Stay Float) × List (Trip Float)
  unfolding with_arrival override_stays
  detect_in [] overrides = ([], [])
  detect_in (p ∷ ps) overrides =
      let pts = p ∷ ps in
      let n = length pts in
      let at = λ (i : ℕ). get_or pts i p in
      let found = find_stays fl params n at in
      let stays = with_arrival (trailing_arrival_stay fl params n at found) found in
      let stays' = override_stays pts stays overrides in
      let trips = assemble_trips fl params n at stays' in
      (stays', apply_discard_overrides trips overrides)

  unfoldable pub detect : List (Point Float) → List Override → List (Stay Float) × List (Trip Float)
  unfolding detect_in pinned_ids
  detect points overrides =
      detect_in (filter_points fl params (pinned_ids (forced_ids overrides)) points) overrides
