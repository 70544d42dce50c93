-- ===== src/Detector/Tests/Overriding.antt =====
-- The theorems on overrides, at a suppressed stay, a forced point and discarded trips.
use odograph.Prelude.{
  ℕ, ◌≡◌, refl, true, false, ◌&&◌, not, some, List, [], ◌∷◌, ◌++◌, arith, leb, ◌==◌, any, All,
}
use odograph.Detector.Model.{Stay, Trip, Override, suppress, force, discard}
use odograph.Detector.Ranges.Spans.{AreDisjoint}
use odograph.Detector.Stays.Found.{spans}
use odograph.Detector.Overrides.{
  suppress_ranges, forced_ids, discard_ranges, find_idx, same_id, is_suppressed, holds_idx,
  apply_overrides, is_discarded_by, apply_discard_overrides,
}
use odograph.Detector.Overrides.Placed.{apply_overrides-AreDisjoint}
use odograph.Detector.Overrides.Freed.{
  IsFree, apply_overrides-IsFree, apply_overrides-any, apply_overrides-forced,
}
use odograph.Detector.Overrides.Discards.{longer_not_discarded, apply_discard_overrides-clean}
use odograph.Detector.Tests.Sample.{point, track}

abbrev overrides : List Override
overrides = suppress 100 500 ∷ force (some 3) ∷ discard (some 10) (some 20) ∷ []

abbrev stay : ℕ → ℕ → ℕ → Stay ℕ
stay from until idx = record {
  started_at = from;
  ended_at = until;
  lat = 0;
  lon = 0;
  first_idx = idx;
  last_idx = idx;
  point_count = 1;
  provisional = false;
}

abbrev stays : List (Stay ℕ)
stays = stay 50 150 0 ∷ stay 920000000 930000000 4 ∷ []

abbrev trip : ℕ → ℕ → Trip ℕ
trip from until = record {
  started_at = from;
  ended_at = until;
  start_lat = 0;
  start_lon = 0;
  end_lat = 0;
  end_lon = 0;
  distance_m = 400;
  has_gap = false;
  points = [];
}

apply_overrides-AreDisjoint_example :
    AreDisjoint 5 0 (spans (apply_overrides track stays overrides))
apply_overrides-AreDisjoint_example =
    apply_overrides-AreDisjoint 5 track stays overrides refl
      (omega arith, omega arith, omega arith, (omega arith, omega arith, omega arith, tt))

apply_overrides-IsFree_example :
    All (IsFree (suppress_ranges overrides)) (apply_overrides track stays overrides)
apply_overrides-IsFree_example = apply_overrides-IsFree track stays overrides

late_stay_passes :
    any
      (λ (s : Stay ℕ). not (is_suppressed (suppress_ranges overrides) s) && (s.first_idx == 4))
      stays
    ≡ true
unfolding is_suppressed suppress_ranges
late_stay_passes = refl

apply_overrides-any_example :
    any (λ s. s.first_idx == 4) (apply_overrides track stays overrides) ≡ true
apply_overrides-any_example =
    apply_overrides-any track stays overrides (λ s. s.first_idx == 4) late_stay_passes

one_force : forced_ids overrides ≡ [] ++ some 3 ∷ []
unfolding forced_ids
one_force = refl

third_point : find_idx (some 3) 0 track ≡ some 2
unfolding find_idx same_id
third_point = refl

third_is_free :
    any (λ o. leb o.0 (point 3 460 2).t && leb (point 3 460 2).t o.1) (suppress_ranges overrides)
    ≡ false
unfolding suppress_ranges
third_is_free = refl

apply_overrides-forced_example : any (holds_idx 2) (apply_overrides track stays overrides) ≡ true
apply_overrides-forced_example =
    apply_overrides-forced track stays overrides [] [] (some 3) 2 (point 3 460 2) one_force
      third_point refl third_is_free

longer_not_discarded_example : is_discarded_by (trip 0 100) (10, 20) ≡ false
longer_not_discarded_example =
    longer_not_discarded (trip 0 100) (10, 20) (omega arith) (omega arith) (omega arith)

apply_discard_overrides-clean_example :
    All
      (λ t. any (is_discarded_by t) (discard_ranges overrides) ≡ false)
      (apply_discard_overrides (trip 0 100 ∷ trip 12 19 ∷ []) overrides)
apply_discard_overrides-clean_example =
    apply_discard_overrides-clean (trip 0 100 ∷ trip 12 19 ∷ []) overrides
