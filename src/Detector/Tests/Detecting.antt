-- ===== src/Detector/Tests/Detecting.antt =====
-- Runs of `detect`, and its theorems on the track.
use odograph.Prelude.{ℕ, ◌≡◌, refl, [], ◌∷◌, map, length, All, sorted}
use mathlib.Core.List.{Permᴰ}
use odograph.Prelude.Sorting.Stable.{AllApart}
use odograph.Detector.Model.{dist, Trip}
use odograph.Detector.Filter.{is_pinned, is_inaccurate, is_teleport, earlier, filter_points}
use odograph.Detector.Ranges.{
  lasts, is_near, range_le, stationary_ranges, on_foot_ranges, union_ranges,
}
use odograph.Detector.Ranges.Spans.{AreDisjoint}
use odograph.Detector.Stays.{
  never_left, path_length, segment, build_stay, find_stays, trailing_arrival_stay,
}
use odograph.Detector.Stays.Found.{spans}
use odograph.Detector.Overrides.{
  discard_ranges, apply_overrides, apply_discard_overrides, forced_ids,
}
use odograph.Detector.Trips.{assemble_trips, pinned_ids, detect}
use odograph.Detector.Trips.InOrder.{AreInOrder, IsLongEnough}
use odograph.Detector.Trips.Detects.{detect-in_order, detect-perm, detect-IsLongEnough}
use odograph.Detector.Tests.Sample.{grid, params, track, shuffled}

detect-in_order_example :
    AreDisjoint
      (length (filter_points grid params (pinned_ids (forced_ids [])) track))
      0
      (spans (detect grid params track []).0)
    × AreInOrder 0 (detect grid params track []).1
detect-in_order_example = detect-in_order grid params track []

tracks_apart : AllApart earlier track
unfolding earlier
tracks_apart = (
  (refl, (refl, (refl, (refl, tt)))),
  ((refl, (refl, (refl, tt))), ((refl, (refl, tt)), ((refl, tt), (tt, tt)))),
)

detect-perm_example : detect grid params track [] ≡ detect grid params shuffled []
detect-perm_example = detect-perm grid params [] (Permᴰ.swap refl refl) tracks_apart

detect-IsLongEnough_example : All (IsLongEnough grid params) (detect grid params track []).1
detect-IsLongEnough_example = detect-IsLongEnough grid params track []

detect-track :
    map {B = ℕ × ℕ} (λ (t : Trip ℕ). (t.started_at, t.ended_at)) (detect grid params track []).1
    ≡ (400000000, 520000000) ∷ []
unfolding detect find_stays trailing_arrival_stay assemble_trips apply_overrides
    apply_discard_overrides filter_points stationary_ranges on_foot_ranges union_ranges sorted
    earlier is_pinned forced_ids is_inaccurate is_teleport dist lasts is_near range_le never_left
    path_length segment build_stay discard_ranges
detect-track = refl
