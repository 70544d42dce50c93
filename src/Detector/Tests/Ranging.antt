-- ===== src/Detector/Tests/Ranging.antt =====
-- The theorems on the index ranges, on the track.
use odograph.Prelude.{ℕ, ◌≡◌, List, [], ◌∷◌, arith, All}
use odograph.Detector.Ranges.{stationary_ranges, on_foot_ranges, union_ranges}
use odograph.Detector.Ranges.Spans.{AreDisjoint, covers}
use odograph.Detector.Ranges.Stationary.{IsCluster, stationary_ranges-IsCluster}
use odograph.Detector.Ranges.OnFoot.{IsWalk, on_foot_ranges-IsWalk}
use odograph.Detector.Ranges.Union.{union_ranges-AreDisjoint, covers-union_ranges}
use odograph.Detector.Tests.Sample.{grid, params, at}

stationary_ranges-IsCluster_example :
    All (IsCluster grid params 5 at) (stationary_ranges grid params 5 at)
stationary_ranges-IsCluster_example = stationary_ranges-IsCluster grid params 5 at

on_foot_ranges-IsWalk_example : All (IsWalk grid params 5 at) (on_foot_ranges grid params 5 at)
on_foot_ranges-IsWalk_example = on_foot_ranges-IsWalk grid params 5 at

abbrev overlapping : List (ℕ × ℕ)
overlapping = (4, 6) ∷ (0, 2) ∷ (5, 8) ∷ []

union_ranges-AreDisjoint_example : AreDisjoint 9 0 (union_ranges overlapping)
union_ranges-AreDisjoint_example =
    union_ranges-AreDisjoint 9 overlapping
      ((omega arith, omega arith), ((omega arith, omega arith), ((omega arith, omega arith), tt)))

covers-union_ranges_example : covers 7 (union_ranges overlapping) ≡ covers 7 overlapping
covers-union_ranges_example =
    covers-union_ranges 7 overlapping (omega arith, (omega arith, (omega arith, tt)))
