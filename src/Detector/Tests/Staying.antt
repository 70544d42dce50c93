-- ===== src/Detector/Tests/Staying.antt =====
-- The theorems on stays, on the two tracks.
use odograph.Prelude.{ℕ, ◌≡◌, refl, true, ◌||◌, some, [], All}
use odograph.Detector.Model.{Stay, dist}
use odograph.Detector.Ranges.{lasts, is_near, stationary_ranges, on_foot_ranges}
use odograph.Detector.Ranges.Spans.{covers}
use odograph.Detector.Stays.{range_from, segment, build_stay, find_stays, trailing_arrival_stay}
use odograph.Detector.Stays.Found.{
  spans, IsAnchored, AreApart, find_stays-IsAnchored, find_stays-AreApart, find_stays-covers,
}
use odograph.Detector.Stays.Arrival.{IsArrival, trailing_arrival_stay-IsArrival}
use odograph.Detector.Tests.Sample.{grid, params, at, at_arriving}

find_stays-AreApart_example : AreApart grid params 5 at (find_stays grid params 5 at)
find_stays-AreApart_example = find_stays-AreApart grid params 5 at

find_stays-IsAnchored_example : All (IsAnchored grid params 5 at) (find_stays grid params 5 at)
find_stays-IsAnchored_example = find_stays-IsAnchored grid params 5 at

start_is_covered :
    (covers 0 (stationary_ranges grid params 5 at) || covers 0 (on_foot_ranges grid params 5 at))
    ≡ true
unfolding stationary_ranges on_foot_ranges lasts is_near dist
start_is_covered = refl

find_stays-covers_example : covers 0 (spans (find_stays grid params 5 at)) ≡ true
find_stays-covers_example = find_stays-covers grid params 5 at 0 start_is_covered

-- The stay that ends the second track.
abbrev arrived : Stay ℕ
arrived = record {
  started_at = 520000000;
  ended_at = 620000000;
  lat = 4;
  lon = 0;
  first_idx = 3;
  last_idx = 4;
  point_count = 2;
  provisional = true;
}

arrives : trailing_arrival_stay grid params 5 at_arriving [] ≡ some arrived
unfolding trailing_arrival_stay dist range_from segment build_stay
arrives = refl

trailing_arrival_stay-IsArrival_example : IsArrival grid params 5 at_arriving [] arrived
trailing_arrival_stay-IsArrival_example =
    trailing_arrival_stay-IsArrival grid params 5 at_arriving [] arrived arrives
