-- ===== src/Detector/Tests/Filtering.antt =====
-- The theorems on `filter_points`, on the track.
use odograph.Prelude.{◌≡◌, none, [], ◌∷◌, keep, sorted}
use odograph.Detector.Filter.{earlier, is_pinned, filter_points}
use odograph.Detector.Filter.Gates.{
  IsGated, filter_points-IsGated, filter_points-pinned, filter_points-filter_points,
}
use odograph.Detector.Tests.Sample.{grid, params, shuffled}

filter_points-IsGated_example :
    IsGated grid params (3 ∷ []) none (filter_points grid params (3 ∷ []) shuffled)
filter_points-IsGated_example = filter_points-IsGated grid params (3 ∷ []) shuffled

filter_points-pinned_example :
    keep (is_pinned grid params (3 ∷ [])) (filter_points grid params (3 ∷ []) shuffled)
    ≡ keep (is_pinned grid params (3 ∷ [])) (sorted earlier shuffled)
filter_points-pinned_example = filter_points-pinned grid params (3 ∷ []) shuffled

filter_points-filter_points_example :
    filter_points grid params [] (filter_points grid params [] shuffled)
    ≡ filter_points grid params [] shuffled
filter_points-filter_points_example = filter_points-filter_points grid params [] shuffled
