-- ===== src/Detector/Tests/Reconciling.antt =====
-- The theorems on reconciliation and merging, at small plans.
use odograph.Prelude.{
  some, ℕ, ◌*◌, ◌≡◌, refl, true, false, ◌&&◌, ◌||◌, none, List, [], ◌∷◌, ◌++◌, arith, leb, ◌==◌,
  any, sorted,
}
use odograph.Detector.Model.{Stay}
use odograph.Detector.Overrides.{is_suppressed}
use odograph.Detector.Reconcile.{
  ExistingTrip, is_open, indices, overlap_of, qualifies, larger_first, chosen, plan_reconcile,
}
use odograph.Detector.Reconcile.Greedy.{existing_idxs, new_idxs, AreDistinct}
use odograph.Detector.Reconcile.Fates.{chosen-distinct, chosen-blocks}
use odograph.Detector.Reconcile.Partition.{HasFates, plan_reconcile-HasFates}
use odograph.Detector.Merge.{
  TripSpan, planned, starts_first, subset_ids, ranges_between, plan_merge_selected,
}
use odograph.Detector.Merge.Runs.{
  IsDecided, plan_merge_selected-IsDecided, plan_merge_selected-suppresses,
}

abbrev stored : ℕ → ℕ → ℕ → ExistingTrip
stored id from until = record {
  id = id;
  started_at = from * 1000000;
  ended_at = until * 1000000;
  category = "business";
  tag_source = none;
}

abbrev existing : List ExistingTrip
existing = stored 7 0 100 ∷ stored 9 200 300 ∷ stored 8 500 600 ∷ []

abbrev redetected : List (ℕ × ℕ)
redetected = (10000000, 90000000) ∷ (5000000, 20000000) ∷ []

chosen-distinct_example :
    AreDistinct (existing_idxs (chosen existing redetected))
    × AreDistinct (new_idxs (chosen existing redetected))
chosen-distinct_example = chosen-distinct existing redetected

second_qualifies : qualifies (stored 7 0 100) (5000000, 20000000) ≡ true
unfolding qualifies
second_qualifies = refl

chosen-blocks_example :
    any
      (λ d.
        (d.existing_idx == 0 || d.new_idx == 1)
        && leb (overlap_of (stored 7 0 100) (5000000, 20000000)) d.overlap)
      (chosen existing redetected)
    ≡ true
chosen-blocks_example =
    chosen-blocks existing redetected 0 1 (stored 7 0 100) (5000000, 20000000) refl refl
      second_qualifies

plan_reconcile-HasFates_example :
    HasFates existing redetected
      (some 450000000)
      (plan_reconcile existing redetected (some 450000000))
plan_reconcile-HasFates_example = plan_reconcile-HasFates existing redetected (some 450000000)

reconciled : plan_reconcile existing redetected (some 450000000) ≡ record {
  matches = (7, 0) ∷ [];
  inserts = 1 ∷ [];
  deletes = stored 9 200 300 ∷ [];
  kept = stored 8 500 600 ∷ [];
}
unfolding plan_reconcile chosen sorted qualifies larger_first is_open indices
reconciled = refl

abbrev span : ℕ → ℕ → ℕ → TripSpan
span id from until = record { id = id; started_at = from; ended_at = until }

abbrev selected : List TripSpan
selected = span 2 30 40 ∷ span 1 10 20 ∷ []

abbrev in_range : List TripSpan
in_range = span 1 10 20 ∷ span 2 30 40 ∷ []

merged : plan_merge_selected selected in_range ≡ planned ((20, 30) ∷ [])
unfolding plan_merge_selected subset_ids ranges_between sorted starts_first
merged = refl

plan_merge_selected-IsDecided_example : IsDecided selected in_range
plan_merge_selected-IsDecided_example = plan_merge_selected-IsDecided selected in_range

abbrev between : Stay ℕ
between = record {
  started_at = 20;
  ended_at = 30;
  lat = 0;
  lon = 0;
  first_idx = 3;
  last_idx = 5;
  point_count = 3;
  provisional = false;
}

in_order : sorted starts_first selected ≡ [] ++ span 1 10 20 ∷ span 2 30 40 ∷ []
unfolding sorted starts_first
in_order = refl

plan_merge_selected-suppresses_example : is_suppressed ((20, 30) ∷ []) between ≡ true
plan_merge_selected-suppresses_example =
    plan_merge_selected-suppresses selected in_range [] [] ((20, 30) ∷ []) (span 1 10 20)
      (span 2 30 40) between merged in_order (omega arith) (omega arith)
