-- ===== src/Detector/Merge.antt =====
-- `plan_merge_selected` of app/merge.py: whether selected trips form a contiguous run, and the
-- suppress ranges that merge them.
pub mod Runs
use odograph.Prelude.{
  ℕ, zero, suc, ◌+◌, ◌-◌, ◌*◌, ◌/◌, ◌≤◌, ◌<◌, min, max, ◌≡◌, refl, sym, ap, ◌∙◌, ◌≢◌, ◌↔◌, ◌⊎◌, inl,
  inr, Bool, true, false, ◌&&◌, ◌||◌, not, Option, none, some, List, [], ◌∷◌, ◌++◌, map, arith, ltb,
  leb, ◌==◌, if◌then◌else◌, ltb→lt, lt→ltb, leb→le, ==_iff, tests, Bool-cases, Option-cases, length,
  get_elem?, get_or, any, all, keep, elem, All, All-append, All-imp, length-append, any-append,
  All-keep, keep-passes, sorted, IsSorted, IsOrder, any-sorted, All-sorted, sorted-perm,
  sorted-IsSorted,
}

pub record TripSpan : Type 0 where
  pub id : ℕ
  pub started_at : ℕ
  pub ended_at : ℕ

-- The two `ValueError`s.
pub data MergeError : Type 0 where
  too_few not_contiguous : MergeError

-- A list of suppress ranges, or the error that is raised.
pub data MergePlan : Type 0 where
  planned : List (ℕ × ℕ) → MergePlan
  refused : MergeError → MergePlan

-- The set comprehensions are equal when each holds the ids of the other.
unfoldable pub subset_ids : List TripSpan → List TripSpan → Bool
subset_ids xs ys = all (λ x. any (λ y. x.id == y.id) ys) xs

unfoldable pub starts_first : TripSpan → TripSpan → Bool
starts_first a b = leb a.started_at b.started_at

-- `[(a.ended_at, b.started_at) for a, b in zip(ordered, ordered[1:])]`
unfoldable pub ranges_between : List TripSpan → List (ℕ × ℕ)
ranges_between (a ∷ b ∷ ts) = (a.ended_at, b.started_at) ∷ ranges_between (b ∷ ts)
ranges_between _ = []

unfoldable pub plan_merge_selected : List TripSpan → List TripSpan → MergePlan
plan_merge_selected selected in_range =
    if ltb (length selected) 2
    then refused too_few
    else if subset_ids selected in_range && subset_ids in_range selected
    then planned (ranges_between (sorted starts_first selected))
    else refused not_contiguous
