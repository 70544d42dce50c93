-- ===== src/Detector/Overrides.antt =====
-- `_apply_overrides` and `_apply_discard_overrides` of app/detector/core.py.
pub mod Placed
pub mod Freed
pub mod Discards
use odograph.Prelude.{
  ℕ, zero, suc, ◌+◌, ◌-◌, ◌*◌, ◌/◌, ◌≤◌, ◌<◌, min, max, ◌≡◌, refl, sym, ap, ◌∙◌, ◌≢◌, ◌↔◌, ◌⊎◌, inl,
  inr, Bool, true, false, ◌&&◌, ◌||◌, not, Option, none, some, List, [], ◌∷◌, ◌++◌, map, arith, ltb,
  leb, ◌==◌, if◌then◌else◌, ltb→lt, lt→ltb, leb→le, ==_iff, tests, Bool-cases, Option-cases, length,
  get_elem?, get_or, any, all, keep, elem, All, All-append, All-imp, length-append, sorted,
  IsSorted, IsOrder, any-sorted, All-sorted, sorted-perm, sorted-IsSorted,
}
use odograph.Floats.{Floats}
use odograph.Detector.Model.{Point, Stay, Trip, Override, suppress, force, discard}

-- The ranges of the suppress overrides.
unfoldable pub suppress_ranges : List Override → List (ℕ × ℕ)
suppress_ranges [] = []
suppress_ranges (suppress a b ∷ os) = (a, b) ∷ suppress_ranges os
suppress_ranges (force p ∷ os) = suppress_ranges os
suppress_ranges (discard a b ∷ os) = suppress_ranges os

unfoldable pub forced_ids : List Override → List (Option ℕ)
forced_ids [] = []
forced_ids (suppress a b ∷ os) = forced_ids os
forced_ids (force p ∷ os) = p ∷ forced_ids os
forced_ids (discard a b ∷ os) = forced_ids os

-- The discard overrides that have both ends of their range.
unfoldable pub discard_ranges : List Override → List (ℕ × ℕ)
discard_ranges [] = []
discard_ranges (suppress a b ∷ os) = discard_ranges os
discard_ranges (force p ∷ os) = discard_ranges os
discard_ranges (discard (some a) (some b) ∷ os) = (a, b) ∷ discard_ranges os
discard_ranges (discard a b ∷ os) = discard_ranges os

-- `p.id == o.point_id`, where both may be `None`.
unfoldable pub same_id : Option ℕ → Option ℕ → Bool
same_id none none = true
same_id (some a) (some b) = a == b
same_id _ _ = false

module _ {F : Type 0} where
  -- The first index with this point id.
  unfoldable pub find_idx : Option ℕ → ℕ → List (Point F) → Option ℕ
  find_idx id i [] = none
  find_idx id i (p ∷ ps) =
      let rest = find_idx id (i + 1) ps in if same_id p.id id then some i else rest

  unfoldable pub is_suppressed : List (ℕ × ℕ) → Stay F → Bool
  is_suppressed ranges s = any (λ o. leb o.0 s.ended_at && leb s.started_at o.1) ranges

  unfoldable pub holds_idx : ℕ → Stay F → Bool
  holds_idx idx s = leb s.first_idx idx && leb idx s.last_idx

  forced_stay : Point F → ℕ → Stay F
  forced_stay p idx = record {
    started_at = p.t;
    ended_at = p.t;
    lat = p.lat;
    lon = p.lon;
    first_idx = idx;
    last_idx = idx;
    point_count = 1;
    provisional = false;
  }

  -- One round of the loop over the force overrides.
  force_at : List (ℕ × ℕ) → List (Stay F) → ℕ → Option (Point F) → List (Stay F)
  unfolding forced_stay
  force_at ranges kept idx none = kept
  force_at ranges kept idx (some p) =
      if any (λ o. leb o.0 p.t && leb p.t o.1) ranges
      then kept
      else if any (holds_idx idx) kept
      then kept
      else kept ++ forced_stay p idx ∷ []

  force_one : List (Point F) → List (ℕ × ℕ) → List (Stay F) → Option ℕ → List (Stay F)
  unfolding find_idx force_at
  force_one pts ranges kept id = elim (find_idx id 0 pts) [
    | none ↦ kept
    | some idx ↦ force_at ranges kept idx (get_elem? pts idx)
  ]

  force_all : List (Point F) → List (ℕ × ℕ) → List (Stay F) → List (Option ℕ) → List (Stay F)
  unfolding force_one
  force_all pts ranges kept [] = kept
  force_all pts ranges kept (id ∷ ids) = force_all pts ranges (force_one pts ranges kept id) ids

  unfoldable pub first_le : Stay F → Stay F → Bool
  first_le a b = leb a.first_idx b.first_idx

  unfoldable pub apply_overrides : List (Point F) → List (Stay F) → List Override → List (Stay F)
  unfolding force_all
  apply_overrides pts stays overrides =
      let ranges = suppress_ranges overrides in
      let kept = keep (λ s. not (is_suppressed ranges s)) stays in
      sorted first_le (force_all pts ranges kept (forced_ids overrides))

  -- `2 * overlap >= duration` for the trip and for the range, with the differences moved across.
  unfoldable pub is_discarded_by : Trip F → ℕ × ℕ → Bool
  is_discarded_by trip range =
      let until = min trip.ended_at range.1 in
      let from = max trip.started_at range.0 in
      leb (2 * from + trip.ended_at) (2 * until + trip.started_at)
      && leb (2 * from + range.1) (2 * until + range.0)

  unfoldable pub apply_discard_overrides : List (Trip F) → List Override → List (Trip F)
  apply_discard_overrides trips overrides =
      keep (λ trip. not (any (is_discarded_by trip) (discard_ranges overrides))) trips
