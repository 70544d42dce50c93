-- ===== src/Detector/Ranges.antt =====
-- `_stationary_ranges`, `_on_foot_ranges`, `_last_walking_point` and `_union_ranges` of
-- app/detector/core.py. The filtered points are given by their number `n` and by `at`, which is
-- indexing. Each `while` loop is a function that takes fuel.
pub mod Spans
pub mod Stationary
pub mod OnFoot
pub mod Union
use odograph.Prelude.{
  ℕ, zero, suc, ◌+◌, ◌-◌, ◌*◌, ◌/◌, ◌≤◌, ◌<◌, min, max, ◌≡◌, refl, sym, ap, ◌∙◌, ◌≢◌, ◌↔◌, ◌⊎◌, inl,
  inr, Bool, true, false, ◌&&◌, ◌||◌, not, Option, none, some, List, [], ◌∷◌, ◌++◌, map, arith, ltb,
  leb, ◌==◌, if◌then◌else◌, ltb→lt, lt→ltb, leb→le, ==_iff, tests, Bool-cases, Option-cases, length,
  get_elem?, get_or, any, all, keep, elem, All, All-append, All-imp, length-append, sorted,
  IsSorted, IsOrder, any-sorted, All-sorted, sorted-perm, sorted-IsSorted,
}
use odograph.Floats.{Floats}
use odograph.Detector.Model.{Point, Params, dist}

-- `(b.t - a.t).total_seconds() >= duration`
unfoldable pub lasts : {F : Type 0} → ℕ → Point F → Point F → Bool
lasts duration a b = leb (a.t + duration) b.t

module _ (fl : Floats) (params : Params fl.Float) (n : ℕ) (at : ℕ → Point fl.Float) where
  open fl use {Float, of_nat, add, sub, div, le, lt, seconds}

  -- `_dist(pts[j], pts[i]) <= params.stay_radius_m`
  unfoldable pub is_near : ℕ → ℕ → Bool
  is_near i j = le (dist fl (at j) (at i)) params.stay_radius_m

  -- `while j < n and near: j += 1`
  near_end : ℕ → ℕ → ℕ → ℕ
  near_end zero i j = j
  near_end (suc fuel) i j =
      let next = near_end fuel i (j + 1) in if ltb j n && is_near i j then next else j

  stationary_loop : ℕ → ℕ → List (ℕ × ℕ)
  unfolding near_end
  stationary_loop zero i = []
  stationary_loop (suc fuel) i =
      let j = near_end n i (i + 1) in
      let found = (i, j - 1) ∷ stationary_loop fuel j in
      let missed = stationary_loop fuel (i + 1) in
      if ltb i n
      then (if lasts params.stay_min_duration (at i) (at (j - 1)) then found else missed)
      else []

  unfoldable pub stationary_ranges : List (ℕ × ℕ)
  unfolding stationary_loop
  stationary_ranges = stationary_loop n 0

  -- The inner `while` of the on-foot scan: the window's start and the meters that it holds.
  trim_window : ℕ → ℕ → ℕ → Float → ℕ × Float
  trim_window zero j oldest path = (oldest, path)
  trim_window (suc fuel) j oldest path =
      let next =
        trim_window fuel j (oldest + 1) (sub path (dist fl (at oldest) (at (oldest + 1)))) in
      if ltb (oldest + 1) j && lasts params.stay_min_duration (at (oldest + 1)) (at j)
      then next
      else (oldest, path)

  -- The speed of the leg that ends at `j`, and the test that ends a span there.
  pub leg_speed : ℕ → Float
  leg_speed j = div (dist fl (at (j - 1)) (at j)) (seconds (at (j - 1)).t (at j).t)

  is_driving : ℕ → ℕ × Float → Bool
  unfolding leg_speed
  is_driving j window =
      lt params.walk_max_speed_ms (leg_speed j)
      && (lt params.walk_leg_max_speed_ms (leg_speed j)
          || lt params.walk_max_speed_ms (div window.1 (seconds (at window.0).t (at j).t)))

  walk_loop : ℕ → ℕ → ℕ × Float → ℕ
  unfolding trim_window is_driving
  walk_loop zero j window = j
  walk_loop (suc fuel) j window =
      let leg = dist fl (at (j - 1)) (at j) in
      let window' = trim_window n j window.0 (add window.1 leg) in
      let next = walk_loop fuel (j + 1) window' in
      if ltb j n
      then (if leb (at j).t (at (j - 1)).t then j else if is_driving j window' then j else next)
      else j

  last_walking_point : ℕ → ℕ → ℕ → ℕ
  unfolding leg_speed
  last_walking_point zero first last = last
  last_walking_point (suc fuel) first last =
      let back = last_walking_point fuel first (last - 1) in
      if ltb first last
      then (if le (leg_speed last) params.walk_max_speed_ms then last else back)
      else last

  on_foot_loop : ℕ → ℕ → List (ℕ × ℕ)
  unfolding walk_loop last_walking_point
  on_foot_loop zero i = []
  on_foot_loop (suc fuel) i =
      let j = walk_loop n (i + 1) (i, of_nat 0) in
      let end = last_walking_point n i (j - 1) in
      let rest = on_foot_loop fuel (max j (i + 1)) in
      if ltb (i + 1) n
      then (if lasts params.stay_min_duration (at i) (at end) then (i, end) ∷ rest else rest)
      else []

  unfoldable pub on_foot_ranges : List (ℕ × ℕ)
  unfolding on_foot_loop
  on_foot_ranges = on_foot_loop n 0

-- The order of tuples.
unfoldable pub range_le : ℕ × ℕ → ℕ × ℕ → Bool
range_le a b = if ltb a.0 b.0 then true else if a.0 == b.0 then leb a.1 b.1 else false

-- The loop over the sorted ranges; `r` is `merged[-1]`.
merge_into : ℕ × ℕ → List (ℕ × ℕ) → List (ℕ × ℕ)
merge_into r [] = r ∷ []
merge_into r (s ∷ rs) =
    let joined = merge_into (r.0, max r.1 s.1) rs in
    let apart = r ∷ merge_into s rs in if leb s.0 r.1 then joined else apart

merge_sorted : List (ℕ × ℕ) → List (ℕ × ℕ)
merge_sorted [] = []
merge_sorted (r ∷ rs) = merge_into r rs

unfoldable pub union_ranges : List (ℕ × ℕ) → List (ℕ × ℕ)
unfolding merge_sorted merge_into
union_ranges ranges = merge_sorted (sorted range_le ranges)
