-- ===== src/Detector/Stays.antt =====
-- `find_stays`, `_build_stay`, `_merge_boundary_splits` and `trailing_arrival_stay` of
-- app/detector/core.py, over the number of the filtered points and their indexing.
pub mod Found
pub mod Arrival
use odograph.Prelude.{
  ℕ, zero, suc, ◌+◌, ◌-◌, ◌*◌, ◌/◌, ◌≤◌, ◌<◌, min, max, ◌≡◌, refl, sym, ap, ◌∙◌, ◌≢◌, ◌↔◌, ◌⊎◌, inl,
  inr, Bool, true, false, ◌&&◌, ◌||◌, not, Option, none, some, List, [], ◌∷◌, ◌++◌, map, arith, ltb,
  leb, ◌==◌, if◌then◌else◌, ltb→lt, lt→ltb, leb→le, ==_iff, tests, Bool-cases, Option-cases, length,
  get_elem?, get_or, any, all, keep, elem, All, All-append, All-imp, length-append, sorted,
  IsSorted, IsOrder, any-sorted, All-sorted, sorted-perm, sorted-IsSorted,
}
use text.Mathlib.Text.{◌==◌ as str_eq}
use Prim.Native.String.{String}
use odograph.Floats.{Floats}
use odograph.Detector.Model.{Point, Params, Stay, dist}
use odograph.Detector.Ranges.{stationary_ranges, on_foot_ranges, union_ranges}

module _ {ℓ} {A : Type ℓ} where
  -- `pts[first:first + count]` within bounds.
  unfoldable pub slice : (ℕ → A) → ℕ → ℕ → List A
  slice at first zero = []
  slice at first (suc count) = at first ∷ slice at (first + 1) count

  -- `xs[-1]` of a list that may be empty.
  abbrev pub last? : List A → Option A
  last? [] = none
  last? (x ∷ []) = some x
  last? (x ∷ y ∷ ys) = last? (y ∷ ys)

-- `range(first, first + count)`
unfoldable pub range_from : ℕ → ℕ → List ℕ
range_from first zero = []
range_from first (suc count) = first ∷ range_from (first + 1) count

module _ (fl : Floats) where
  open fl use {Float, sum}

  unfoldable pub legs : List (Point Float) → List Float
  legs (a ∷ b ∷ ps) = dist fl a b ∷ legs (b ∷ ps)
  legs _ = []

  -- `sum(_dist(a, b) for a, b in zip(seg, seg[1:]))`
  unfoldable pub path_length : List (Point Float) → Float
  unfolding legs
  path_length seg = sum (legs seg)

module _ (fl : Floats) (params : Params fl.Float) (n : ℕ) (at : ℕ → Point fl.Float) where
  open fl use {Float, of_nat, add, mul, div, le, lt, sum}

  -- `pts[first:last + 1]`
  unfoldable pub segment : ℕ → ℕ → List (Point Float)
  unfolding slice
  segment first last = slice at first (last + 1 - first)

  unfoldable pub build_stay : ℕ → ℕ → Stay Float
  unfolding segment
  build_stay first last =
      let cluster = segment first last in
      record {
        started_at = (at first).t;
        ended_at = (at last).t;
        lat = div (sum (map (λ p. p.lat) cluster)) (of_nat (length cluster));
        lon = div (sum (map (λ p. p.lon) cluster)) (of_nat (length cluster));
        first_idx = first;
        last_idx = last;
        point_count = length cluster;
        provisional = false;
      }

  build_stays : List (ℕ × ℕ) → List (Stay Float)
  build_stays [] = []
  build_stays (r ∷ rs) = build_stay r.0 r.1 ∷ build_stays rs

  -- The path from a stay to the next is within the stay radius.
  unfoldable pub never_left : Stay Float → ℕ → Bool
  never_left prev idx = le (path_length fl (segment prev.last_idx idx)) params.stay_radius_m

  pub joined : Stay Float → Stay Float → Stay Float
  joined prev s =
      let total = prev.point_count + s.point_count in
      let mean = λ (a b : Float).
        div (add (mul a (of_nat prev.point_count)) (mul b (of_nat s.point_count))) (of_nat total) in
      record {
        started_at = prev.started_at;
        ended_at = s.ended_at;
        lat = mean prev.lat s.lat;
        lon = mean prev.lon s.lon;
        first_idx = prev.first_idx;
        last_idx = s.last_idx;
        point_count = total;
        provisional = false;
      }

  -- The loop; `prev` is `merged[-1]`.
  merge_loop : Stay Float → List (Stay Float) → List (Stay Float)
  merge_loop prev [] = prev ∷ []
  merge_loop prev (s ∷ ss) =
      let together = merge_loop (joined prev s) ss in
      let apart = prev ∷ merge_loop s ss in if never_left prev s.first_idx then together else apart

  merge_boundary_splits : List (Stay Float) → List (Stay Float)
  unfolding merge_loop joined
  merge_boundary_splits [] = []
  merge_boundary_splits (s ∷ ss) = merge_loop s ss

  unfoldable pub find_stays : List (Stay Float)
  unfolding build_stays merge_boundary_splits
  find_stays =
      let ranges = stationary_ranges fl params n at ++ on_foot_ranges fl params n at in
      merge_boundary_splits (build_stays (union_ranges ranges))

  -- `all(_dist(pts[i], pts[j]) <= params.stay_radius_m for j in range(i + 1, n))`
  all_near : ℕ → Bool
  all_near i =
      all (λ j. le (dist fl (at i) (at j)) params.stay_radius_m) (range_from (i + 1) (n - (i + 1)))

  -- The `for` loop from `i` on; `none` is its `else`.
  find_anchor : ℕ → ℕ → Option ℕ
  find_anchor zero i = none
  find_anchor (suc fuel) i =
      let next = find_anchor fuel (i + 1) in
      if ltb (i + 1) n
      then (if lt params.stay_radius_m (dist fl (at i) (at (n - 1)))
          then next
          else if all_near i
          then some i
          else next)
      else none

  pub has_trigger : Point Float → Bool
  has_trigger p = elim p.trigger [
    | none ↦ false
    | some s ↦ any (λ t. str_eq s t) params.arrival_triggers
  ]

  -- `arrival_min_duration_s <= span < stay_min_duration_s` for the cluster from `i` on.
  is_timely : ℕ → Bool
  is_timely i =
      leb ((at i).t + params.arrival_min_duration) (at (n - 1)).t
      && ltb (at (n - 1)).t ((at i).t + params.stay_min_duration)

  has_stayed : List (Stay Float) → ℕ → Bool
  has_stayed stays i = elim (last? stays) [ none ↦ false | some s ↦ never_left s i ]

  arrival_stay : ℕ → Stay Float
  arrival_stay i = record (build_stay i (n - 1)) { provisional = true }

  arrival_at : List (Stay Float) → ℕ → Option (Stay Float)
  arrival_at stays i =
      if is_timely i
      then (if any has_trigger (segment i (n - 1))
          then (if has_stayed stays i then none else some (arrival_stay i))
          else none)
      else none

  no_triggers : Bool
  no_triggers = elim params.arrival_triggers [ [] ↦ true | _ ↦ false ]

  -- The first index behind the stays.
  start_idx : List (Stay Float) → ℕ
  start_idx stays = elim (last? stays) [ none ↦ 0 | some s ↦ s.last_idx + 1 ]

  arrival_found : List (Stay Float) → Option ℕ → Option (Stay Float)
  arrival_found stays none = none
  arrival_found stays (some i) = arrival_at stays i

  unfoldable pub trailing_arrival_stay : List (Stay Float) → Option (Stay Float)
  unfolding find_anchor all_near arrival_found arrival_at has_trigger is_timely has_stayed
      arrival_stay no_triggers start_idx
  trailing_arrival_stay stays =
      if no_triggers || ltb n (start_idx stays + 2)
      then none
      else arrival_found stays (find_anchor n (start_idx stays))
