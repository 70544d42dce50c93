-- ===== src/Detector/Stays/Found.antt =====
-- `find_stays`: where the stays lie, how long they last, and that adjacent ones are apart.
use odograph.Prelude.Lists.{any-append}
use odograph.Prelude.{
  ℕ, ◌+◌, ◌≤◌, ◌<◌, ◌≡◌, refl, ap, ◌∙◌, inl, inr, true, false, ◌||◌, List, [], ◌∷◌, ◌++◌, arith,
  Bool-cases, All, All-append, All-imp,
}
use odograph.Floats.{Floats}
use odograph.Detector.Model.{Point, Params, Stay}
use odograph.Detector.Ranges.{lasts, stationary_ranges, on_foot_ranges, union_ranges}
use odograph.Detector.Ranges.Spans.{AreDisjoint, covers}
use odograph.Detector.Ranges.Union.{
  AreRanges, union_ranges-AreDisjoint, covers-union_ranges, union_ranges-All,
}
use odograph.Detector.Ranges.Stationary.{stationary_ranges-AreDisjoint, stationary_ranges-IsCluster}
use odograph.Detector.Ranges.OnFoot.{on_foot_ranges-AreDisjoint, on_foot_ranges-IsWalk}
use odograph.Detector.Stays.{
  build_stay, build_stays, never_left, joined, merge_loop, merge_boundary_splits, find_stays,
}

-- The index ranges of stays.
abbrev pub spans : {F : Type 0} → List (Stay F) → List (ℕ × ℕ)
spans [] = []
spans (s ∷ ss) = (s.first_idx, s.last_idx) ∷ spans ss

AreRanges-of_AreDisjoint : (n lo : ℕ) (rs : List (ℕ × ℕ)) → AreDisjoint n lo rs → AreRanges n rs
AreRanges-of_AreDisjoint n lo [] d = tt
AreRanges-of_AreDisjoint n lo (r ∷ rs) d = ((d.1, d.2), AreRanges-of_AreDisjoint n (r.1 + 1) rs d.3)

module _ (fl : Floats) (params : Params fl.Float) (n : ℕ) (at : ℕ → Point fl.Float) where
  open fl use {Float}

  -- The times of a stay are those of its first and last point, and it is no arrival.
  pub record IsAnchored (s : Stay fl.Float) : Type 0 where
    pub started : s.started_at ≡ (at s.first_idx).t
    pub ended : s.ended_at ≡ (at s.last_idx).t
    pub real : s.provisional ≡ false

  -- The path from each stay to the next is over the stay radius.
  abbrev pub AllLeft : Stay Float → List (Stay Float) → Type 0
  AllLeft prev [] = Unit
  AllLeft prev (s ∷ ss) = (never_left fl params n at prev s.first_idx ≡ false) × AllLeft s ss

  abbrev pub AreApart : List (Stay Float) → Type 0
  AreApart [] = Unit
  AreApart (s ∷ ss) = AllLeft s ss

  spans-build_stays : (rs : List (ℕ × ℕ)) → spans (build_stays fl params n at rs) ≡ rs
  unfolding build_stays build_stay
  spans-build_stays [] = refl
  spans-build_stays (r ∷ rs) = ap (◌∷◌ r) (spans-build_stays rs)

  build_stays-IsAnchored : (rs : List (ℕ × ℕ)) → All IsAnchored (build_stays fl params n at rs)
  unfolding build_stays build_stay
  build_stays-IsAnchored [] = tt
  build_stays-IsAnchored (r ∷ rs) =
      (record { started = refl; ended = refl; real = refl }, build_stays-IsAnchored rs)

  merge_loop-IsAnchored :
      (prev : Stay Float) (ss : List (Stay Float))
      → IsAnchored prev
      → All IsAnchored ss
      → All IsAnchored (merge_loop fl params n at prev ss)
  unfolding merge_loop joined
  merge_loop-IsAnchored prev [] a h = (a, tt)
  merge_loop-IsAnchored prev (s ∷ ss) a h =
      elim (Bool-cases (never_left fl params n at prev s.first_idx)) [
        | inl e ↦
            let both : IsAnchored (joined fl params n at prev s) = record {
              started = a.started;
              ended = h.0.ended;
              real = refl;
            } in
            rw e (merge_loop-IsAnchored (joined fl params n at prev s) ss both h.1)
        | inr e ↦ rw e (a, merge_loop-IsAnchored s ss h.0 h.1)
      ]

  merge_loop-AreDisjoint :
      (lo : ℕ) (prev : Stay Float) (ss : List (Stay Float))
      → AreDisjoint n lo (spans (prev ∷ ss))
      → AreDisjoint n lo (spans (merge_loop fl params n at prev ss))
  unfolding merge_loop joined
  merge_loop-AreDisjoint lo prev [] d = d
  merge_loop-AreDisjoint lo prev (s ∷ ss) d =
      elim (Bool-cases (never_left fl params n at prev s.first_idx)) [
        | inl e ↦ rw e (
            merge_loop-AreDisjoint lo (joined fl params n at prev s) ss
              (d.0, omega arith, d.3.2, d.3.3))
        | inr e ↦ rw e (d.0, d.1, d.2, merge_loop-AreDisjoint (prev.last_idx + 1) s ss d.3)
      ]

  merge_loop-AllLeft :
      (before prev : Stay Float) (ss : List (Stay Float))
      → never_left fl params n at before prev.first_idx ≡ false
      → AllLeft before (merge_loop fl params n at prev ss)
  unfolding merge_loop joined
  merge_loop-AllLeft before prev [] h = (h, tt)
  merge_loop-AllLeft before prev (s ∷ ss) h =
      elim (Bool-cases (never_left fl params n at prev s.first_idx)) [
        | inl e ↦ rw e (merge_loop-AllLeft before (joined fl params n at prev s) ss h)
        | inr e ↦ rw e (h, merge_loop-AllLeft prev s ss e)
      ]

  merge_loop-AreApart :
      (prev : Stay Float) (ss : List (Stay Float)) → AreApart (merge_loop fl params n at prev ss)
  unfolding merge_loop joined
  merge_loop-AreApart prev [] = tt
  merge_loop-AreApart prev (s ∷ ss) =
      elim (Bool-cases (never_left fl params n at prev s.first_idx)) [
        | inl e ↦ rw e (merge_loop-AreApart (joined fl params n at prev s) ss)
        | inr e ↦ rw e (merge_loop-AllLeft prev s ss e)
      ]

  merge_loop-covers :
      (k lo : ℕ) (prev : Stay Float) (ss : List (Stay Float))
      → AreDisjoint n lo (spans (prev ∷ ss))
      → covers k (spans (prev ∷ ss)) ≡ true
      → covers k (spans (merge_loop fl params n at prev ss)) ≡ true
  unfolding merge_loop joined
  merge_loop-covers k lo prev [] d h = h
  merge_loop-covers k lo prev (s ∷ ss) d h =
      elim (Bool-cases (never_left fl params n at prev s.first_idx)) [
        | inl e ↦ rw e (
            merge_loop-covers k lo (joined fl params n at prev s) ss
              (d.0, omega arith, d.3.2, d.3.3) (ground arith))
        | inr e ↦ rw e (ground (arith, merge_loop-covers k (prev.last_idx + 1) s ss d.3))
      ]

  all_ranges : List (ℕ × ℕ)
  all_ranges = stationary_ranges fl params n at ++ on_foot_ranges fl params n at

  all_ranges-AreRanges : AreRanges n all_ranges
  unfolding all_ranges
  all_ranges-AreRanges =
      All-append _ (stationary_ranges fl params n at) (on_foot_ranges fl params n at)
        (AreRanges-of_AreDisjoint n 0 _ (stationary_ranges-AreDisjoint fl params n at))
        (AreRanges-of_AreDisjoint n 0 _ (on_foot_ranges-AreDisjoint fl params n at))

  union-AreDisjoint : AreDisjoint n 0 (union_ranges all_ranges)
  union-AreDisjoint = union_ranges-AreDisjoint n all_ranges all_ranges-AreRanges

  merge_boundary_splits-AreDisjoint :
      (ss : List (Stay Float))
      → AreDisjoint n 0 (spans ss)
      → AreDisjoint n 0 (spans (merge_boundary_splits fl params n at ss))
  unfolding merge_boundary_splits
  merge_boundary_splits-AreDisjoint [] d = tt
  merge_boundary_splits-AreDisjoint (s ∷ ss) d = merge_loop-AreDisjoint 0 s ss d

  merge_boundary_splits-IsAnchored :
      (ss : List (Stay Float))
      → All IsAnchored ss
      → All IsAnchored (merge_boundary_splits fl params n at ss)
  unfolding merge_boundary_splits
  merge_boundary_splits-IsAnchored [] d = tt
  merge_boundary_splits-IsAnchored (s ∷ ss) d = merge_loop-IsAnchored s ss d.0 d.1

  -- The stays lie in order, disjoint and within the track.
  pub find_stays-AreDisjoint : AreDisjoint n 0 (spans (find_stays fl params n at))
  unfolding find_stays all_ranges
  find_stays-AreDisjoint =
      merge_boundary_splits-AreDisjoint _ (rw spans-build_stays union-AreDisjoint)

  -- Each stay has the times of its first and last point.
  pub find_stays-IsAnchored : All IsAnchored (find_stays fl params n at)
  unfolding find_stays
  find_stays-IsAnchored = merge_boundary_splits-IsAnchored _ (build_stays-IsAnchored _)

  merge_boundary_splits-AreApart :
      (ss : List (Stay Float)) → AreApart (merge_boundary_splits fl params n at ss)
  unfolding merge_boundary_splits
  merge_boundary_splits-AreApart [] = tt
  merge_boundary_splits-AreApart (s ∷ ss) = merge_loop-AreApart s ss

  -- Jitter splits no stay: the path from each stay to the next is not within the stay radius.
  pub find_stays-AreApart : AreApart (find_stays fl params n at)
  unfolding find_stays
  find_stays-AreApart = merge_boundary_splits-AreApart _

  merge_boundary_splits-covers :
      (k : ℕ) (ss : List (Stay Float))
      → AreDisjoint n 0 (spans ss)
      → covers k (spans ss) ≡ true
      → covers k (spans (merge_boundary_splits fl params n at ss)) ≡ true
  unfolding merge_boundary_splits
  merge_boundary_splits-covers k [] d h = h
  merge_boundary_splits-covers k (s ∷ ss) d h = merge_loop-covers k 0 s ss d h

  -- Every point of a cluster and of a walk lies in a stay.
  pub find_stays-covers :
      (k : ℕ)
      → (covers k (stationary_ranges fl params n at) || covers k (on_foot_ranges fl params n at))
        ≡ true
      → covers k (spans (find_stays fl params n at)) ≡ true
  unfolding find_stays all_ranges
  find_stays-covers k h =
      merge_boundary_splits-covers k _ (rw spans-build_stays union-AreDisjoint) (
        rw spans-build_stays (
          covers-union_ranges k all_ranges
            (All-imp _ (λ r. r.0 ≤ r.1) all_ranges (λ r v. v.0) all_ranges-AreRanges)
          ∙ any-append _ (stationary_ranges fl params n at) (on_foot_ranges fl params n at)
          ∙ h))

  -- The points of a range last at least as long as a stay must.
  abbrev pub IsLong : ℕ × ℕ → Type 0
  IsLong r = lasts params.stay_min_duration (at r.0) (at r.1) ≡ true

  module _ (ordered : (i j : ℕ) → i ≤ j → j < n → (at i).t ≤ (at j).t) where
    IsLong-extend : (a b c : ℕ) → b ≤ c → c < n → IsLong (a, b) → IsLong (a, c)
    unfolding lasts
    IsLong-extend a b c h l p = ground (arith, ordered b c h l)

    all_ranges-IsLong : All IsLong all_ranges
    unfolding all_ranges
    all_ranges-IsLong =
        All-append IsLong (stationary_ranges fl params n at) (on_foot_ranges fl params n at)
          (All-imp _ IsLong _ (λ r c. c.lasts_long) (stationary_ranges-IsCluster fl params n at))
          (All-imp _ IsLong _ (λ r w. w.lasts_long) (on_foot_ranges-IsWalk fl params n at))

    merge_loop-IsLong :
        (lo : ℕ) (prev : Stay Float) (ss : List (Stay Float))
        → AreDisjoint n lo (spans (prev ∷ ss))
        → All IsLong (spans (prev ∷ ss))
        → All IsLong (spans (merge_loop fl params n at prev ss))
    unfolding merge_loop joined
    merge_loop-IsLong lo prev [] d h = h
    merge_loop-IsLong lo prev (s ∷ ss) d h =
        elim (Bool-cases (never_left fl params n at prev s.first_idx)) [
          | inl e ↦ rw e (
              merge_loop-IsLong lo (joined fl params n at prev s) ss
                (d.0, omega arith, d.3.2, d.3.3)
                (
                  IsLong-extend prev.first_idx prev.last_idx s.last_idx (omega arith) d.3.2 h.0,
                  h.1.1,
                ))
          | inr e ↦ rw e (h.0, merge_loop-IsLong (prev.last_idx + 1) s ss d.3 h.1)
        ]

    merge_boundary_splits-IsLong :
        (ss : List (Stay Float))
        → AreDisjoint n 0 (spans ss)
        → All IsLong (spans ss)
        → All IsLong (spans (merge_boundary_splits fl params n at ss))
    unfolding merge_boundary_splits
    merge_boundary_splits-IsLong [] d h = tt
    merge_boundary_splits-IsLong (s ∷ ss) d h = merge_loop-IsLong 0 s ss d h

    -- In a track in time order every stay lasts at least the minimal duration.
    pub find_stays-IsLong : All IsLong (spans (find_stays fl params n at))
    unfolding find_stays all_ranges
    find_stays-IsLong = merge_boundary_splits-IsLong _ (rw spans-build_stays union-AreDisjoint) (
        rw spans-build_stays (
          union_ranges-All n IsLong IsLong-extend all_ranges all_ranges-AreRanges
            all_ranges-IsLong))
