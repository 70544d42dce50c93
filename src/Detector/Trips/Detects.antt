-- ===== src/Detector/Trips/Detects.antt =====
-- `detect`: its stays and trips lie in order, whatever the points and overrides are.
use odograph.Prelude.{
  ℕ, zero, suc, ◌+◌, ◌≤◌, ◌<◌, ◌≡◌, refl, ap, true, Option, none, some, List, [], ◌∷◌, ◌++◌, arith,
  leb→le, length, get_or, All, All-keep, IsSorted,
}
use mathlib.Core.List.{Permᴰ}
use odograph.Prelude.Sorting.Stable.{AllApart}
use odograph.Floats.{Floats}
use odograph.Detector.Model.{Point, Params, Stay, Override}
use odograph.Detector.Filter.{earlier, filter_points}
use odograph.Detector.Filter.Gates.{filter_points-IsSorted, filter_points-perm}
use odograph.Detector.Ranges.Spans.{AreDisjoint}
use odograph.Detector.Stays.{trailing_arrival_stay}
use odograph.Detector.Stays.Found.{spans, find_stays-AreDisjoint}
use odograph.Detector.Stays.Arrival.{AreBefore, IsArrival, trailing_arrival_stay-IsArrival}
use odograph.Detector.Overrides.{forced_ids, apply_discard_overrides}
use odograph.Detector.Overrides.Placed.{apply_overrides-AreDisjoint}
use odograph.Detector.Trips.{
  assemble_trips, pinned_ids, with_arrival, override_stays, detect_in, detect,
}
use odograph.Detector.Trips.InOrder.{
  AreInOrder, AreInOrder-mono, AreInOrder-keep, IsLongEnough, assemble_trips-AreInOrder,
  assemble_trips-IsLongEnough,
}

module _ {F : Type 0} where
  All-get_or :
      (P : Point F → Type 0) (xs : List (Point F)) (i : ℕ) (d : Point F)
      → All P xs
      → i < length xs
      → P (get_or xs i d)
  All-get_or P [] i d h l = absurd (omega arith)
  All-get_or P (x ∷ xs) zero d h l = h.0
  All-get_or P (x ∷ xs) (suc i) d h l = All-get_or P xs i d h.1 (omega arith)

  ordered_of_IsSorted :
      (xs : List (Point F)) (d : Point F) (i j : ℕ)
      → IsSorted earlier xs
      → i ≤ j
      → j < length xs
      → (get_or xs i d).t ≤ (get_or xs j d).t
  unfolding earlier
  ordered_of_IsSorted [] d i j s h l = absurd (omega arith)
  ordered_of_IsSorted (x ∷ xs) d zero zero s h l = omega arith
  ordered_of_IsSorted (x ∷ xs) d zero (suc j) s h l =
      leb→le x.t _ (All-get_or (λ y. earlier x y ≡ true) xs j d s.0 (omega arith))
  ordered_of_IsSorted (x ∷ xs) d (suc i) zero s h l = absurd (omega arith)
  ordered_of_IsSorted (x ∷ xs) d (suc i) (suc j) s h l =
      ordered_of_IsSorted xs d i j s.1 (omega arith) (omega arith)

  -- The index lies behind all the stays, and not in front of `lo`.
  abbrev IsBehind : ℕ → List (Stay F) → ℕ → Type 0
  IsBehind lo [] i = lo ≤ i
  IsBehind lo (s ∷ ss) i = IsBehind (s.last_idx + 1) ss i

  AreDisjoint-append :
      (n lo : ℕ) (ss : List (Stay F)) (r : Stay F)
      → AreDisjoint n lo (spans ss)
      → IsBehind lo ss r.first_idx
      → (r.first_idx ≤ r.last_idx) × (r.last_idx < n)
      → AreDisjoint n lo (spans (ss ++ r ∷ []))
  AreDisjoint-append n lo [] r d b w = (b, w.0, w.1, tt)
  AreDisjoint-append n lo (s ∷ ss) r d b w =
      (d.0, d.1, d.2, AreDisjoint-append n (s.last_idx + 1) ss r d.3 b w)

module _ (fl : Floats) (params : Params fl.Float) where
  open fl use {Float}

  module _ (n : ℕ) (at : ℕ → Point Float) where
    IsBehind-of_AreBefore :
        (lo : ℕ) (s : Stay Float) (ss : List (Stay Float)) (i : ℕ)
        → AreBefore fl params n at (s ∷ ss) i
        → IsBehind lo (s ∷ ss) i
    IsBehind-of_AreBefore lo s [] i b = omega (arith, b.0)
    IsBehind-of_AreBefore lo s (r ∷ ss) i b = IsBehind-of_AreBefore (s.last_idx + 1) r ss i b

    arrival-AreDisjoint :
        (found : List (Stay Float)) (s : Stay Float)
        → IsArrival fl params n at found s
        → AreDisjoint n 0 (spans found)
        → AreDisjoint n 0 (spans (found ++ s ∷ []))
    arrival-AreDisjoint [] s a d =
        AreDisjoint-append n 0 [] s d (omega arith) (omega (arith, a.in_range))
    arrival-AreDisjoint (q ∷ qs) s a d =
        AreDisjoint-append n 0 (q ∷ qs) s d (IsBehind-of_AreBefore 0 q qs s.first_idx a.is_behind)
          (omega (arith, a.in_range))

    with_arrival-AreDisjoint :
        (found : List (Stay Float)) (arrival : Option (Stay Float))
        → trailing_arrival_stay fl params n at found ≡ arrival
        → AreDisjoint n 0 (spans found)
        → AreDisjoint n 0 (spans (with_arrival fl params arrival found))
    unfolding with_arrival
    with_arrival-AreDisjoint found none e d = d
    with_arrival-AreDisjoint found (some s) e d =
        arrival-AreDisjoint found s (trailing_arrival_stay-IsArrival fl params n at found s e) d

  override_stays-AreDisjoint :
      (pts : List (Point Float)) (stays : List (Stay Float)) (overrides : List Override)
      → AreDisjoint (length pts) 0 (spans stays)
      → AreDisjoint (length pts) 0 (spans (override_stays fl params pts stays overrides))
  unfolding override_stays
  override_stays-AreDisjoint pts stays [] d = d
  override_stays-AreDisjoint pts stays (o ∷ os) d =
      apply_overrides-AreDisjoint (length pts) pts stays (o ∷ os) refl d

  detect_in-AreDisjoint :
      (pts : List (Point Float)) (overrides : List Override)
      → AreDisjoint (length pts) 0 (spans (detect_in fl params pts overrides).0)
  unfolding detect_in
  detect_in-AreDisjoint [] overrides = tt
  detect_in-AreDisjoint (p ∷ ps) overrides =
      let n = length (p ∷ ps) in
      let at = λ (i : ℕ). get_or (p ∷ ps) i p in
      override_stays-AreDisjoint (p ∷ ps) _ overrides
        (with_arrival-AreDisjoint n at _ _ refl (find_stays-AreDisjoint fl params n at))

  assembled-AreInOrder :
      (n : ℕ) (at : ℕ → Point Float) (stays : List (Stay Float))
      → ((i j : ℕ) → i ≤ j → j < n → (at i).t ≤ (at j).t)
      → AreDisjoint n 0 (spans stays)
      → AreInOrder 0 (assemble_trips fl params n at stays)
  assembled-AreInOrder n at [] ordered d = unfold assemble_trips in tt
  assembled-AreInOrder n at (s ∷ ss) ordered d =
      AreInOrder-mono (at s.last_idx).t 0 _ (omega arith)
        (assemble_trips-AreInOrder fl params n at ordered 0 s ss d)

  detect_in-AreInOrder :
      (pts : List (Point Float)) (overrides : List Override)
      → IsSorted earlier pts
      → AreInOrder 0 (detect_in fl params pts overrides).1
  unfolding detect_in apply_discard_overrides
  detect_in-AreInOrder [] overrides s = tt
  detect_in-AreInOrder (p ∷ ps) overrides s =
      let n = length (p ∷ ps) in
      let at = λ (i : ℕ). get_or (p ∷ ps) i p in
      AreInOrder-keep 0 _ _ (
        assembled-AreInOrder n at _ (λ i j l h. ordered_of_IsSorted (p ∷ ps) p i j s l h)
          (unfold detect_in in (detect_in-AreDisjoint (p ∷ ps) overrides)))

  -- The stays that `detect` returns lie in order, disjoint and within the filtered points, and
  -- its trips follow one another in time, whatever the points and the overrides are.
  pub detect-in_order :
      (points : List (Point Float)) (overrides : List Override)
      → AreDisjoint
          (length (filter_points fl params (pinned_ids (forced_ids overrides)) points))
          0
          (spans (detect fl params points overrides).0)
        × AreInOrder 0 (detect fl params points overrides).1
  unfolding detect
  detect-in_order points overrides =
      let pts = filter_points fl params (pinned_ids (forced_ids overrides)) points in
      (
        detect_in-AreDisjoint pts overrides,
        detect_in-AreInOrder pts overrides
            (filter_points-IsSorted fl params (pinned_ids (forced_ids overrides)) points),
      )

  -- `detect` returns the same for the points in any other order, where they have distinct times.
  pub detect-perm :
      {xs ys : List (Point Float)} (overrides : List Override)
      → Permᴰ xs ys
      → AllApart earlier xs
      → detect fl params xs overrides ≡ detect fl params ys overrides
  unfolding detect
  detect-perm overrides p h =
      ap (λ pts. detect_in fl params pts overrides)
        (filter_points-perm fl params (pinned_ids (forced_ids overrides)) p h)

  detect_in-IsLongEnough :
      (pts : List (Point Float)) (overrides : List Override)
      → All (IsLongEnough fl params) (detect_in fl params pts overrides).1
  unfolding detect_in apply_discard_overrides
  detect_in-IsLongEnough [] overrides = tt
  detect_in-IsLongEnough (p ∷ ps) overrides =
      All-keep _ _ _
        (assemble_trips-IsLongEnough fl params (length (p ∷ ps)) (λ i. get_or (p ∷ ps) i p) _)

  -- Every trip that `detect` returns is as long as the path of its points, and not too short.
  pub detect-IsLongEnough :
      (points : List (Point Float)) (overrides : List Override)
      → All (IsLongEnough fl params) (detect fl params points overrides).1
  unfolding detect
  detect-IsLongEnough points overrides = detect_in-IsLongEnough _ overrides
