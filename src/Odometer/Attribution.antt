-- ===== src/Odometer/Attribution.antt =====
-- `reconcile`: which trips the distances of its intervals are made of.
use odograph.Prelude.{
  ℕ, ◌+◌, ◌≤◌, ◌<◌, ◌≡◌, refl, ◌∙◌, inl, inr, Bool, true, false, ◌&&◌, List, [], ◌∷◌, map, arith,
  ltb, leb, All-imp, keep-passes, if◌then◌else◌, ltb→lt, Bool-cases, any, keep, All, sorted,
  IsSorted, IsOrder, any-sorted, sorted-IsSorted,
}
use odograph.Prelude.Lists.{count}
use odograph.Floats.{Floats}
use odograph.Odometer.{
  OdometerReading, ReconInterval, recorded_first, is_within, detected_between, interval_of,
  intervals_of, reconcile,
}

-- The instant lies in the interval.
abbrev holds : {F : Type 0} → ℕ → ReconInterval F → Bool
holds t i = is_within i.start i.end t

recorded_first-IsOrder : {F : Type 0} → IsOrder {A = OdometerReading F} recorded_first
unfolding recorded_first
recorded_first-IsOrder = record { total = λ x y h. ground arith; trans = λ x y z h k. ground arith }

abbrev pub count_all {ℓ} : {A : Type ℓ} → (A → Bool) → List (List A) → ℕ
count_all p [] = 0
count_all p (g ∷ gs) = count p g + count_all p gs

module _ (fl : Floats) (trip_starts_dists : List (ℕ × fl.Float)) where
  open fl use {Float, sum}

  -- A reading is recorded at or before the instant, and one after it.
  abbrev pub is_between : ℕ → List (OdometerReading Float) → Bool
  is_between t readings =
      any (λ r. leb r.recorded_at t) readings && any (λ r. ltb t r.recorded_at) readings

  -- The detected distance of each interval is the sum over one group of trips, which start in it.
  abbrev pub AreSums : List (ReconInterval Float) → List (List (ℕ × Float)) → Type 0
  AreSums [] [] = Unit
  AreSums (i ∷ is) (g ∷ gs) =
      (i.detected_m ≡ sum (map (λ t. t.1) g))
      × All (λ t. (i.start ≤ t.0) × (t.0 < i.end)) g
      × AreSums is gs
  AreSums _ _ = true ≡ false

  -- Groups of trips that the detected distances are the sums of, with each trip that starts between
  -- two readings as often as it is given, and no others: of the trips in the groups as many pass a
  -- test as of those trips, whatever the test.
  abbrev pub IsAttributed : List (OdometerReading Float) → List (ReconInterval Float) → Type 0
  IsAttributed readings intervals =
      (gs : List (List (ℕ × Float))) × AreSums intervals gs
      × ((p : ℕ × Float → Bool)
          → count_all p gs
            ≡ count (λ (t : ℕ × Float). p t && is_between t.0 readings) trip_starts_dists)

  none_before :
      (t : ℕ) (r : OdometerReading Float) (rs : List (OdometerReading Float))
      → t < r.recorded_at
      → All {_, 0} (λ q. recorded_first r q ≡ true) rs
      → any (λ q. leb q.recorded_at t) rs ≡ false
  unfolding recorded_first
  none_before t r [] h s = refl
  none_before t r (q ∷ rs) h s = ground (arith, none_before t r rs h s.1)

  recorded_le :
      (r q : OdometerReading Float) → recorded_first r q ≡ true → r.recorded_at ≤ q.recorded_at
  unfolding recorded_first
  recorded_le r q h = ground arith

  count-intervals_of :
      (t : ℕ) (rs : List (OdometerReading Float))
      → IsSorted recorded_first rs
      → count (holds t) (intervals_of fl trip_starts_dists rs) ≡ (if is_between t rs then 1 else 0)
  unfolding intervals_of interval_of is_within
  count-intervals_of t [] s = refl
  count-intervals_of t (r ∷ []) s = ground arith
  count-intervals_of t (r ∷ q ∷ rs) s =
      let rest = count-intervals_of t (q ∷ rs) s.1 in
      let first = recorded_le r q s.0.0 in
      elim (Bool-cases (ltb t q.recorded_at)) [
        | inl early ↦
            let none_later = none_before t q rs (ltb→lt t q.recorded_at early) s.1.0 in
            ground (arith, rest, first, none_later)
        | inr late ↦ ground (arith, rest, first)
      ]

  -- An instant lies in exactly one interval of the result when a reading is recorded at or before
  -- it and a reading after it, and in none otherwise.
  count-reconcile :
      (t : ℕ) (readings : List (OdometerReading Float))
      → count (holds t) (reconcile fl trip_starts_dists readings).intervals
        ≡ (if is_between t readings then 1 else 0)
  unfolding reconcile
  count-reconcile t readings =
      count-intervals_of t (sorted recorded_first readings)
        (sorted-IsSorted recorded_first-IsOrder readings)
      ∙ ground (
        arith,
        any-sorted recorded_first (λ r. leb r.recorded_at t) readings,
        any-sorted recorded_first (λ r. ltb t r.recorded_at) readings,
      )

  -- For each interval the trips that start in it.
  abbrev groups : List (ReconInterval Float) → List (ℕ × Float) → List (List (ℕ × Float))
  groups [] ts = []
  groups (i ∷ is) ts = keep (λ (t : ℕ × Float). holds t.0 i) ts ∷ groups is ts

  intervals_of-AreSums :
      (rs : List (OdometerReading Float))
      → AreSums
          (intervals_of fl trip_starts_dists rs)
          (groups (intervals_of fl trip_starts_dists rs) trip_starts_dists)
  unfolding intervals_of interval_of detected_between is_within
  intervals_of-AreSums [] = tt
  intervals_of-AreSums (r ∷ []) = tt
  intervals_of-AreSums (r ∷ q ∷ rs) = (
    refl,
    All-imp _ _ _ (λ (t : ℕ × Float) h. (ground (arith, h), ground (arith, h)))
        (keep-passes (λ (t : ℕ × Float). is_within r.recorded_at q.recorded_at t.0)
          trip_starts_dists),
    intervals_of-AreSums (q ∷ rs),
  )

  count_all-nil :
      (p : ℕ × Float → Bool) (is : List (ReconInterval Float)) → count_all p (groups is []) ≡ 0
  count_all-nil p [] = refl
  count_all-nil p (i ∷ is) = omega (arith, count_all-nil p is)

  -- One more trip is one more in each group of an interval that holds it.
  count_all-cons :
      (p : ℕ × Float → Bool) (is : List (ReconInterval Float)) (t : ℕ × Float)
      (ts : List (ℕ × Float))
      → count_all p (groups is (t ∷ ts))
        ≡ (if p t then count (holds t.0) is else 0) + count_all p (groups is ts)
  count_all-cons p [] t ts = ground arith
  count_all-cons p (i ∷ is) t ts = ground (arith, count_all-cons p is t ts)

  count_all-groups :
      (p : ℕ × Float → Bool) (b : ℕ → Bool) (is : List (ReconInterval Float))
      (ts : List (ℕ × Float))
      → ((t : ℕ) → count (holds t) is ≡ (if b t then 1 else 0))
      → count_all p (groups is ts) ≡ count (λ (t : ℕ × Float). p t && b t.0) ts
  count_all-groups p b is [] h = count_all-nil p is
  count_all-groups p b is (t ∷ ts) h =
      ground (arith, count_all-cons p is t ts, count_all-groups p b is ts h, h t.0)

  -- The detected distances of the intervals are sums over groups of trips, one group for each, whose
  -- trips start at or after the start of the interval and before its end. Each trip that starts at or
  -- after some reading and before another is in the groups as often as it is given, and no other trip
  -- is in one: none is counted twice, and none between readings is lost.
  pub reconcile-IsAttributed :
      (readings : List (OdometerReading Float))
      → IsAttributed readings (reconcile fl trip_starts_dists readings).intervals
  unfolding reconcile
  reconcile-IsAttributed readings =
      let is = (reconcile fl trip_starts_dists readings).intervals in
      (
        groups is trip_starts_dists,
        intervals_of-AreSums (sorted recorded_first readings),
        λ p.
            count_all-groups p (λ t. is_between t readings) is trip_starts_dists
              (λ t. count-reconcile t readings),
      )
