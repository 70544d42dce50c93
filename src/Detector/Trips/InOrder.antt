-- ===== src/Detector/Trips/InOrder.antt =====
-- `assemble_trips`: the trips follow one another in time, and each is long enough.
use odograph.Prelude.{
  ℕ, zero, suc, ◌+◌, ◌-◌, ◌≤◌, ◌<◌, ◌≡◌, refl, ap, ◌∙◌, inl, inr, Bool, false, List, [], ◌∷◌, ◌++◌,
  arith, Bool-cases, keep, All, All-append,
}
use odograph.Floats.{Floats}
use odograph.Detector.Model.{Point, Params, Stay, Trip}
use odograph.Detector.Ranges.Spans.{AreDisjoint}
use odograph.Detector.Stays.{slice, segment, path_length}
use odograph.Detector.Stays.Found.{spans}
use odograph.Detector.Trips.{last_point, trip_of, assemble_trips}

-- The trips start at `from` or later, none ends before it starts, and each starts when the one in
-- front of it has ended.
abbrev pub AreInOrder : {F : Type 0} → ℕ → List (Trip F) → Type 0
AreInOrder from [] = Unit
AreInOrder from (trip ∷ trips) =
    (from ≤ trip.started_at) × (trip.started_at ≤ trip.ended_at) × AreInOrder trip.ended_at trips

pub AreInOrder-mono :
    {F : Type 0} (from from' : ℕ) (trips : List (Trip F))
    → from' ≤ from
    → AreInOrder from trips
    → AreInOrder from' trips
AreInOrder-mono from from' [] h o = tt
AreInOrder-mono from from' (t ∷ ts) h o = (omega arith, o.1, o.2)

pub AreInOrder-keep :
    {F : Type 0} (from : ℕ) (p : Trip F → Bool) (trips : List (Trip F))
    → AreInOrder from trips
    → AreInOrder from (keep p trips)
AreInOrder-keep from p [] o = tt
AreInOrder-keep from p (t ∷ ts) o = elim (Bool-cases (p t)) [
  | inl e ↦ rw e (o.0, o.1, AreInOrder-keep t.ended_at p ts o.2)
  | inr e ↦
      rw e (AreInOrder-mono t.ended_at from _ (omega arith) (AreInOrder-keep t.ended_at p ts o.2))
]

last_point-slice :
    {F : Type 0} (at : ℕ → Point F) (first count : ℕ)
    → last_point (at first) (slice at (first + 1) count) ≡ at (first + count)
unfolding last_point slice
last_point-slice at first zero = ap at (omega arith)
last_point-slice at first (suc count) = last_point-slice at (first + 1) count ∙ ap at (omega arith)

module _ (fl : Floats) (params : Params fl.Float) where
  -- A trip that is not too short, over the path of its points.
  pub record IsLongEnough (trip : Trip fl.Float) : Type 0 where
    pub distance : trip.distance_m ≡ path_length fl trip.points
    pub enough : fl.lt trip.distance_m params.min_trip_distance_m ≡ false

module _ (fl : Floats) (params : Params fl.Float) (n : ℕ) (at : ℕ → Point fl.Float) where
  open fl use {Float, lt}

  segment-eq :
      (first last : ℕ)
      → first ≤ last
      → segment fl params n at first last ≡ at first ∷ slice at (first + 1) (last - first)
  unfolding segment slice
  segment-eq first last h =
      let count : last + 1 - first ≡ suc (last - first) = omega arith in rw count

  trip_of-AreInOrder :
      (first last : ℕ) (rest : List (Trip Float))
      → first ≤ last
      → (at first).t ≤ (at last).t
      → AreInOrder (at last).t rest
      → AreInOrder (at first).t (trip_of fl params (segment fl params n at first last) ++ rest)
  unfolding trip_of
  trip_of-AreInOrder first last rest h o r =
      let end : last_point (at first) (slice at (first + 1) (last - first)) ≡ at last =
        last_point-slice at first (last - first) ∙ ap at (omega arith) in
      let seg = at first ∷ slice at (first + 1) (last - first) in
      rw (segment-eq first last h)
        (elim (Bool-cases (lt (path_length fl seg) params.min_trip_distance_m)) [
          | inl short ↦ rw (short, trip_of) (AreInOrder-mono (at last).t (at first).t rest o r)
          | inr long ↦ rw (long, trip_of) (rw end (omega arith, o, r))
        ])

  module _ (ordered : (i j : ℕ) → i ≤ j → j < n → (at i).t ≤ (at j).t) where
    pub assemble_trips-AreInOrder :
        (lo : ℕ) (s : Stay Float) (ss : List (Stay Float))
        → AreDisjoint n lo (spans (s ∷ ss))
        → AreInOrder (at s.last_idx).t (assemble_trips fl params n at (s ∷ ss))
    unfolding assemble_trips
    assemble_trips-AreInOrder lo s [] d = tt
    assemble_trips-AreInOrder lo s (r ∷ ss) d =
        trip_of-AreInOrder s.last_idx r.first_idx _ (omega arith)
          (ordered s.last_idx r.first_idx (omega arith) (omega arith))
          (AreInOrder-mono (at r.last_idx).t (at r.first_idx).t _
            (ordered r.first_idx r.last_idx (omega arith) (omega arith))
            (assemble_trips-AreInOrder (s.last_idx + 1) r ss d.3))

  trip_of-IsLongEnough :
      (seg : List (Point Float)) → All (IsLongEnough fl params) (trip_of fl params seg)
  unfolding trip_of
  trip_of-IsLongEnough [] = tt
  trip_of-IsLongEnough (p ∷ ps) =
      elim (Bool-cases (lt (path_length fl (p ∷ ps)) params.min_trip_distance_m)) [
        | inl short ↦ rw short tt
        | inr long ↦ rw long (record { distance = refl; enough = long }, tt)
      ]

  -- Every assembled trip is as long as its path, and not too short.
  pub assemble_trips-IsLongEnough :
      (stays : List (Stay Float))
      → All (IsLongEnough fl params) (assemble_trips fl params n at stays)
  unfolding assemble_trips
  assemble_trips-IsLongEnough [] = tt
  assemble_trips-IsLongEnough (s ∷ []) = tt
  assemble_trips-IsLongEnough (s ∷ r ∷ ss) =
      All-append (IsLongEnough fl params)
        (trip_of fl params (segment fl params n at s.last_idx r.first_idx)) _
        (trip_of-IsLongEnough _) (assemble_trips-IsLongEnough (r ∷ ss))
