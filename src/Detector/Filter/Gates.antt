-- ===== src/Detector/Filter/Gates.antt =====
-- What the points that `filter_points` keeps satisfy, and which points it never drops.
use odograph.Prelude.{
  ℕ, ◌<◌, ◌≡◌, refl, ap, ◌∙◌, ◌⊎◌, inl, inr, true, false, Option, none, some, List, [], ◌∷◌, arith,
  Bool-cases, keep, All, sorted, IsSorted, IsOrder, sorted-IsSorted,
}
use mathlib.Core.List.{Permᴰ}
use odograph.Prelude.Sorting.Stable.{sorted-of_IsSorted, sorted-perm_eq, AllApart}
use odograph.Floats.{Floats}
use odograph.Detector.Model.{Point, Params}
use odograph.Detector.Filter.{
  earlier, is_pinned, is_inaccurate, is_teleport, accepts, filter_loop, filter_points,
}

pub earlier-IsOrder : {F : Type 0} → IsOrder {A = Point F} earlier
unfolding earlier
earlier-IsOrder = record { total = λ x y h. ground arith; trans = λ x y z h k. ground arith }

module _ (fl : Floats) (params : Params fl.Float) (pinned_ids : List ℕ) where
  open fl use {Float}

  -- `p` comes strictly after the kept point in front of it, and not by a teleport.
  abbrev pub Follows : Option (Point Float) → Point Float → Type 0
  Follows none p = Unit
  Follows (some q) p = (q.t < p.t) × (is_teleport fl params pinned_ids q p ≡ false)

  -- Every point is pinned, or passes both gates.
  abbrev pub IsGated : Option (Point Float) → List (Point Float) → Type 0
  IsGated last [] = Unit
  IsGated last (p ∷ ps) =
      ((is_pinned fl params pinned_ids p ≡ true)
        ⊎ ((is_inaccurate fl params pinned_ids p ≡ false) × Follows last p))
      × IsGated (some p) ps

  gate_of_accepts :
      (last : Option (Point Float)) (p : Point Float)
      → accepts fl params pinned_ids last p ≡ true
      → (is_pinned fl params pinned_ids p ≡ true)
        ⊎ ((is_inaccurate fl params pinned_ids p ≡ false) × Follows last p)
  unfolding accepts
  gate_of_accepts none p h = ground arith
  gate_of_accepts (some q) p h = ground arith

  filter_loop-IsGated :
      (last : Option (Point Float)) (ps : List (Point Float))
      → IsGated last (filter_loop fl params pinned_ids last ps)
  unfolding filter_loop
  filter_loop-IsGated last [] = tt
  filter_loop-IsGated last (p ∷ ps) = elim (Bool-cases (accepts fl params pinned_ids last p)) [
    | inl e ↦ rw e (gate_of_accepts last p e, filter_loop-IsGated (some p) ps)
    | inr e ↦ rw e (filter_loop-IsGated last ps)
  ]

  accepts_pinned :
      (last : Option (Point Float)) (p : Point Float)
      → is_pinned fl params pinned_ids p ≡ true
      → accepts fl params pinned_ids last p ≡ true
  unfolding accepts
  accepts_pinned last p h = rw h

  keep-pinned :
      (last : Option (Point Float)) (ps : List (Point Float))
      → keep (is_pinned fl params pinned_ids) (filter_loop fl params pinned_ids last ps)
        ≡ keep (is_pinned fl params pinned_ids) ps
  unfolding filter_loop
  keep-pinned last [] = refl
  keep-pinned last (p ∷ ps) =
      ground (arith, accepts_pinned last p, keep-pinned (some p) ps, keep-pinned last ps)

  -- Of the points that `filter_points` keeps, each is pinned, or it is accurate enough, strictly
  -- later than the kept point in front of it, and no teleport from there.
  pub filter_points-IsGated :
      (points : List (Point Float)) → IsGated none (filter_points fl params pinned_ids points)
  unfolding filter_points
  filter_points-IsGated points = filter_loop-IsGated none (sorted earlier points)

  -- No pinned point is dropped: the pinned points of the result are those of the input, in time
  -- order and each as often, whatever the other points are.
  pub filter_points-pinned :
      (points : List (Point Float))
      → keep (is_pinned fl params pinned_ids) (filter_points fl params pinned_ids points)
        ≡ keep (is_pinned fl params pinned_ids) (sorted earlier points)
  unfolding filter_points
  filter_points-pinned points = keep-pinned none (sorted earlier points)

  filter_loop-All :
      (P : Point Float → Type 0) (last : Option (Point Float)) (ps : List (Point Float))
      → All P ps
      → All P (filter_loop fl params pinned_ids last ps)
  unfolding filter_loop
  filter_loop-All P last [] h = tt
  filter_loop-All P last (p ∷ ps) h = elim (Bool-cases (accepts fl params pinned_ids last p)) [
    | inl e ↦ rw e (h.0, filter_loop-All P (some p) ps h.1)
    | inr e ↦ rw e (filter_loop-All P last ps h.1)
  ]

  filter_loop-IsSorted :
      (last : Option (Point Float)) (ps : List (Point Float))
      → IsSorted earlier ps
      → IsSorted earlier (filter_loop fl params pinned_ids last ps)
  unfolding filter_loop
  filter_loop-IsSorted last [] h = tt
  filter_loop-IsSorted last (p ∷ ps) h = elim (Bool-cases (accepts fl params pinned_ids last p)) [
    | inl e ↦ rw e (
      filter_loop-All (λ q. earlier p q ≡ true) (some p) ps h.0,
      filter_loop-IsSorted (some p) ps h.1,
    )
    | inr e ↦ rw e (filter_loop-IsSorted last ps h.1)
  ]

  -- The kept points are in time order.
  pub filter_points-IsSorted :
      (points : List (Point Float)) → IsSorted earlier (filter_points fl params pinned_ids points)
  unfolding filter_points
  filter_points-IsSorted points =
      filter_loop-IsSorted none (sorted earlier points) (sorted-IsSorted earlier-IsOrder points)

  accepts_of_gate :
      (last : Option (Point Float)) (p : Point Float)
      → (is_pinned fl params pinned_ids p ≡ true)
        ⊎ ((is_inaccurate fl params pinned_ids p ≡ false) × Follows last p)
      → accepts fl params pinned_ids last p ≡ true
  unfolding accepts
  accepts_of_gate none p h = ground arith
  accepts_of_gate (some q) p h = ground arith

  filter_loop-of_IsGated :
      (last : Option (Point Float)) (ps : List (Point Float))
      → IsGated last ps
      → filter_loop fl params pinned_ids last ps ≡ ps
  unfolding filter_loop
  filter_loop-of_IsGated last [] h = refl
  filter_loop-of_IsGated last (p ∷ ps) h =
      rw (accepts_of_gate last p h.0) (ap (◌∷◌ p) (filter_loop-of_IsGated (some p) ps h.1))

  -- A track that passes the gates in time order comes back whole.
  pub filter_points-of_IsGated :
      (points : List (Point Float))
      → IsGated none (sorted earlier points)
      → filter_points fl params pinned_ids points ≡ sorted earlier points
  unfolding filter_points
  filter_points-of_IsGated points h = filter_loop-of_IsGated none (sorted earlier points) h

  -- To filter what is filtered changes nothing.
  pub filter_points-filter_points :
      (points : List (Point Float))
      → filter_points fl params pinned_ids (filter_points fl params pinned_ids points)
        ≡ filter_points fl params pinned_ids points
  filter_points-filter_points points =
      let once = filter_points fl params pinned_ids points in
      let same = sorted-of_IsSorted earlier once (filter_points-IsSorted points) in
      filter_points-of_IsGated once (rw same (filter_points-IsGated points)) ∙ same

  -- The order in which points with distinct times arrive does not matter.
  pub filter_points-perm :
      {xs ys : List (Point Float)}
      → Permᴰ xs ys
      → AllApart earlier xs
      → filter_points fl params pinned_ids xs ≡ filter_points fl params pinned_ids ys
  unfolding filter_points
  filter_points-perm p h =
      ap (filter_loop fl params pinned_ids none) (sorted-perm_eq earlier-IsOrder p h)
