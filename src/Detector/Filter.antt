-- ===== src/Detector/Filter.antt =====
-- `filter_points` of app/detector/core.py: the accuracy gate and the teleport gate.
pub mod Gates
use odograph.Prelude.{
  ℕ, Bool, true, false, List, [], ◌∷◌, Option, none, some, leb, elem, sorted, if◌then◌else◌, not,
}
use odograph.Floats.{Floats}
use odograph.Detector.Model.{Point, Params, dist}

-- The sort key of the points.
unfoldable pub earlier : {F : Type 0} → Point F → Point F → Bool
earlier a b = leb a.t b.t

module _ (fl : Floats) (params : Params fl.Float) (pinned_ids : List ℕ) where
  open fl use {Float, div, lt, seconds}

  unfoldable pub is_pinned : Point Float → Bool
  is_pinned p = elim p.id [ none ↦ false | some id ↦ elem id pinned_ids ]

  unfoldable pub is_inaccurate : Point Float → Bool
  is_inaccurate p = elim p.accuracy_m [ none ↦ false | some a ↦ lt params.max_accuracy_m a ]

  unfoldable pub is_teleport : Point Float → Point Float → Bool
  is_teleport q p = lt params.max_speed_ms (div (dist fl q p) (seconds q.t p.t))

  -- The tests against the last kept point.
  follows : Option (Point Float) → Point Float → Bool
  follows none p = true
  follows (some q) p = if leb p.t q.t then false else not (is_teleport q p)

  accepts : Option (Point Float) → Point Float → Bool
  unfolding follows
  accepts last p = if is_pinned p then true else if is_inaccurate p then false else follows last p

  -- The loop over the sorted points; `last` is `kept[-1]`.
  filter_loop : Option (Point Float) → List (Point Float) → List (Point Float)
  filter_loop last [] = []
  filter_loop last (p ∷ ps) =
      let rest = filter_loop (if accepts last p then some p else last) ps in
      if accepts last p then p ∷ rest else rest

  unfoldable pub filter_points : List (Point Float) → List (Point Float)
  unfolding filter_loop accepts
  filter_points points = filter_loop none (sorted earlier points)
