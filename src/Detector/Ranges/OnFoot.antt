-- ===== src/Detector/Ranges/OnFoot.antt =====
-- `_on_foot_ranges` finds spans at walking pace, and covers every sustained walk.
use odograph.Prelude.{
  ℕ, zero, suc, ◌+◌, ◌-◌, ◌≤◌, ◌<◌, max, ◌≡◌, ◌⊎◌, inl, inr, true, false, ◌&&◌, arith, ltb, leb,
  ◌==◌, if◌then◌else◌, ltb→lt, lt→ltb, leb→le, ==_iff, Bool-cases, All,
}
use mathlib.Core.Path.{subst}
use odograph.Floats.{Floats}
use odograph.Detector.Model.{Point, Params, dist}
use odograph.Detector.Ranges.{
  lasts, trim_window, leg_speed, is_driving, walk_loop, last_walking_point, on_foot_loop,
  on_foot_ranges,
}
use odograph.Detector.Ranges.Spans.{AreDisjoint, AreDisjoint-mono, covers}

module _ (fl : Floats) (params : Params fl.Float) (n : ℕ) (at : ℕ → Point fl.Float) where
  open fl use {Float, of_nat, add, le, lt}

  abbrev speed : ℕ → Float
  speed = leg_speed fl params n at

  abbrev walk : ℕ → ℕ → ℕ × Float → ℕ
  walk = walk_loop fl params n at

  abbrev last_walk : ℕ → ℕ → ℕ → ℕ
  last_walk = last_walking_point fl params n at

  -- A leg that goes on in time, and is not over both speed limits.
  pub record IsLeg (k : ℕ) : Type 0 where
    pub moves_on : (at (k - 1)).t < (at k).t
    pub holds_pace :
        (lt params.walk_max_speed_ms (leg_speed fl params n at k)
          && lt params.walk_leg_max_speed_ms (leg_speed fl params n at k))
        ≡ false

  -- The window that the scan carries past `j`.
  abbrev window_at : ℕ → ℕ × Float → ℕ × Float
  window_at j w = trim_window fl params n at n j w.0 (add w.1 (dist fl (at (j - 1)) (at j)))

  walk_bounds : (f j : ℕ) (w : ℕ × Float) → j ≤ n → (j ≤ walk f j w) × (walk f j w ≤ n)
  unfolding walk_loop
  walk_bounds zero j w h = omega arith
  walk_bounds (suc f) j w h = ground (arith, walk_bounds f (j + 1) (window_at j w))

  leg_here : (f j : ℕ) (w : ℕ × Float) → j < walk (suc f) j w → IsLeg j
  unfolding walk_loop is_driving
  leg_here f j w l = record { moves_on = ground arith; holds_pace = ground arith }

  walk_legs : (f j : ℕ) (w : ℕ × Float) (k : ℕ) → j ≤ k → k < walk f j w → IsLeg k
  unfolding walk_loop
  walk_legs zero j w k h l = absurd (omega arith)
  walk_legs (suc f) j w k h l = elim (Bool-cases (j == k)) [
    | inl e ↦ let same = (==_iff j k).0 e in subst IsLeg same (leg_here f j w (ground arith))
    | inr e ↦ walk_legs f (j + 1) (window_at j w) k (ground arith) (ground arith)
  ]

  -- A leg that ends a span.
  Stops : ℕ → Type 0
  Stops k = ((at k).t ≤ (at (k - 1)).t) ⊎ (lt params.walk_max_speed_ms (speed k) ≡ true)

  walk-Stops : (f j : ℕ) (w : ℕ × Float) → n ≤ j + f → walk f j w < n → Stops (walk f j w)
  unfolding walk_loop is_driving Stops
  walk-Stops zero j w h l = absurd (omega arith)
  walk-Stops (suc f) j w h l = ground (arith, walk-Stops f (j + 1) (window_at j w))

  last_walk_bounds :
      (f first last : ℕ)
      → first ≤ last
      → (first ≤ last_walk f first last) × (last_walk f first last ≤ last)
  unfolding last_walking_point
  last_walk_bounds zero first last h = omega arith
  last_walk_bounds (suc f) first last h = ground (arith, last_walk_bounds f first (last - 1))

  last_walk_slow :
      (f first last : ℕ)
      → last ≤ first + f
      → first < last_walk f first last
      → le (speed (last_walk f first last)) params.walk_max_speed_ms ≡ true
  unfolding last_walking_point
  last_walk_slow zero first last h l = absurd (omega arith)
  last_walk_slow (suc f) first last h l = ground (arith, last_walk_slow f first (last - 1))

  last_walk_reaches :
      (f first last k : ℕ)
      → first < k
      → k ≤ last
      → le (speed k) params.walk_max_speed_ms ≡ true
      → k ≤ last_walk f first last
  unfolding last_walking_point
  last_walk_reaches zero first last k a b s = b
  last_walk_reaches (suc f) first last k a b s = elim (Bool-cases (k == last)) [
    | inl e ↦
        subst
          (λ m. k ≤ (
            if ltb first m
            then (if le (speed m) params.walk_max_speed_ms then m else last_walk f first (m - 1))
            else m))
          ((==_iff k last).0 e) (ground arith)
    | inr e ↦ ground (arith, last_walk_reaches f first (last - 1) k)
  ]

  -- A span: it lasts, each of its legs goes on at a pace below the limits, and the last is slow.
  pub record IsWalk (r : ℕ × ℕ) : Type 0 where
    pub lasts_long : lasts params.stay_min_duration (at r.0) (at r.1) ≡ true
    pub legs : (k : ℕ) → r.0 < k → k ≤ r.1 → IsLeg k
    pub ends_slow : r.0 < r.1 → le (leg_speed fl params n at r.1) params.walk_max_speed_ms ≡ true

  abbrev start : ℕ → ℕ × Float
  start i = (i, of_nat 0)

  abbrev stop_of : ℕ → ℕ
  stop_of i = walk n (i + 1) (start i)

  abbrev end_of : ℕ → ℕ
  end_of i = last_walk n i (stop_of i - 1)

  end_bounds : (i : ℕ) → i + 1 < n → (i ≤ end_of i) × (end_of i < stop_of i) × (stop_of i ≤ n)
  end_bounds i h =
      let stop = walk_bounds n (i + 1) (start i) (omega arith) in
      let back = last_walk_bounds n i (stop_of i - 1) (omega arith) in
      (omega arith, omega arith, omega arith)

  IsWalk-at :
      (i : ℕ)
      → i + 1 < n
      → lasts params.stay_min_duration (at i) (at (end_of i)) ≡ true
      → IsWalk (i, end_of i)
  IsWalk-at i h long =
      let bounds = end_bounds i h in
      record {
        lasts_long = long;
        legs = λ k a b. walk_legs n (i + 1) (start i) k (omega arith) (omega arith);
        ends_slow = λ l. last_walk_slow n i (stop_of i - 1) (omega arith) l;
      }

  on_foot_loop-AreDisjoint : (f i : ℕ) → AreDisjoint n i (on_foot_loop fl params n at f i)
  unfolding on_foot_loop
  on_foot_loop-AreDisjoint zero i = tt
  on_foot_loop-AreDisjoint (suc f) i =
      let rest = on_foot_loop-AreDisjoint f (max (stop_of i) (i + 1)) in
      elim (Bool-cases (ltb (i + 1) n)) [
        | inl e ↦
            let bounds = end_bounds i (ltb→lt (i + 1) n e) in
            elim (Bool-cases (lasts params.stay_min_duration (at i) (at (end_of i)))) [
              | inl long ↦
                  rw (e, long)
                    (
                      omega arith,
                      bounds.0,
                      omega arith,
                      AreDisjoint-mono n (max (stop_of i) (i + 1)) (end_of i + 1) _ (omega arith)
                          rest,
                    )
              | inr short ↦
                  rw (e, short)
                    (AreDisjoint-mono n (max (stop_of i) (i + 1)) i _ (omega arith) rest)
            ]
        | inr e ↦ rw e tt
      ]

  on_foot_loop-IsWalk : (f i : ℕ) → All IsWalk (on_foot_loop fl params n at f i)
  unfolding on_foot_loop
  on_foot_loop-IsWalk zero i = tt
  on_foot_loop-IsWalk (suc f) i =
      let rest = on_foot_loop-IsWalk f (max (stop_of i) (i + 1)) in
      elim (Bool-cases (ltb (i + 1) n)) [
        | inl e ↦ elim (Bool-cases (lasts params.stay_min_duration (at i) (at (end_of i)))) [
          | inl long ↦ rw (e, long) (IsWalk-at i (ltb→lt (i + 1) n e) long, rest)
          | inr short ↦ rw (e, short) rest
        ]
        | inr e ↦ rw e tt
      ]

  -- A walk from `a` to `b` that no float test puts above walking pace.
  pub record IsSustained (a b : ℕ) : Type 0 where
    pub in_range : (a < b) × (b < n)
    pub lasts_long : lasts params.stay_min_duration (at a) (at b) ≡ true
    pub moves_on : (k : ℕ) → a < k → k ≤ b → (at (k - 1)).t < (at k).t
    pub not_fast :
        (k : ℕ) → a < k → k ≤ b → lt params.walk_max_speed_ms (leg_speed fl params n at k) ≡ false
    pub slow :
        (k : ℕ) → a < k → k ≤ b → le (leg_speed fl params n at k) params.walk_max_speed_ms ≡ true

  module _ {a b : ℕ} (s : IsSustained a b)
      (ordered : (i j : ℕ) → i ≤ j → j < n → (at i).t ≤ (at j).t) where
    not_stopped : (k : ℕ) → a < k → k ≤ b → ¬ (Stops k)
    unfolding Stops
    not_stopped k l h stop = ground (arith, s.moves_on k l h, s.not_fast k l h)

    stop_beyond : (i : ℕ) → i + 1 < n → i ≤ a → a < stop_of i → b < stop_of i
    stop_beyond i h l m = elim (Bool-cases (leb (stop_of i) b)) [
      | inl early ↦
          let range = s.in_range in
          let stopped = leb→le (stop_of i) b early in
          absurd (
            not_stopped (stop_of i) m stopped
              (walk-Stops n (i + 1) (start i) (omega arith) (omega arith)))
      | inr late ↦ ground arith
    ]

    lasts_from :
        (i : ℕ)
        → i + 1 < n
        → i ≤ a
        → b ≤ end_of i
        → lasts params.stay_min_duration (at i) (at (end_of i)) ≡ true
    unfolding lasts
    lasts_from i h l r =
        let bounds = end_bounds i h in
        let front = ordered i a l (omega (arith, s.in_range)) in
        let back = ordered b (end_of i) r (omega arith) in ground (arith, s.lasts_long)

    on_foot_loop-covers :
        (f i k : ℕ)
        → n ≤ i + f
        → i ≤ a
        → a ≤ k
        → k ≤ b
        → covers k (on_foot_loop fl params n at f i) ≡ true
    unfolding on_foot_loop
    on_foot_loop-covers zero i k x y u v = absurd (omega (arith, s.in_range))
    on_foot_loop-covers (suc f) i k x y u v =
        let range = s.in_range in
        let inside : ltb (i + 1) n ≡ true = lt→ltb (i + 1) n (omega arith) in
        let bounds = end_bounds i (omega arith) in
        elim (Bool-cases (ltb a (stop_of i))) [
          | inl m ↦
              let beyond = stop_beyond i (omega arith) y (ltb→lt a (stop_of i) m) in
              let reach =
                last_walk_reaches n i (stop_of i - 1) b (omega arith) (omega arith)
                  (s.slow b range.0 (omega arith)) in
              rw (inside, lasts_from i (omega arith) y reach) (ground arith)
          | inr m ↦
              let later =
                on_foot_loop-covers f (max (stop_of i) (i + 1)) k (omega arith) (ground arith) u
                  v in
              elim (Bool-cases (lasts params.stay_min_duration (at i) (at (end_of i)))) [
                | inl long ↦ rw (inside, long) (ground (arith, later))
                | inr short ↦ rw (inside, short) later
              ]
        ]

    -- In a track in time order, `_on_foot_ranges` covers every sustained walk.
    pub on_foot_ranges-covers :
        (k : ℕ) → a ≤ k → k ≤ b → covers k (on_foot_ranges fl params n at) ≡ true
    unfolding on_foot_ranges
    on_foot_ranges-covers k u v = on_foot_loop-covers n 0 k (omega arith) (omega arith) u v

  -- `_on_foot_ranges` returns ranges in order, disjoint and in bounds.
  pub on_foot_ranges-AreDisjoint : AreDisjoint n 0 (on_foot_ranges fl params n at)
  unfolding on_foot_ranges
  on_foot_ranges-AreDisjoint = on_foot_loop-AreDisjoint n 0

  -- Each range that `_on_foot_ranges` returns is a walk: it lasts long enough, every leg goes
  -- forward in time and not over both speed limits, and the last leg is at walking pace.
  pub on_foot_ranges-IsWalk : All IsWalk (on_foot_ranges fl params n at)
  unfolding on_foot_ranges
  on_foot_ranges-IsWalk = on_foot_loop-IsWalk n 0
