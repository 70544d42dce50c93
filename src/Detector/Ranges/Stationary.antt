-- ===== src/Detector/Ranges/Stationary.antt =====
-- `_stationary_ranges` finds the clusters around their anchors, and misses none.
use odograph.Prelude.{
  ℕ, zero, suc, ◌+◌, ◌-◌, ◌≤◌, ◌<◌, ◌≡◌, sym, ◌∙◌, inl, inr, Bool, true, false, arith, ltb, leb,
  ◌==◌, ltb→lt, lt→ltb, leb→le, ==_iff, Bool-cases, All,
}
use mathlib.Core.Path.{subst}
use mathlib.Core.Bool.{false≢true}
use odograph.Floats.{Floats}
use odograph.Detector.Model.{Point, Params}
use odograph.Detector.Ranges.{lasts, is_near, near_end, stationary_loop, stationary_ranges}
use odograph.Detector.Ranges.Spans.{AreDisjoint, AreDisjoint-mono, covers}

module _ (fl : Floats) (params : Params fl.Float) (n : ℕ) (at : ℕ → Point fl.Float) where
  abbrev near : ℕ → ℕ → Bool
  near = is_near fl params n at

  abbrev end_of : ℕ → ℕ → ℕ → ℕ
  end_of = near_end fl params n at

  near_end_bounds : (f i j : ℕ) → j ≤ n → (j ≤ end_of f i j) × (end_of f i j ≤ n)
  unfolding near_end
  near_end_bounds zero i j h = omega arith
  near_end_bounds (suc f) i j h = ground (arith, near_end_bounds f i (j + 1))

  near_end_near : (f i j k : ℕ) → j ≤ k → k < end_of f i j → near i k ≡ true
  unfolding near_end
  near_end_near zero i j k h l = absurd (omega arith)
  near_end_near (suc f) i j k h l = ground (arith, near_end_near f i (j + 1) k)

  near_end_stops : (f i j : ℕ) → n ≤ j + f → end_of f i j < n → near i (end_of f i j) ≡ false
  unfolding near_end
  near_end_stops zero i j h l = absurd (omega arith)
  near_end_stops (suc f) i j h l = ground (arith, near_end_stops f i (j + 1))

  abbrev last_of : ℕ → ℕ
  last_of i = end_of n i (i + 1) - 1

  stationary_loop-AreDisjoint : (f i : ℕ) → AreDisjoint n i (stationary_loop fl params n at f i)
  unfolding stationary_loop
  stationary_loop-AreDisjoint zero i = tt
  stationary_loop-AreDisjoint (suc f) i = elim (Bool-cases (ltb i n)) [
    | inl e ↦
        let bounds = near_end_bounds n i (i + 1) (omega (arith, ltb→lt i n e)) in
        elim (Bool-cases (lasts params.stay_min_duration (at i) (at (last_of i)))) [
          | inl long ↦
              rw (e, long)
                (
                  omega arith,
                  omega arith,
                  omega arith,
                  AreDisjoint-mono n (end_of n i (i + 1)) (last_of i + 1) _ (omega arith)
                      (stationary_loop-AreDisjoint f (end_of n i (i + 1))),
                )
          | inr short ↦
              rw (e, short)
                (AreDisjoint-mono n (i + 1) i _ (omega arith)
                  (stationary_loop-AreDisjoint f (i + 1)))
        ]
    | inr e ↦ rw e tt
  ]

  -- A cluster: it lasts, and its points are near its first one, up to the first that is not.
  pub record IsCluster (r : ℕ × ℕ) : Type 0 where
    pub lasts_long : lasts params.stay_min_duration (at r.0) (at r.1) ≡ true
    pub is_close : (k : ℕ) → r.0 < k → k ≤ r.1 → is_near fl params n at r.0 k ≡ true
    pub is_maximal : r.1 + 1 < n → is_near fl params n at r.0 (r.1 + 1) ≡ false

  IsCluster-at :
      (i : ℕ)
      → i < n
      → lasts params.stay_min_duration (at i) (at (last_of i)) ≡ true
      → IsCluster (i, last_of i)
  IsCluster-at i h long =
      let bounds = near_end_bounds n i (i + 1) (omega arith) in
      let same : last_of i + 1 ≡ end_of n i (i + 1) = omega arith in
      record {
        lasts_long = long;
        is_close = λ k a b. near_end_near n i (i + 1) k (omega arith) (omega arith);
        is_maximal = rw same (near_end_stops n i (i + 1) (omega arith));
      }

  stationary_loop-IsCluster : (f i : ℕ) → All IsCluster (stationary_loop fl params n at f i)
  unfolding stationary_loop
  stationary_loop-IsCluster zero i = tt
  stationary_loop-IsCluster (suc f) i = elim (Bool-cases (ltb i n)) [
    | inl e ↦ elim (Bool-cases (lasts params.stay_min_duration (at i) (at (last_of i)))) [
      | inl long ↦
          rw (e, long)
            (IsCluster-at i (ltb→lt i n e) long, stationary_loop-IsCluster f (end_of n i (i + 1)))
      | inr short ↦ rw (e, short) (stationary_loop-IsCluster f (i + 1))
    ]
    | inr e ↦ rw e tt
  ]

  stationary_loop_complete :
      (f i k : ℕ)
      → n ≤ i + f
      → i ≤ k
      → k < n
      → covers k (stationary_loop fl params n at f i) ≡ false
      → lasts params.stay_min_duration (at k) (at (last_of k)) ≡ false
  unfolding stationary_loop
  stationary_loop_complete zero i k a b c h = absurd (omega arith)
  stationary_loop_complete (suc f) i k a b c h =
      let inside : ltb i n ≡ true = lt→ltb i n (omega arith) in
      let bounds = near_end_bounds n i (i + 1) (omega arith) in
      elim (Bool-cases (lasts params.stay_min_duration (at i) (at (last_of i)))) [
        | inl long ↦
            stationary_loop_complete f (end_of n i (i + 1)) k (omega arith)
              (ground (arith, (rw (inside, long) at h))) c
              (ground (arith, (rw (inside, long) at h)))
        | inr short ↦ elim (Bool-cases (i == k)) [
          | inl e ↦
              subst (λ m. lasts params.stay_min_duration (at m) (at (last_of m)) ≡ false)
                ((==_iff i k).0 e) short
          | inr e ↦
              stationary_loop_complete f (i + 1) k (omega arith) (ground arith) c
                (rw (inside, short) at h)
        ]
      ]

  -- `_stationary_ranges` returns ranges in order, disjoint and in bounds.
  pub stationary_ranges-AreDisjoint : AreDisjoint n 0 (stationary_ranges fl params n at)
  unfolding stationary_ranges
  stationary_ranges-AreDisjoint = stationary_loop-AreDisjoint n 0

  -- Each range that `_stationary_ranges` returns is a cluster around its first point.
  pub stationary_ranges-IsCluster : All IsCluster (stationary_ranges fl params n at)
  unfolding stationary_ranges
  stationary_ranges-IsCluster = stationary_loop-IsCluster n 0

  -- No cluster is missed: in a track in time order, a point that no range covers does not last
  -- long with any run of points near it that follows it.
  pub stationary_ranges_complete :
      (k j : ℕ)
      → ((a b : ℕ) → a ≤ b → b < n → (at a).t ≤ (at b).t)
      → k ≤ j
      → j < n
      → ((m : ℕ) → k < m → m ≤ j → is_near fl params n at k m ≡ true)
      → covers k (stationary_ranges fl params n at) ≡ false
      → lasts params.stay_min_duration (at k) (at j) ≡ false
  unfolding stationary_ranges lasts
  stationary_ranges_complete k j ordered a b close h =
      let bounds = near_end_bounds n k (k + 1) (omega arith) in
      let reach : j ≤ last_of k = elim (Bool-cases (leb (end_of n k (k + 1)) j)) [
        | inl early ↦
            let stop = leb→le (end_of n k (k + 1)) j early in
            let far = near_end_stops n k (k + 1) (omega arith) (omega arith) in
            let near_it = close (end_of n k (k + 1)) (omega arith) stop in
            absurd (false≢true (sym far ∙ near_it))
        | inr late ↦ ground arith
      ] in
      let later = ordered j (last_of k) reach (omega arith) in
      ground
        (arith, stationary_loop_complete n 0 k (omega arith) (omega arith) (omega arith) h, later)
