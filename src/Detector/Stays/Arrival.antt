-- ===== src/Detector/Stays/Arrival.antt =====
-- `trailing_arrival_stay`: what a provisional stay is.
use odograph.Prelude.{
  ℕ, zero, suc, ◌+◌, ◌-◌, ◌≤◌, ◌<◌, ◌≡◌, refl, inl, inr, Bool, true, false, Option, none, some,
  List, arith, ◌==◌, ==_iff, Bool-cases, Option-cases, any, all,
}
use mathlib.Core.Path.{subst}
use odograph.Floats.{Floats}
use odograph.Detector.Model.{Point, Params, Stay, dist}
use odograph.Detector.Stays.{
  segment, build_stay, never_left, last?, range_from, all_near, find_anchor, is_timely, has_stayed,
  arrival_stay, has_trigger, arrival_at, start_idx, arrival_found, trailing_arrival_stay,
}

all-range_from :
    (p : ℕ → Bool) (first count j : ℕ)
    → all p (range_from first count) ≡ true
    → first ≤ j
    → j < first + count
    → p j ≡ true
unfolding range_from
all-range_from p first zero j h a b = absurd (omega arith)
all-range_from p first (suc count) j h a b = elim (Bool-cases (first == j)) [
  | inl e ↦ subst (λ i. p i ≡ true) ((==_iff first j).0 e) (ground arith)
  | inr e ↦ all-range_from p (first + 1) count j (ground arith) (ground arith) (omega arith)
]

module _ (fl : Floats) (params : Params fl.Float) (n : ℕ) (at : ℕ → Point fl.Float) where
  open fl use {Float, le, lt}

  -- The stays end in front of the index.
  abbrev pub AreBefore : List (Stay Float) → ℕ → Type 0
  AreBefore stays i = elim (last? stays) [
    | none ↦ Unit
    | some s ↦ (s.last_idx < i) × (never_left fl params n at s i ≡ false)
  ]

  -- A provisional stay behind `stays`: it reaches the end of the track near its first point, lasts
  -- as long as an arrival and not as long as a stay, has a trigger, and is away from the last stay.
  pub record IsArrival (stays : List (Stay fl.Float)) (s : Stay fl.Float) : Type 0 where
    pub in_range : (s.first_idx < s.last_idx) × (s.last_idx + 1 ≡ n)
    pub is_provisional : s.provisional ≡ true
    pub started : s.started_at ≡ (at s.first_idx).t
    pub ended : s.ended_at ≡ (at s.last_idx).t
    pub is_close :
        (j : ℕ)
        → s.first_idx < j
        → j ≤ s.last_idx
        → fl.le (dist fl (at s.first_idx) (at j)) params.stay_radius_m ≡ true
    pub duration :
        (s.started_at + params.arrival_min_duration ≤ s.ended_at)
        × (s.ended_at < s.started_at + params.stay_min_duration)
    pub is_triggered :
        any (has_trigger fl params n at) (segment fl params n at s.first_idx s.last_idx) ≡ true
    pub is_behind : AreBefore stays s.first_idx

  find_anchor_sound :
      (f i k : ℕ)
      → find_anchor fl params n at f i ≡ some k
      → (i ≤ k) × (k + 1 < n) × (all_near fl params n at k ≡ true)
  unfolding find_anchor
  find_anchor_sound zero i k h = absurd (ground arith)
  find_anchor_sound (suc f) i k h = ground (arith, find_anchor_sound f (i + 1) k)

  all_near_sound :
      (i j : ℕ)
      → all_near fl params n at i ≡ true
      → i < j
      → j < n
      → fl.le (dist fl (at i) (at j)) params.stay_radius_m ≡ true
  unfolding all_near
  all_near_sound i j h a b =
      all-range_from (λ j. fl.le (dist fl (at i) (at j)) params.stay_radius_m) (i + 1) (n - (i + 1))
        j h (omega arith) (omega arith)

  arrival_at_sound :
      (stays : List (Stay Float)) (i : ℕ) (s : Stay Float)
      → arrival_at fl params n at stays i ≡ some s
      → (arrival_stay fl params n at i ≡ s)
        × (is_timely fl params n at i ≡ true)
        × (any (has_trigger fl params n at) (segment fl params n at i (n - 1)) ≡ true)
        × (has_stayed fl params n at stays i ≡ false)
  unfolding arrival_at
  arrival_at_sound stays i s h = ground arith

  AreBefore-of_start :
      (stays : List (Stay Float)) (i : ℕ)
      → start_idx fl params n at stays ≤ i
      → has_stayed fl params n at stays i ≡ false
      → AreBefore stays i
  unfolding start_idx has_stayed
  AreBefore-of_start stays i h l = elim (Option-cases (last? stays)) [
    | inl e ↦ rw (e, AreBefore) tt
    | inr (s, e) ↦
        rw (e, AreBefore) (omega (arith, (rw (e, start_idx) at h)), (rw (e, has_stayed) at l))
  ]

  arrival_stay-IsArrival :
      (stays : List (Stay Float)) (i : ℕ)
      → (start_idx fl params n at stays ≤ i) × (i + 1 < n) × (all_near fl params n at i ≡ true)
      → is_timely fl params n at i ≡ true
      → any (has_trigger fl params n at) (segment fl params n at i (n - 1)) ≡ true
      → has_stayed fl params n at stays i ≡ false
      → IsArrival stays (arrival_stay fl params n at i)
  unfolding arrival_stay build_stay is_timely
  arrival_stay-IsArrival stays i a t g l = record {
    in_range = (omega arith, omega arith);
    is_provisional = refl;
    started = refl;
    ended = refl;
    is_close = λ j x y. all_near_sound i j a.2 x (omega arith);
    duration = (ground arith, ground arith);
    is_triggered = g;
    is_behind = AreBefore-of_start stays i a.0 l;
  }

  arrival_of_some :
      (stays : List (Stay Float)) (s : Stay Float)
      → trailing_arrival_stay fl params n at stays ≡ some s
      → arrival_found fl params n at stays
          (find_anchor fl params n at n (start_idx fl params n at stays))
        ≡ some s
  unfolding trailing_arrival_stay
  arrival_of_some stays s h = ground arith

  arrival_found-IsArrival :
      (stays : List (Stay Float)) (s : Stay Float) (found : Option ℕ)
      → find_anchor fl params n at n (start_idx fl params n at stays) ≡ found
      → arrival_found fl params n at stays found ≡ some s
      → IsArrival stays s
  unfolding arrival_found
  arrival_found-IsArrival stays s none e h = absurd (ground arith)
  arrival_found-IsArrival stays s (some i) e h =
      let anchor = find_anchor_sound n (start_idx fl params n at stays) i e in
      let (same, timely, triggered, left) = arrival_at_sound stays i s h in
      subst (IsArrival stays) same (arrival_stay-IsArrival stays i anchor timely triggered left)

  -- What `trailing_arrival_stay` returns is an arrival behind the stays that it is given.
  pub trailing_arrival_stay-IsArrival :
      (stays : List (Stay Float)) (s : Stay Float)
      → trailing_arrival_stay fl params n at stays ≡ some s
      → IsArrival stays s
  trailing_arrival_stay-IsArrival stays s h =
      arrival_found-IsArrival stays s _ refl (arrival_of_some stays s h)
