-- ===== src/Detector/Overrides/Placed.antt =====
-- `_apply_overrides`: the stays that it leaves lie in order and disjoint, and none is suppressed.
use odograph.Prelude.{
  ℕ, zero, suc, ◌+◌, ◌≤◌, ◌<◌, ◌≡◌, refl, ◌⊎◌, inl, inr, Bool, true, false, ◌&&◌, not, Option, none,
  some, List, [], ◌∷◌, ◌++◌, arith, leb, Bool-cases, Option-cases, length, get_elem?, any, keep,
  All, All-append, All-keep, sorted, IsSorted, IsOrder, All-sorted, sorted-IsSorted,
}
use odograph.Prelude.Sorting.{insert, All-insert}
use odograph.Detector.Model.{Point, Stay, Override}
use odograph.Detector.Ranges.Spans.{AreDisjoint}
use odograph.Detector.Stays.Found.{spans}
use odograph.Detector.Overrides.{
  suppress_ranges, forced_ids, find_idx, is_suppressed, holds_idx, forced_stay, force_at, force_one,
  force_all, first_le, apply_overrides,
}

first_le-IsOrder : {F : Type 0} → IsOrder {A = Stay F} first_le
unfolding first_le
first_le-IsOrder = record { total = λ x y h. ground arith; trans = λ x y z h k. ground arith }

module _ {F : Type 0} (n : ℕ) where
  -- One of the two stays lies behind the other.
  abbrev Apart : Stay F → Stay F → Type 0
  Apart s r = (s.last_idx < r.first_idx) ⊎ (r.last_idx < s.first_idx)

  -- A stay of at least one point of the track.
  abbrev IsWithin : Stay F → Type 0
  IsWithin s = (s.first_idx ≤ s.last_idx) × (s.last_idx < n)

  -- The same as `AreDisjoint` in any order.
  abbrev AreApart : List (Stay F) → Type 0
  AreApart [] = Unit
  AreApart (s ∷ ss) = IsWithin s × All (Apart s) ss × AreApart ss

  AreApart-of_AreDisjoint :
      (lo : ℕ) (ss : List (Stay F)) → AreDisjoint n lo (spans ss) → AreApart ss
  AreApart-of_AreDisjoint lo [] d = tt
  AreApart-of_AreDisjoint lo (s ∷ ss) d = (
    (d.1, d.2),
    behind (s.last_idx + 1) ss (omega arith) d.3,
    AreApart-of_AreDisjoint (s.last_idx + 1) ss d.3,
  )
    where
      behind :
          (m : ℕ) (rs : List (Stay F))
          → s.last_idx < m
          → AreDisjoint n m (spans rs)
          → All (Apart s) rs
      behind m [] h e = tt
      behind m (r ∷ rs) h e = (inl (omega arith), behind (r.last_idx + 1) rs (omega arith) e.3)

  keep-AreApart : (p : Stay F → Bool) (ss : List (Stay F)) → AreApart ss → AreApart (keep p ss)
  keep-AreApart p [] h = tt
  keep-AreApart p (s ∷ ss) h = elim (Bool-cases (p s)) [
    | inl e ↦ rw e (h.0, All-keep (Apart s) p ss h.1, keep-AreApart p ss h.2)
    | inr e ↦ rw e (keep-AreApart p ss h.2)
  ]

  insert-AreApart :
      (s : Stay F) (ss : List (Stay F))
      → IsWithin s
      → All (Apart s) ss
      → AreApart ss
      → AreApart (insert first_le s ss)
  insert-AreApart s [] w a h = (w, tt, tt)
  insert-AreApart s (r ∷ rs) w a h = elim (Bool-cases (first_le s r)) [
    | inl e ↦ rw e (w, a, h)
    | inr e ↦
        rw e
          (h.0, All-insert first_le (Apart r) s rs (flip a.0) h.1, insert-AreApart s rs w a.1 h.2)
  ]
    where
      flip : Apart s r → Apart r s
      flip (inl x) = inr x
      flip (inr x) = inl x

  sorted-AreApart : (ss : List (Stay F)) → AreApart ss → AreApart (sorted first_le ss)
  unfolding sorted
  sorted-AreApart [] h = tt
  sorted-AreApart (s ∷ ss) h =
      insert-AreApart s (sorted first_le ss) h.0 (All-sorted first_le (Apart s) ss h.1)
        (sorted-AreApart ss h.2)

  behind :
      (s : Stay F) (ss : List (Stay F))
      → All (λ r. first_le s r ≡ true) ss
      → All (Apart s) ss
      → AreApart ss
      → All (λ r. s.last_idx + 1 ≤ r.first_idx) ss
  unfolding first_le
  behind s [] o a h = tt
  behind s (r ∷ rs) o a h = (ground arith, behind s rs o.1 a.1 h.2)

  AreDisjoint-of_AreApart :
      (lo : ℕ) (ss : List (Stay F))
      → All (λ s. lo ≤ s.first_idx) ss
      → IsSorted first_le ss
      → AreApart ss
      → AreDisjoint n lo (spans ss)
  AreDisjoint-of_AreApart lo [] b o h = tt
  AreDisjoint-of_AreApart lo (s ∷ ss) b o h = (
    b.0,
    h.0.0,
    h.0.1,
    AreDisjoint-of_AreApart (s.last_idx + 1) ss (behind s ss o.0 h.1 h.2) o.1 h.2,
  )

  AreApart-append :
      (ss : List (Stay F)) (r : Stay F)
      → AreApart ss
      → IsWithin r
      → All (λ s. Apart s r) ss
      → AreApart (ss ++ r ∷ [])
  AreApart-append [] r h w a = (w, tt, tt)
  AreApart-append (s ∷ ss) r h w a =
      (h.0, All-append (Apart s) ss (r ∷ []) h.1 (a.0, tt), AreApart-append ss r h.2 w a.1)

  Apart-of_not_held :
      (p : Point F) (idx : ℕ) (ss : List (Stay F))
      → any (holds_idx idx) ss ≡ false
      → All (λ s. Apart s (forced_stay p idx)) ss
  unfolding holds_idx forced_stay
  Apart-of_not_held p idx [] h = tt
  Apart-of_not_held p idx (s ∷ ss) h = (apart, Apart-of_not_held p idx ss (ground arith))
    where
      apart : (s.last_idx < idx) ⊎ (idx < s.first_idx)
      apart = ground arith

  force_at-AreApart :
      (ranges : List (ℕ × ℕ)) (kept : List (Stay F)) (idx : ℕ) (p : Option (Point F))
      → ((x : Point F) → p ≡ some x → idx < n)
      → AreApart kept
      → AreApart (force_at ranges kept idx p)
  unfolding force_at
  force_at-AreApart ranges kept idx none l h = h
  force_at-AreApart ranges kept idx (some p) l h =
      elim (Bool-cases (any (λ o. leb o.0 p.t && leb p.t o.1) ranges)) [
        | inl e ↦ rw e h
        | inr e ↦ elim (Bool-cases (any (holds_idx idx) kept)) [
          | inl held ↦ rw (e, held) h
          | inr free ↦
              rw (e, free)
                (AreApart-append kept (forced_stay p idx) h (omega (arith, l p refl))
                  (Apart-of_not_held p idx kept free))
        ]
      ]

  get_elem?-lt :
      (xs : List (Point F)) (i : ℕ) (x : Point F) → get_elem? xs i ≡ some x → i < length xs
  get_elem?-lt [] i x h = absurd (ground arith)
  get_elem?-lt (y ∷ ys) zero x h = omega arith
  get_elem?-lt (y ∷ ys) (suc i) x h = omega (arith, get_elem?-lt ys i x h)

  module _ (pts : List (Point F)) (size : length pts ≡ n) (ranges : List (ℕ × ℕ)) where
    force_one-AreApart :
        (kept : List (Stay F)) (id : Option ℕ)
        → AreApart kept
        → AreApart (force_one pts ranges kept id)
    unfolding force_one
    force_one-AreApart kept id h = elim (Option-cases (find_idx id 0 pts)) [
      | inl e ↦ rw (e, force_one, AreApart) h
      | inr (idx, e) ↦
          rw (e, force_one, AreApart)
            (force_at-AreApart ranges kept idx (get_elem? pts idx)
              (λ x f. rw (← size) (get_elem?-lt pts idx x f)) h)
    ]

    force_all-AreApart :
        (ids : List (Option ℕ)) (kept : List (Stay F))
        → AreApart kept
        → AreApart (force_all pts ranges kept ids)
    unfolding force_all
    force_all-AreApart [] kept h = h
    force_all-AreApart (id ∷ ids) kept h =
        force_all-AreApart ids (force_one pts ranges kept id) (force_one-AreApart kept id h)

  -- Whatever the overrides, stays that lie in order, disjoint and within the track still do
  -- after suppressing and forcing.
  pub apply_overrides-AreDisjoint :
      (pts : List (Point F)) (stays : List (Stay F)) (overrides : List Override)
      → length pts ≡ n
      → AreDisjoint n 0 (spans stays)
      → AreDisjoint n 0 (spans (apply_overrides pts stays overrides))
  unfolding apply_overrides
  apply_overrides-AreDisjoint pts stays overrides size d =
      let ranges = suppress_ranges overrides in
      let kept = keep (λ s. not (is_suppressed ranges s)) stays in
      let start = keep-AreApart _ stays (AreApart-of_AreDisjoint 0 stays d) in
      let all = force_all-AreApart pts size ranges (forced_ids overrides) kept start in
      AreDisjoint-of_AreApart 0 _ (everywhere _) (sorted-IsSorted first_le-IsOrder _)
        (sorted-AreApart _ all)
    where
      everywhere : (ss : List (Stay F)) → All (λ s. 0 ≤ s.first_idx) ss
      everywhere [] = tt
      everywhere (s ∷ ss) = (omega arith, everywhere ss)
