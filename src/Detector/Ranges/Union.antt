-- ===== src/Detector/Ranges/Union.antt =====
-- `_union_ranges` keeps what is covered, and leaves disjoint ranges in order.
use odograph.Prelude.{
  ℕ, ◌+◌, ◌≤◌, ◌<◌, max, ◌≡◌, refl, ap, ◌∙◌, inl, inr, Bool, true, ◌&&◌, ◌||◌, List, [], ◌∷◌, arith,
  leb, leb→le, Bool-cases, All, All-imp, sorted, IsSorted, IsOrder, any-sorted, All-sorted,
  sorted-IsSorted,
}
use odograph.Detector.Ranges.{range_le, merge_into, merge_sorted, union_ranges}
use odograph.Detector.Ranges.Spans.{AreDisjoint, covers}

range_le-IsOrder : IsOrder range_le
unfolding range_le
range_le-IsOrder = record { total = λ x y h. ground arith; trans = λ x y z h k. ground arith }

-- Nonempty ranges of indices below `n`.
abbrev pub AreRanges : ℕ → List (ℕ × ℕ) → Type 0
AreRanges n = All (λ r. (r.0 ≤ r.1) × (r.1 < n))

-- The ranges start at `lo` or later, each no earlier than the one in front of it.
abbrev Ascends : ℕ → List (ℕ × ℕ) → Type 0
Ascends lo [] = Unit
Ascends lo (r ∷ rs) = (lo ≤ r.0) × Ascends r.0 rs

Ascends-mono : (lo lo' : ℕ) (rs : List (ℕ × ℕ)) → lo' ≤ lo → Ascends lo rs → Ascends lo' rs
Ascends-mono lo lo' [] h a = tt
Ascends-mono lo lo' (r ∷ rs) h a = (omega arith, a.1)

start_le : (r q : ℕ × ℕ) → range_le r q ≡ true → r.0 ≤ q.0
unfolding range_le
start_le r q e = ground arith

Ascends-of_IsSorted :
    (lo : ℕ) (rs : List (ℕ × ℕ)) → All (λ r. lo ≤ r.0) rs → IsSorted range_le rs → Ascends lo rs
Ascends-of_IsSorted lo [] h s = tt
Ascends-of_IsSorted lo (r ∷ rs) h s = (
  h.0,
  Ascends-of_IsSorted r.0 rs
      (All-imp (λ q. range_le r q ≡ true) (λ q. r.0 ≤ q.0) rs (λ q e. start_le r q e) s.0) s.1,
)

covers-merge_into :
    (k : ℕ) (r : ℕ × ℕ) (rs : List (ℕ × ℕ))
    → r.0 ≤ r.1
    → All (λ s. s.0 ≤ s.1) rs
    → Ascends r.0 rs
    → covers k (merge_into r rs) ≡ covers k (r ∷ rs)
unfolding merge_into
covers-merge_into k r [] h v s = refl
covers-merge_into k r (q ∷ rs) h v s = elim (Bool-cases (leb q.0 r.1)) [
  | inl e ↦ rw e (
      covers-merge_into k (r.0, max r.1 q.1) rs (omega arith) v.1 (Ascends-mono q.0 r.0 rs s.0 s.1)
      ∙ join (leb→le q.0 r.1 e))
  | inr e ↦
      rw e (ap (λ (c : Bool). leb r.0 k && leb k r.1 || c) (covers-merge_into k q rs v.0 v.1 s.1))
]
  where
    join : q.0 ≤ r.1 → covers k ((r.0, max r.1 q.1) ∷ rs) ≡ covers k (r ∷ q ∷ rs)
    join e = ground arith

merge_into-AreDisjoint :
    (n lo : ℕ) (r : ℕ × ℕ) (rs : List (ℕ × ℕ))
    → lo ≤ r.0
    → (r.0 ≤ r.1) × (r.1 < n)
    → AreRanges n rs
    → AreDisjoint n lo (merge_into r rs)
unfolding merge_into
merge_into-AreDisjoint n lo r [] l h s = (l, h.0, h.1, tt)
merge_into-AreDisjoint n lo r (q ∷ rs) l h s = elim (Bool-cases (leb q.0 r.1)) [
  | inl e ↦ rw e (merge_into-AreDisjoint n lo (r.0, max r.1 q.1) rs l (omega arith) s.1)
  | inr e ↦ rw e (l, h.0, h.1, merge_into-AreDisjoint n (r.1 + 1) q rs (ground arith) s.0 s.1)
]

merge_sorted-AreDisjoint :
    (n : ℕ) (rs : List (ℕ × ℕ)) → AreRanges n rs → AreDisjoint n 0 (merge_sorted rs)
unfolding merge_sorted
merge_sorted-AreDisjoint n [] h = tt
merge_sorted-AreDisjoint n (r ∷ rs) h = merge_into-AreDisjoint n 0 r rs (omega arith) h.0 h.1

covers-merge_sorted :
    (k : ℕ) (rs : List (ℕ × ℕ))
    → All (λ s. s.0 ≤ s.1) rs
    → IsSorted range_le rs
    → covers k (merge_sorted rs) ≡ covers k rs
unfolding merge_sorted
covers-merge_sorted k [] v s = refl
covers-merge_sorted k (r ∷ rs) v s =
    covers-merge_into k r rs v.0 v.1
      (Ascends-of_IsSorted 0 (r ∷ rs)
        (omega arith, All-imp (λ q. q.0 ≤ q.1) (λ q. 0 ≤ q.0) rs (λ q e. omega arith) v.1) s).1

-- `_union_ranges` makes disjoint ranges in order of ranges that are in bounds and not empty.
pub union_ranges-AreDisjoint :
    (n : ℕ) (ranges : List (ℕ × ℕ)) → AreRanges n ranges → AreDisjoint n 0 (union_ranges ranges)
unfolding union_ranges
union_ranges-AreDisjoint n ranges h =
    merge_sorted-AreDisjoint n (sorted range_le ranges) (All-sorted range_le _ ranges h)

-- Of ranges that are not empty, `_union_ranges` covers exactly the indices that some range covers.
pub covers-union_ranges :
    (k : ℕ) (ranges : List (ℕ × ℕ))
    → All (λ r. r.0 ≤ r.1) ranges
    → covers k (union_ranges ranges) ≡ covers k ranges
unfolding union_ranges
covers-union_ranges k ranges h =
    covers-merge_sorted k (sorted range_le ranges) (All-sorted range_le _ ranges h)
      (sorted-IsSorted range_le-IsOrder ranges)
    ∙ any-sorted range_le _ ranges

-- What survives when the end of a range moves back within the track holds of the union.
module _ (n : ℕ) (P : ℕ × ℕ → Type 0)
    (extend : (a b c : ℕ) → b ≤ c → c < n → P (a, b) → P (a, c)) where
  merge_into-All :
      (r : ℕ × ℕ) (rs : List (ℕ × ℕ))
      → r.1 < n
      → AreRanges n rs
      → P r
      → All P rs
      → All P (merge_into r rs)
  unfolding merge_into
  merge_into-All r [] b v p h = (p, tt)
  merge_into-All r (q ∷ rs) b v p h = elim (Bool-cases (leb q.0 r.1)) [
    | inl e ↦ rw e (
        merge_into-All (r.0, max r.1 q.1) rs (omega arith) v.1
          (extend r.0 r.1 (max r.1 q.1) (omega arith) (omega arith) p) h.1)
    | inr e ↦ rw e (p, merge_into-All q rs (v.0.1) v.1 h.0 h.1)
  ]

  merge_sorted-All : (rs : List (ℕ × ℕ)) → AreRanges n rs → All P rs → All P (merge_sorted rs)
  unfolding merge_sorted
  merge_sorted-All [] v h = tt
  merge_sorted-All (r ∷ rs) v h = merge_into-All r rs v.0.1 v.1 h.0 h.1

  pub union_ranges-All : (rs : List (ℕ × ℕ)) → AreRanges n rs → All P rs → All P (union_ranges rs)
  unfolding union_ranges
  union_ranges-All rs v h =
      merge_sorted-All (sorted range_le rs) (All-sorted range_le _ rs v)
        (All-sorted range_le P rs h)
