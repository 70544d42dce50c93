-- ===== src/Detector/Reconcile/Partition.antt =====
-- `plan_reconcile`: what becomes of the trips, the stored ones and the new ones.
use odograph.Prelude.{
  ℕ, zero, suc, ◌+◌, ◌≤◌, ◌<◌, ◌≡◌, refl, sym, ap, ◌∙◌, inl, inr, Bool, true, false, ◌&&◌, not,
  Option, none, some, List, [], ◌∷◌, map, arith, ltb, leb, ◌==◌, if◌then◌else◌, ==_iff, Bool-cases,
  Option-cases, length, get_elem?, any, keep, elem, All, All-imp, keep-passes,
}
use native.Mathlib.Nat.{zero-add}
use odograph.Prelude.Lists.{count}
use odograph.Detector.Reconcile.{
  ExistingTrip, ReconcilePlan, Candidate, overlap_of, qualifies, chosen, id_at, indices, is_open,
  unmatched, plan_reconcile,
}
use odograph.Detector.Reconcile.Candidates.{is_pair}
use odograph.Detector.Reconcile.Greedy.{existing_idxs, new_idxs, AreDistinct}
use odograph.Detector.Reconcile.Fates.{chosen-distinct, chosen-IsWithin, chosen-is_pair}

abbrev one_if : Bool → ℕ
one_if b = if b then 1 else 0

-- A trip starts in the open segment, where there is one, or in front of it.
abbrev pub StartsIn : Option ℕ → ExistingTrip → Type 0
StartsIn none e = true ≡ false
StartsIn (some from) e = from ≤ e.started_at

abbrev pub StartsBefore : Option ℕ → ExistingTrip → Type 0
StartsBefore none e = Unit
StartsBefore (some from) e = e.started_at < from

-- A stored trip of the id qualifies with the new trip at the index.
abbrev pub is_overlapping : List ExistingTrip → List (ℕ × ℕ) → ℕ × ℕ → Bool
is_overlapping existing new_trips m =
    any (λ e. e.id == m.0 && is_with e (get_elem? new_trips m.1)) existing
  where
    is_with : ExistingTrip → Option (ℕ × ℕ) → Bool
    is_with e none = false
    is_with e (some new) = qualifies e new

-- Each stored trip, known by its id, is matched, deleted or kept, as often as it is stored; each
-- index of a new trip is matched or inserted, once; and of those that are not matched, the ones of
-- the open segment are kept and the others deleted. A match is of a new trip and of the id of a
-- stored one that qualify.
pub record HasFates (existing : List ExistingTrip) (new_trips : List (ℕ × ℕ))
    (open_tail_from : Option ℕ) (plan : ReconcilePlan) : Type 0 where
  pub stored :
      (id : ℕ)
      → count (λ (m : ℕ × ℕ). m.0 == id) plan.matches
          + (count (λ e. e.id == id) plan.deletes + count (λ e. e.id == id) plan.kept)
        ≡ count (λ e. e.id == id) existing
  pub detected :
      (ni : ℕ)
      → count (λ (m : ℕ × ℕ). m.1 == ni) plan.matches + count (λ i. i == ni) plan.inserts
        ≡ (if ltb ni (length new_trips) then 1 else 0)
  pub overlapping : All (λ m. is_overlapping existing new_trips m ≡ true) plan.matches
  pub before : All (StartsBefore open_tail_from) plan.deletes
  pub within : All (StartsIn open_tail_from) plan.kept

All-map :
    (f : Candidate → ℕ) (n : ℕ) (cs : List Candidate)
    → All (λ c. f c < n) cs
    → All (λ x. x < n) (map f cs)
All-map f n [] h = tt
All-map f n (c ∷ cs) h = (h.0, All-map f n cs h.1)

count-indices :
    (k first n : ℕ)
    → count (λ i. i == k) (indices first n) ≡ one_if (leb first k && ltb k (first + n))
unfolding indices
count-indices k first zero = ground arith
count-indices k first (suc n) = ground (arith, count-indices k (first + 1) n)

count-keep-not :
    (k : ℕ) (xs is : List ℕ)
    → count (λ i. i == k) (keep (λ i. not (elem i xs)) is)
      ≡ (if elem k xs then 0 else count (λ i. i == k) is)
count-keep-not k xs [] = ground arith
count-keep-not k xs (i ∷ is) = elim (Bool-cases (i == k)) [
  | inl e ↦
      let same = ap (λ j. elem j xs) ((==_iff i k).0 e) in
      ground (arith, count-keep-not k xs is, same, e)
  | inr e ↦ ground (arith, count-keep-not k xs is, e)
]

count-absent : (k : ℕ) (xs : List ℕ) → elem k xs ≡ false → count (λ x. x == k) xs ≡ 0
count-absent k [] h = refl
count-absent k (x ∷ xs) h = ground (arith, count-absent k xs)

-- A number stands in distinct numbers once or not at all.
count-distinct :
    (k : ℕ) (xs : List ℕ) → AreDistinct xs → count (λ x. x == k) xs ≡ one_if (elem k xs)
count-distinct k [] d = refl
count-distinct k (x ∷ xs) d = elim (Bool-cases (x == k)) [
  | inr e ↦ ground (arith, count-distinct k xs d.1, e)
  | inl e ↦
      let same = ap (λ j. elem j xs) ((==_iff x k).0 e) in
      ground (arith, count-absent k xs, same, d.0, e)
]

elem-bounded : (k n : ℕ) (xs : List ℕ) → All (λ x. x < n) xs → elem k xs ≡ true → k < n
elem-bounded k n [] a h = absurd (ground arith)
elem-bounded k n (x ∷ xs) a h = ground (arith, a.0, elem-bounded k n xs a.1)

-- Distinct numbers below `n`, and the ones below `n` that are left out, are each number once.
count-whole :
    (k n : ℕ) (xs : List ℕ)
    → AreDistinct xs
    → All (λ x. x < n) xs
    → count (λ x. x == k) xs + count (λ i. i == k) (keep (λ i. not (elem i xs)) (indices 0 n))
      ≡ (if ltb k n then 1 else 0)
count-whole k n xs d a = ground (
  arith,
  count-distinct k xs d,
  count-keep-not k xs (indices 0 n),
  count-indices k 0 n,
  elem-bounded k n xs a,
)

count-map {ℓ κ} :
    {A : Type ℓ} {B : Type κ} (f : A → B) (p : B → Bool) (xs : List A)
    → count p (map f xs) ≡ count (λ x. p (f x)) xs
count-map f p [] = refl
count-map f p (x ∷ xs) = ground (arith, count-map f p xs)

unmatched_beyond :
    (x : ℕ) (xs : List ℕ) (first : ℕ) (es : List ExistingTrip)
    → x < first
    → unmatched (x ∷ xs) first es ≡ unmatched xs first es
unfolding unmatched
unmatched_beyond x xs first [] h = refl
unmatched_beyond x xs first (e ∷ es) h = ground (arith, unmatched_beyond x xs (first + 1) es)

-- One more matched trip is one less among the unmatched.
count-unmatched_cons :
    (p : ExistingTrip → Bool) (x j : ℕ) (xs : List ℕ) (first : ℕ) (es : List ExistingTrip)
    (e : ExistingTrip)
    → elem x xs ≡ false
    → x ≡ first + j
    → get_elem? es j ≡ some e
    → one_if (p e) + count p (unmatched (x ∷ xs) first es) ≡ count p (unmatched xs first es)
unfolding unmatched
count-unmatched_cons p x j xs first [] e h s g = absurd (ground arith)
count-unmatched_cons p x zero xs first (d ∷ es) e h s g =
    let at_first : x ≡ first = omega arith in
    let absent = ap (λ i. elem i xs) (sym at_first) ∙ h in
    let same = unmatched_beyond x xs (first + 1) es (omega arith) in
    elim (Bool-cases (p d)) [
      | inl t ↦ ground (arith, at_first, absent, same, t)
      | inr t ↦ ground (arith, at_first, absent, same, t)
    ]
count-unmatched_cons p x (suc j) xs first (d ∷ es) e h s g =
    let deeper = count-unmatched_cons p x j xs (first + 1) es e h (omega arith) g in
    elim (Bool-cases (elem first xs)) [
      | inl t ↦ ground (arith, deeper, t)
      | inr t ↦ ground (arith, deeper, t)
    ]

unmatched_none : (first : ℕ) (es : List ExistingTrip) → unmatched [] first es ≡ es
unfolding unmatched
unmatched_none first [] = refl
unmatched_none first (e ∷ es) = ap (λ rest. e ∷ rest) (unmatched_none (first + 1) es)

get_elem?-below :
    (es : List ExistingTrip) (i : ℕ)
    → i < length es
    → (e : ExistingTrip) × (get_elem? es i ≡ some e)
get_elem?-below [] i h = absurd (omega arith)
get_elem?-below (e ∷ es) zero h = (e, refl)
get_elem?-below (e ∷ es) (suc i) h = get_elem?-below es i (omega arith)

-- The matched trips and the unmatched ones are the stored ones.
count-matched :
    (existing : List ExistingTrip) (id : ℕ) (cs : List Candidate)
    → AreDistinct (existing_idxs cs)
    → All (λ c. c.existing_idx < length existing) cs
    → count (λ c. id_at existing c.existing_idx == id) cs
        + count (λ e. e.id == id) (unmatched (existing_idxs cs) 0 existing)
      ≡ count (λ e. e.id == id) existing
unfolding id_at
count-matched existing id [] d w =
    zero-add _ ∙ ap (count (λ e. e.id == id)) (unmatched_none 0 existing)
count-matched existing id (c ∷ cs) d w =
    let found = get_elem?-below existing c.existing_idx w.0 in
    let one =
      count-unmatched_cons (λ e. e.id == id) c.existing_idx c.existing_idx (existing_idxs cs) 0
        existing found.0 d.0 (omega arith) found.1 in
    let rest = count-matched existing id cs d.1 w.1 in
    let same : id_at existing c.existing_idx ≡ (found.0).id =
      ap (λ o. elim o [ none ↦ 0 | some e ↦ e.id ]) found.1 in
    ground (arith, one, rest, same)

count-split {ℓ} :
    {A : Type ℓ} (p q : A → Bool) (xs : List A)
    → count p (keep (λ x. not (q x)) xs) + count p (keep q xs) ≡ count p xs
count-split p q [] = refl
count-split p q (x ∷ xs) = elim (Bool-cases (q x)) [
  | inl e ↦ ground (arith, count-split p q xs, e)
  | inr e ↦ ground (arith, count-split p q xs, e)
]

is_open-StartsIn : (from : Option ℕ) (e : ExistingTrip) → is_open from e ≡ true → StartsIn from e
unfolding is_open
is_open-StartsIn none e h = absurd (ground arith)
is_open-StartsIn (some from) e h = ground (arith, h)

not_open-StartsBefore :
    (from : Option ℕ) (e : ExistingTrip) → not (is_open from e) ≡ true → StartsBefore from e
unfolding is_open
not_open-StartsBefore none e h = tt
not_open-StartsBefore (some from) e h = ground (arith, h)

abbrev pair_of : List ExistingTrip → Candidate → ℕ × ℕ
pair_of existing c = (id_at existing c.existing_idx, c.new_idx)

any-at {ℓ} :
    {A : Type ℓ} (p : A → Bool) (xs : List A) (i : ℕ) (x : A)
    → get_elem? xs i ≡ some x
    → p x ≡ true
    → any p xs ≡ true
any-at p [] i x h t = absurd (ground arith)
any-at p (y ∷ ys) zero x h t = ground arith
any-at p (y ∷ ys) (suc i) x h t = ground (arith, any-at p ys i x h t)

is_pair-is_overlapping :
    (existing : List ExistingTrip) (new_trips : List (ℕ × ℕ)) (c : Candidate)
    → is_pair existing new_trips c ≡ true
    → is_overlapping existing new_trips (pair_of existing c) ≡ true
unfolding id_at
is_pair-is_overlapping existing new_trips c h =
    elim (Option-cases (get_elem? existing c.existing_idx)) [
      | inl f ↦ absurd (ground (arith, f, h))
      | inr (e, f) ↦ elim (Option-cases (get_elem? new_trips c.new_idx)) [
        | inl g ↦ absurd (ground (arith, f, g, h))
        | inr (new, g) ↦
            let same : id_at existing c.existing_idx ≡ e.id =
              ap (λ o. elim o [ none ↦ 0 | some e ↦ e.id ]) f in
            let both : (qualifies e new && c.overlap == overlap_of e new) ≡ true =
              ground (arith, f, g, h) in
            let id_same = (==_iff e.id e.id).1 refl in
            any-at _ existing c.existing_idx e f (rw (same, g, id_same) (ground arith))
      ]
    ]

matches-All :
    (existing : List ExistingTrip) (new_trips : List (ℕ × ℕ)) (cs : List Candidate)
    → All (λ c. is_pair existing new_trips c ≡ true) cs
    → All (λ m. is_overlapping existing new_trips m ≡ true) (map (pair_of existing) cs)
matches-All existing new_trips [] h = tt
matches-All existing new_trips (c ∷ cs) h =
    (is_pair-is_overlapping existing new_trips c h.0, matches-All existing new_trips cs h.1)

-- Every stored trip is matched, deleted or kept: each id is in `matches`, `deletes` and `kept`
-- together as often as it is stored. Every new trip is matched or inserted: each index below their
-- number is in `matches` and `inserts` together once, and no other is there. The two trips of a
-- match qualify. Of the stored trips that are not matched, the deleted ones start in front of the
-- open segment, where there is one, and the kept ones in it; without an open segment none
-- is kept.
pub plan_reconcile-HasFates :
    (existing : List ExistingTrip) (new_trips : List (ℕ × ℕ)) (open_tail_from : Option ℕ)
    → HasFates existing new_trips open_tail_from (plan_reconcile existing new_trips open_tail_from)
unfolding plan_reconcile
plan_reconcile-HasFates existing new_trips open_tail_from =
    let pairs = chosen existing new_trips in
    let left = unmatched (existing_idxs pairs) 0 existing in
    let distinct = chosen-distinct existing new_trips in
    let inside = chosen-IsWithin existing new_trips in
    record {
      stored = λ id. omega (
        arith,
        count-map (pair_of existing) (λ m. m.0 == id) pairs,
        count-split (λ e. e.id == id) (is_open open_tail_from) left,
        count-matched existing id pairs distinct.0 (All-imp _ _ pairs (λ c h. h.0) inside),
      );
      detected = λ ni. omega (
        arith,
        count-map (pair_of existing) (λ m. m.1 == ni) pairs,
        count-map (λ c. c.new_idx) (λ x. x == ni) pairs,
        count-whole ni (length new_trips) (new_idxs pairs) distinct.1 (
            All-map (λ c. c.new_idx) (length new_trips) pairs
              (All-imp _ _ pairs (λ c h. h.1) inside)),
      );
      overlapping = matches-All existing new_trips pairs (chosen-is_pair existing new_trips);
      before =
          All-imp _ _ _ (not_open-StartsBefore open_tail_from)
            (keep-passes (λ e. not (is_open open_tail_from e)) left);
      within =
          All-imp _ _ _ (is_open-StartsIn open_tail_from)
            (keep-passes (is_open open_tail_from) left);
    }
