-- ===== src/Detector/Reconcile/Candidates.antt =====
-- The candidates are the qualifying pairs of indices: each is in range, and none is missing.
use odograph.Prelude.{
  ℕ, zero, suc, ◌+◌, ◌≤◌, ◌<◌, ◌≡◌, refl, sym, ◌∙◌, inl, inr, Bool, true, false, ◌&&◌, none, some,
  List, [], ◌∷◌, arith, ◌==◌, Bool-cases, length, get_elem?, any, All, All-append, any-append,
}
use mathlib.Core.Path.{subst, subst₂}
use native.Mathlib.Nat.{add-zero, zero-add}
use mathlib.Core.Option.{some-injective}
use odograph.Detector.Reconcile.{
  ExistingTrip, Candidate, qualifies, overlap_of, candidates_of, candidates_from,
}

-- The indices of a candidate are in range.
abbrev pub IsWithin : ℕ → ℕ → Candidate → Type 0
IsWithin m n c = (c.existing_idx < m) × (c.new_idx < n)

candidates_of-IsWithin :
    (m n ei : ℕ) (e : ExistingTrip) (ni : ℕ) (news : List (ℕ × ℕ))
    → ei < m
    → ni + length news ≤ n
    → All (IsWithin m n) (candidates_of ei e ni news)
unfolding candidates_of
candidates_of-IsWithin m n ei e ni [] h l = tt
candidates_of-IsWithin m n ei e ni (new ∷ news) h l =
    let rest = candidates_of-IsWithin m n ei e (ni + 1) news h (omega arith) in
    elim (Bool-cases (qualifies e new)) [
      | inl q ↦ rw q ((h, omega arith), rest)
      | inr q ↦ rw q rest
    ]

pub candidates_from-IsWithin :
    (m ei : ℕ) (es : List ExistingTrip) (news : List (ℕ × ℕ))
    → ei + length es ≤ m
    → All (IsWithin m (length news)) (candidates_from ei es news)
unfolding candidates_from
candidates_from-IsWithin m ei [] news h = tt
candidates_from-IsWithin m ei (e ∷ es) news h =
    All-append (IsWithin m (length news)) (candidates_of ei e 0 news) _
      (candidates_of-IsWithin m (length news) ei e 0 news (omega arith) (omega arith))
      (candidates_from-IsWithin m (ei + 1) es news (omega arith))

-- The candidate with these indices and this overlap.
abbrev pub is_candidate : ℕ → ℕ → ℕ → Candidate → Bool
is_candidate ov ei ni c = c.overlap == ov && c.existing_idx == ei && c.new_idx == ni

candidate_at_head :
    (ei : ℕ) (e : ExistingTrip) (first : ℕ) (news : List (ℕ × ℕ)) (new : ℕ × ℕ)
    → qualifies e new ≡ true
    → any (is_candidate (overlap_of e new) ei (first + 0)) (candidates_of ei e first (new ∷ news))
      ≡ true
unfolding candidates_of
candidate_at_head ei e first news new q = rw q (ground arith)

candidates_of_complete :
    (ei : ℕ) (e : ExistingTrip) (first k : ℕ) (news : List (ℕ × ℕ)) (new : ℕ × ℕ)
    → get_elem? news k ≡ some new
    → qualifies e new ≡ true
    → any (is_candidate (overlap_of e new) ei (first + k)) (candidates_of ei e first news) ≡ true
unfolding candidates_of
candidates_of_complete ei e first k [] new g q = absurd (ground arith)
candidates_of_complete ei e first zero (x ∷ news) new g q =
    subst
      (λ y.
        any (is_candidate (overlap_of e new) ei (first + 0)) (candidates_of ei e first (y ∷ news))
        ≡ true)
      (sym (some-injective x new g)) (candidate_at_head ei e first news new q)
candidates_of_complete ei e first (suc k) (x ∷ news) new g q =
    ground (arith, candidates_of_complete ei e (first + 1) k news new g q)

pub candidates_from_complete :
    (first k : ℕ) (es : List ExistingTrip) (news : List (ℕ × ℕ)) (e : ExistingTrip) (ni : ℕ)
    (new : ℕ × ℕ)
    → get_elem? es k ≡ some e
    → get_elem? news ni ≡ some new
    → qualifies e new ≡ true
    → any (is_candidate (overlap_of e new) (first + k) ni) (candidates_from first es news) ≡ true
unfolding candidates_from
candidates_from_complete first k [] news e ni new f g q = absurd (ground arith)
candidates_from_complete first zero (x ∷ es) news e ni new f g q =
    let here = candidates_of_complete first e 0 ni news new g q in
    let same : any (is_candidate (overlap_of e new) (first + 0) ni) (candidates_of first x 0 news)
        ≡ true =
      subst₂
        (λ y i. any (is_candidate (overlap_of e new) i ni) (candidates_of first y 0 news) ≡ true)
        (sym (some-injective x e f)) (sym (add-zero first))
        (subst
          (λ i. any (is_candidate (overlap_of e new) first i) (candidates_of first e 0 news) ≡ true)
          (zero-add ni) here) in
    any-append _ (candidates_of first x 0 news) _ ∙ ground (arith, same)
candidates_from_complete first (suc k) (x ∷ es) news e ni new f g q =
    any-append _ (candidates_of first x 0 news) _
    ∙ ground (arith, candidates_from_complete (first + 1) k es news e ni new f g q)

-- The candidate names two trips by index that qualify, and has their overlap.
abbrev pub is_pair : List ExistingTrip → List (ℕ × ℕ) → Candidate → Bool
is_pair existing news c = elim (get_elem? existing c.existing_idx) [
  | none ↦ false
  | some e ↦ elim (get_elem? news c.new_idx) [
    | none ↦ false
    | some new ↦ qualifies e new && c.overlap == overlap_of e new
  ]
]

module _ (P : Candidate → Type 0) where
  candidates_of-All :
      (ei : ℕ) (e : ExistingTrip) (first : ℕ) (news : List (ℕ × ℕ))
      → ((k : ℕ) (new : ℕ × ℕ)
          → get_elem? news k ≡ some new
          → qualifies e new ≡ true
          → P (record { overlap = overlap_of e new; existing_idx = ei; new_idx = first + k }))
      → All P (candidates_of ei e first news)
  unfolding candidates_of
  candidates_of-All ei e first [] h = tt
  candidates_of-All ei e first (new ∷ news) h =
      let rest = candidates_of-All ei e (first + 1) news λ k x g q.
        subst (λ i. P (record { overlap = overlap_of e x; existing_idx = ei; new_idx = i }))
          (omega arith) (h (suc k) x g q) in
      elim (Bool-cases (qualifies e new)) [
        | inl q ↦ rw q (
          subst (λ i. P (record { overlap = overlap_of e new; existing_idx = ei; new_idx = i }))
              (add-zero first) (h 0 new refl q),
          rest,
        )
        | inr q ↦ rw q rest
      ]

  candidates_from-All :
      (first : ℕ) (es : List ExistingTrip) (news : List (ℕ × ℕ))
      → ((i k : ℕ) (e : ExistingTrip) (new : ℕ × ℕ)
          → get_elem? es i ≡ some e
          → get_elem? news k ≡ some new
          → qualifies e new ≡ true
          → P (record { overlap = overlap_of e new; existing_idx = first + i; new_idx = k }))
      → All P (candidates_from first es news)
  unfolding candidates_from
  candidates_from-All first [] news h = tt
  candidates_from-All first (e ∷ es) news h =
      All-append P (candidates_of first e 0 news) _
        (candidates_of-All first e 0 news λ k new g q.
          subst₂ (λ i j. P (record { overlap = overlap_of e new; existing_idx = i; new_idx = j }))
            (add-zero first) (sym (zero-add k)) (h 0 k e new refl g q))
        (candidates_from-All (first + 1) es news λ i k x new f g q.
          subst (λ j. P (record { overlap = overlap_of x new; existing_idx = j; new_idx = k }))
            (omega arith) (h (suc i) k x new f g q))

pub candidates-is_pair :
    (existing : List ExistingTrip) (news : List (ℕ × ℕ))
    → All (λ c. is_pair existing news c ≡ true) (candidates_from 0 existing news)
candidates-is_pair existing news =
    candidates_from-All (λ c. is_pair existing news c ≡ true) 0 existing news
      λ i k e new f g q.
        subst
          (λ j.
            is_pair existing news
              (record { overlap = overlap_of e new; existing_idx = j; new_idx = k })
            ≡ true)
          (sym (zero-add i)) (rw (f, is_pair) (rw g (rw q (ground arith))))
