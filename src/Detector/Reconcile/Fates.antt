-- ===== src/Detector/Reconcile/Fates.antt =====
-- The matches of `plan_reconcile`, against the pairs of trips that qualify.
use odograph.Prelude.{
  ℕ, ◌≡◌, ◌∙◌, inl, inr, Bool, true, ◌&&◌, ◌||◌, some, List, [], ◌∷◌, arith, leb, ◌==◌, Bool-cases,
  length, get_elem?, any, All, sorted, IsOrder, any-sorted, All-sorted, sorted-IsSorted,
}
use native.Mathlib.Nat.{zero-add}
use mathlib.Core.Path.{subst}
use mathlib.Core.Bool.{false≢true}
use odograph.Detector.Reconcile.{
  ExistingTrip, Candidate, overlap_of, qualifies, candidates_from, larger_first, greedy, chosen,
}
use odograph.Detector.Reconcile.Candidates.{
  IsWithin, candidates_from-IsWithin, is_candidate, candidates_from_complete, is_pair,
  candidates-is_pair,
}
use odograph.Detector.Reconcile.Greedy.{
  existing_idxs, new_idxs, AreDistinct, greedy-distinct, greedy-All, blocks, greedy-blocks,
}

larger_first-IsOrder : IsOrder larger_first
unfolding larger_first
larger_first-IsOrder = record { total = λ x y h. ground arith; trans = λ x y z h k. ground arith }

-- Where something holds of all candidates, it holds of one that passes a test.
at_one :
    (Q : Candidate → Type 0) (R : Type 0) (p : Candidate → Bool) (cs : List Candidate)
    → All Q cs
    → any p cs ≡ true
    → ((c : Candidate) → p c ≡ true → Q c → R)
    → R
at_one Q R p [] h a f = absurd (false≢true a)
at_one Q R p (c ∷ cs) h a f = elim (Bool-cases (p c)) [
  | inl e ↦ f c e h.0
  | inr e ↦ at_one Q R p cs h.1 (ground arith) f
]

candidate_eq :
    (ov ei ni : ℕ) (c : Candidate)
    → is_candidate ov ei ni c ≡ true
    → c ≡ record { overlap = ov; existing_idx = ei; new_idx = ni }
candidate_eq ov ei ni c h = ground arith

module _ (existing : List ExistingTrip) (new_trips : List (ℕ × ℕ)) where
  -- No trip is matched twice, on either side.
  pub chosen-distinct :
      AreDistinct (existing_idxs (chosen existing new_trips))
      × AreDistinct (new_idxs (chosen existing new_trips))
  unfolding chosen
  chosen-distinct = greedy-distinct [] [] _

  pub chosen-IsWithin :
      All (IsWithin (length existing) (length new_trips)) (chosen existing new_trips)
  unfolding chosen
  chosen-IsWithin = greedy-All (IsWithin (length existing) (length new_trips)) [] [] _ (
      All-sorted larger_first _ _
        (candidates_from-IsWithin (length existing) 0 existing new_trips (omega arith)))

  -- Each match is a pair of trips that qualify.
  pub chosen-is_pair : All (λ c. is_pair existing new_trips c ≡ true) (chosen existing new_trips)
  unfolding chosen
  chosen-is_pair =
      greedy-All (λ c. is_pair existing new_trips c ≡ true) [] [] _
        (All-sorted larger_first _ _ (candidates-is_pair existing new_trips))

  -- A qualifying pair is matched, or one of its two trips is matched with at least its overlap.
  pub chosen-blocks :
      (ei ni : ℕ) (e : ExistingTrip) (new : ℕ × ℕ)
      → get_elem? existing ei ≡ some e
      → get_elem? new_trips ni ≡ some new
      → qualifies e new ≡ true
      → any
          (λ d. (d.existing_idx == ei || d.new_idx == ni) && leb (overlap_of e new) d.overlap)
          (chosen existing new_trips)
        ≡ true
  unfolding chosen
  chosen-blocks ei ni e new f g q =
      let ordered = sorted larger_first (candidates_from 0 existing new_trips) in
      at_one (λ c. any (blocks c) (greedy [] [] ordered) ≡ true) _
        (is_candidate (overlap_of e new) ei ni) ordered
        (greedy-blocks [] ordered (sorted-IsSorted larger_first-IsOrder _) tt)
        (any-sorted larger_first _ (candidates_from 0 existing new_trips)
          ∙ subst
              (λ i.
                any (is_candidate (overlap_of e new) i ni) (candidates_from 0 existing new_trips)
                ≡ true)
              (zero-add ei) (candidates_from_complete 0 ei existing new_trips e ni new f g q))
        λ c same blocked.
          subst (λ d. any (blocks d) (greedy [] [] ordered) ≡ true)
            (candidate_eq (overlap_of e new) ei ni c same) blocked
