-- ===== src/Detector/Reconcile.antt =====
-- app/detector/reconcile.py: matching newly detected trips with the stored ones. Instants and
-- durations are in microseconds, so a duration of 1.0 s is 1000000, and a difference that would
-- be negative is 0, which `max` with 0.0 or 1.0 makes of it in the source too.
pub mod Candidates
pub mod Greedy
pub mod Fates
pub mod Partition
use odograph.Prelude.{
  ℕ, zero, suc, ◌+◌, ◌-◌, ◌*◌, ◌/◌, ◌≤◌, ◌<◌, min, max, ◌≡◌, refl, sym, ap, ◌∙◌, ◌≢◌, ◌↔◌, ◌⊎◌, inl,
  inr, Bool, true, false, ◌&&◌, ◌||◌, not, Option, none, some, List, [], ◌∷◌, ◌++◌, map, arith, ltb,
  leb, ◌==◌, if◌then◌else◌, ltb→lt, lt→ltb, leb→le, ==_iff, tests, Bool-cases, Option-cases, length,
  get_elem?, get_or, any, all, keep, elem, All, All-append, All-imp, length-append, any-append,
  All-keep, keep-passes, sorted, IsSorted, IsOrder, any-sorted, All-sorted, sorted-perm,
  sorted-IsSorted,
}
use Prim.Native.String.{String}

pub record ExistingTrip : Type 0 where
  pub id : ℕ
  pub started_at : ℕ
  pub ended_at : ℕ
  pub category : String
  pub tag_source : Option String

pub record ReconcilePlan : Type 0 where
  pub matches : List (ℕ × ℕ)
  pub inserts : List ℕ
  pub deletes : List ExistingTrip
  pub kept : List ExistingTrip

-- `(ov, ei, ni)`: the overlap and the indices of the two trips.
pub record Candidate : Type 0 where
  pub overlap : ℕ
  pub existing_idx : ℕ
  pub new_idx : ℕ

unfoldable pub overlap_us : ℕ → ℕ → ℕ → ℕ → ℕ
overlap_us a_start a_end b_start b_end = min a_end b_end - max a_start b_start

pub overlap_of : ExistingTrip → ℕ × ℕ → ℕ
unfolding overlap_us
overlap_of e new = overlap_us e.started_at e.ended_at new.0 new.1

shorter_of : ExistingTrip → ℕ × ℕ → ℕ
shorter_of e new = max (min (e.ended_at - e.started_at) (new.1 - new.0)) 1000000

-- `ov > 0 and ov >= 0.5 * shorter`
unfoldable pub qualifies : ExistingTrip → ℕ × ℕ → Bool
unfolding overlap_of shorter_of
qualifies e new = ltb 0 (overlap_of e new) && leb (shorter_of e new) (2 * overlap_of e new)

-- The inner loop over the new trips from index `ni` on.
candidates_of : ℕ → ExistingTrip → ℕ → List (ℕ × ℕ) → List Candidate
candidates_of ei e ni [] = []
candidates_of ei e ni (new ∷ news) =
    let rest = candidates_of ei e (ni + 1) news in
    if qualifies e new
    then record { overlap = overlap_of e new; existing_idx = ei; new_idx = ni } ∷ rest
    else rest

pub candidates_from : ℕ → List ExistingTrip → List (ℕ × ℕ) → List Candidate
candidates_from ei [] news = []
candidates_from ei (e ∷ es) news = candidates_of ei e 0 news ++ candidates_from (ei + 1) es news

-- The order of `candidates.sort(key=lambda c: c[0], reverse=True)`, which is stable.
unfoldable pub larger_first : Candidate → Candidate → Bool
larger_first a b = leb b.overlap a.overlap

-- The loop over the sorted candidates, with the two sets of matched indices.
pub greedy : List ℕ → List ℕ → List Candidate → List Candidate
greedy matched_existing matched_new [] = []
greedy matched_existing matched_new (c ∷ cs) =
    let taken = elem c.existing_idx matched_existing || elem c.new_idx matched_new in
    let rest =
      greedy (if taken then matched_existing else c.existing_idx ∷ matched_existing)
        (if taken then matched_new else c.new_idx ∷ matched_new) cs in
    if taken then rest else c ∷ rest

-- The candidates that are matched, in the order of `matches`.
unfoldable pub chosen : List ExistingTrip → List (ℕ × ℕ) → List Candidate
unfolding candidates_from candidates_of greedy
chosen existing new_trips =
    greedy [] [] (sorted larger_first (candidates_from 0 existing new_trips))

-- `existing[ei].id`; the index of a candidate is in range.
id_at : List ExistingTrip → ℕ → ℕ
id_at existing ei = elim (get_elem? existing ei) [ none ↦ 0 | some e ↦ e.id ]

-- `range(first, first + count)`
unfoldable pub indices : ℕ → ℕ → List ℕ
indices first zero = []
indices first (suc count) = first ∷ indices (first + 1) count

-- `open_tail_from is not None and e.started_at >= open_tail_from`
unfoldable pub is_open : Option ℕ → ExistingTrip → Bool
is_open none e = false
is_open (some from) e = leb from e.started_at

-- The unmatched existing trips, from index `ei` on.
unmatched : List ℕ → ℕ → List ExistingTrip → List ExistingTrip
unmatched matched_existing ei [] = []
unmatched matched_existing ei (e ∷ es) =
    let rest = unmatched matched_existing (ei + 1) es in
    if elem ei matched_existing then rest else e ∷ rest

unfoldable pub plan_reconcile : List ExistingTrip → List (ℕ × ℕ) → Option ℕ → ReconcilePlan
unfolding id_at indices unmatched
plan_reconcile existing new_trips open_tail_from =
    let pairs = chosen existing new_trips in
    let matched_new = map (λ c. c.new_idx) pairs in
    let left = unmatched (map (λ c. c.existing_idx) pairs) 0 existing in
    record {
      matches = map (λ c. (id_at existing c.existing_idx, c.new_idx)) pairs;
      inserts = keep (λ ni. not (elem ni matched_new)) (indices 0 (length new_trips));
      deletes = keep (λ e. not (is_open open_tail_from e)) left;
      kept = keep (is_open open_tail_from) left;
    }
