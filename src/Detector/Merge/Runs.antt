-- ===== src/Detector/Merge/Runs.antt =====
-- The answers of the merge planning, and the stays between the merged trips.
use odograph.Prelude.{
  ℕ, ◌+◌, ◌≤◌, ◌<◌, ◌≡◌, refl, sym, ◌∙◌, ◌↔◌, inl, inr, Bool, true, ◌&&◌, List, [], ◌∷◌, ◌++◌,
  arith, ltb, ◌==◌, ltb→lt, ==_iff, Bool-cases, length, any, sorted,
}
use mathlib.Core.Path.{subst}
use odograph.Prelude.Sorting.{length-sorted}
use odograph.Detector.Model.{Stay}
use odograph.Detector.Overrides.{is_suppressed}
use odograph.Detector.Merge.{
  TripSpan, planned, refused, too_few, not_contiguous, starts_first, subset_ids, ranges_between,
  plan_merge_selected,
}

length-ranges_between :
    (ts : List TripSpan) → 0 < length ts → length (ranges_between ts) + 1 ≡ length ts
unfolding ranges_between
length-ranges_between [] h = absurd (omega arith)
length-ranges_between (t ∷ []) h = refl
length-ranges_between (t ∷ b ∷ ts) h = omega (arith, length-ranges_between (b ∷ ts) (omega arith))

abbrev pub has_id : ℕ → List TripSpan → Bool
has_id id ts = any (λ t. t.id == id) ts

-- The same ids occur in both.
abbrev pub HaveSameIds : List TripSpan → List TripSpan → Type 0
HaveSameIds xs ys = (id : ℕ) → has_id id xs ≡ has_id id ys

subset_ids-has_id :
    (xs ys : List TripSpan) (id : ℕ)
    → subset_ids xs ys ≡ true
    → has_id id xs ≡ true
    → has_id id ys ≡ true
unfolding subset_ids
subset_ids-has_id [] ys id s h = absurd (ground arith)
subset_ids-has_id (x ∷ xs) ys id s h = elim (Bool-cases (x.id == id)) [
  | inr e ↦ subset_ids-has_id xs ys id (ground arith) (ground arith)
  | inl e ↦
      let found : any (λ y. x.id == y.id) ys ≡ true = ground arith in
      flipped ys (subst (λ i. any (λ y. i == y.id) ys ≡ true) ((==_iff x.id id).0 e) found)
]
  where
    flipped : (zs : List TripSpan) → any (λ y. id == y.id) zs ≡ true → has_id id zs ≡ true
    flipped [] f = f
    flipped (z ∷ zs) f = elim (Bool-cases (z.id == id)) [
      | inl g ↦ rw g refl
      | inr g ↦ rw g (flipped zs (ground arith))
    ]

has_id-any : (id : ℕ) (ys : List TripSpan) → has_id id ys ≡ true → any (λ y. id == y.id) ys ≡ true
has_id-any id [] h = h
has_id-any id (y ∷ ys) h = elim (Bool-cases (id == y.id)) [
  | inl e ↦ rw e refl
  | inr e ↦ rw e (has_id-any id ys (ground arith))
]

subset_ids-true :
    (xs ys : List TripSpan)
    → ((id : ℕ) → has_id id xs ≡ true → has_id id ys ≡ true)
    → subset_ids xs ys ≡ true
unfolding subset_ids
subset_ids-true [] ys h = refl
subset_ids-true (x ∷ xs) ys h =
    let here : has_id x.id (x ∷ xs) ≡ true = rw ((==_iff x.id x.id).1 refl) refl in
    let rest : (id : ℕ) → has_id id xs ≡ true → has_id id ys ≡ true =
      λ id k. h id (ground (arith, k)) in
    let there = has_id-any x.id ys (h x.id here) in
    ground (arith, there, subset_ids-true xs ys rest)

HaveSameIds-subset_ids :
    (xs ys : List TripSpan) → subset_ids xs ys ≡ true → subset_ids ys xs ≡ true → HaveSameIds xs ys
HaveSameIds-subset_ids xs ys s t id = elim (Bool-cases (has_id id xs)) [
  | inl e ↦ e ∙ sym (subset_ids-has_id xs ys id s e)
  | inr e ↦ elim (Bool-cases (has_id id ys)) [
    | inr f ↦ e ∙ sym f
    | inl f ↦ absurd (ground (arith, e, subset_ids-has_id ys xs id t f))
  ]
]

HaveSameIds-iff :
    (xs ys : List TripSpan) → (subset_ids xs ys && subset_ids ys xs) ≡ true ↔ HaveSameIds xs ys
HaveSameIds-iff xs ys = (
  λ h. HaveSameIds-subset_ids xs ys (ground arith) (ground arith),
  λ h.
      let one = subset_ids-true xs ys (λ id k. sym (h id) ∙ k) in
      let other = subset_ids-true ys xs (λ id k. h id ∙ k) in rw (one, other) refl,
)

-- What is returned or raised, by what the selection and the trips in range are.
abbrev pub IsDecided : List TripSpan → List TripSpan → Type 0
IsDecided selected in_range =
    (length selected < 2 ↔ (plan_merge_selected selected in_range ≡ refused too_few))
    × (((2 ≤ length selected) × HaveSameIds selected in_range)
        ↔ ((ranges : List (ℕ × ℕ)) × (plan_merge_selected selected in_range ≡ planned ranges)))
    × ((plan_merge_selected selected in_range ≡ refused not_contiguous)
        ↔ ((2 ≤ length selected) × ¬ HaveSameIds selected in_range))

-- Fewer than two trips are refused as too few, and only those. Of two or more, a plan is made
-- exactly when every id of the selection is in range and every id in range is selected; and they
-- are refused as not contiguous exactly when that does not hold.
pub plan_merge_selected-IsDecided :
    (selected in_range : List TripSpan) → IsDecided selected in_range
unfolding plan_merge_selected
plan_merge_selected-IsDecided selected in_range =
    let (there, back) = HaveSameIds-iff selected in_range in
    elim (Bool-cases (ltb (length selected) 2)) [
      | inl few ↦
          let fewer = ltb→lt (length selected) 2 few in
          rw few (
            (λ h. refl, λ h. fewer),
            (λ h. absurd (omega (arith, h.0)), λ h. absurd (ground (arith, h.1))),
            (λ h. absurd (ground (arith, h)), λ h. absurd (omega (arith, h.0))),
          )
      | inr enough ↦
          let two : 2 ≤ length selected = ground arith in
          elim (Bool-cases (subset_ids selected in_range && subset_ids in_range selected)) [
            | inl e ↦
                rw (enough, e)
                  (
                    (λ h. absurd (omega (arith, h)), λ h. absurd (ground (arith, h))),
                    (
                      λ h. (ranges_between (sorted starts_first selected), refl),
                      λ h. (two, there e),
                    ),
                    (λ h. absurd (ground (arith, h)), λ h. absurd (h.1 (there e))),
                  )
            | inr e ↦
                rw (enough, e)
                  (
                    (λ h. absurd (omega (arith, h)), λ h. absurd (ground (arith, h))),
                    (λ h. absurd (ground (arith, e, back h.1)), λ h. absurd (ground (arith, h.1))),
                    (λ h. (two, λ same. absurd (ground (arith, e, back same))), λ h. refl),
                  )
          ]
    ]

-- A plan has one range for each two neighbours.
pub plan_merge_selected-length :
    (selected in_range : List TripSpan) (ranges : List (ℕ × ℕ))
    → plan_merge_selected selected in_range ≡ planned ranges
    → length ranges + 1 ≡ length selected
unfolding plan_merge_selected
plan_merge_selected-length selected in_range ranges h =
    let size = length-sorted starts_first selected in
    ground (arith, size, length-ranges_between (sorted starts_first selected))

between-suppressed :
    {F : Type 0} (before after : List TripSpan) (a b : TripSpan) (s : Stay F)
    → a.ended_at ≤ s.ended_at
    → s.started_at ≤ b.started_at
    → is_suppressed (ranges_between (before ++ a ∷ b ∷ after)) s ≡ true
unfolding ranges_between is_suppressed
between-suppressed [] after a b s h l = ground arith
between-suppressed (x ∷ []) after a b s h l = ground arith
between-suppressed (x ∷ y ∷ before) after a b s h l =
    ground (arith, between-suppressed (y ∷ before) after a b s h l)

-- The plan merges: a stay that lies between two neighbours of the selection is suppressed by the
-- ranges of the plan.
pub plan_merge_selected-suppresses :
    {F : Type 0} (selected in_range before after : List TripSpan) (ranges : List (ℕ × ℕ))
    (a b : TripSpan) (s : Stay F)
    → plan_merge_selected selected in_range ≡ planned ranges
    → sorted starts_first selected ≡ before ++ a ∷ b ∷ after
    → a.ended_at ≤ s.ended_at
    → s.started_at ≤ b.started_at
    → is_suppressed ranges s ≡ true
unfolding plan_merge_selected
plan_merge_selected-suppresses selected in_range before after ranges a b s p o h l =
    let found : ranges_between (sorted starts_first selected) ≡ ranges = ground arith in
    subst (λ r. is_suppressed r s ≡ true) found
      (subst (λ ts. is_suppressed (ranges_between ts) s ≡ true) (sym o)
        (between-suppressed before after a b s h l))
