-- ===== src/Portable/Rows/Counts.antt =====
-- The loop over the rows: the lengths of the output and of the issues, and an invariant of the
-- accepted rows.
use odograph.Prelude.{
  ℕ, suc, ◌≤◌, ◌+◌, ◌≡◌, refl, sym, inl, inr, some, List, [], ◌∷◌, ◌++◌, arith, length,
  length-append, Option-cases,
}
use mathlib.Core.Path.{subst}
use Prim.Native.String.{String}
use odograph.Portable.Json.{Json, Items, Fields, array, object, nil, cons}
use odograph.Portable.Rows.{
  Issue, row_issue, Outcome, accept, refuse, raise, Progress, step, row_outcome, rows_loop,
  each_row,
}

abbrev pub count_rows : {F : Type 0} → Items F → ℕ
count_rows nil = 0
count_rows (cons row rows) = suc (count_rows rows)

-- The items of a list, and none of any other value.
abbrev pub items_of : {F : Type 0} → Json F → Items F
items_of (array rows) = rows
items_of _ = nil

module _ {ℓ} {A : Type ℓ} {F : Type 0} (list_name : String)
    (normalize_row : List A → Fields F → Outcome A) where
  size-step :
      (i : ℕ) (o : Outcome A) (p p' : Progress A)
      → step list_name normalize_row i o p ≡ some p'
      → (length p'.out + length p'.issues ≡ length p.out + length p.issues + 1)
        × (length p.issues ≤ length p'.issues)
  unfolding step
  size-step i (accept a) p p' h =
      let more = length-append p.out (a ∷ []) in
      let same : record p { out = p.out ++ a ∷ [] } ≡ p' = ground arith in
      subst
        (λ (q : Progress A).
          (length q.out + length q.issues ≡ length p.out + length p.issues + 1)
          × (length p.issues ≤ length q.issues))
        same (omega (arith, more), omega arith)
  size-step i (refuse t) p p' h =
      let more = length-append p.issues (row_issue list_name i t ∷ []) in
      let same : record p { issues = p.issues ++ row_issue list_name i t ∷ [] } ≡ p' =
        ground arith in
      subst
        (λ (q : Progress A).
          (length q.out + length q.issues ≡ length p.out + length p.issues + 1)
          × (length p.issues ≤ length q.issues))
        same (omega (arith, more), omega (arith, more))
  size-step i raise p p' h = absurd (ground arith)

  -- What a loop that is not left by an exception does at its first row.
  rows_loop-cons :
      (i : ℕ) (row : Json F) (rows : Items F) (p p' : Progress A)
      → rows_loop list_name normalize_row i (cons row rows) p ≡ some p'
      → (q : Progress A) × (step list_name normalize_row i
            (row_outcome list_name normalize_row p.out row)
            p
          ≡ some q)
        × (rows_loop list_name normalize_row (i + 1) rows q ≡ some p')
  unfolding rows_loop
  rows_loop-cons i row rows p p' h =
      elim (Option-cases
        (step list_name normalize_row i (row_outcome list_name normalize_row p.out row) p)) [
          | inl e ↦ absurd (ground arith)
          | inr (q, e) ↦ (q, e, ground arith)
        ]

  size-rows_loop :
      (i : ℕ) (rows : Items F) (p p' : Progress A)
      → rows_loop list_name normalize_row i rows p ≡ some p'
      → (length p'.out + length p'.issues ≡ length p.out + length p.issues + count_rows rows)
        × (length p.issues ≤ length p'.issues)
  size-rows_loop i nil p p' h =
      let same : p ≡ p' = unfold rows_loop in ground arith in
      subst
        (λ (q : Progress A).
          (length q.out + length q.issues ≡ length p.out + length p.issues + 0)
          × (length p.issues ≤ length q.issues))
        same (omega arith, omega arith)
  size-rows_loop i (cons row rows) p p' h =
      let (q, first, others) = rows_loop-cons i row rows p p' h in
      let one = size-step i _ p q first in
      let more = size-rows_loop (i + 1) rows q p' others in
      (omega (arith, one, more), omega (arith, one, more))

  -- A value that is no list leaves an issue and no row.
  no_list :
      (issues : List Issue) (p : Progress A) (i : Issue)
      → some (record { out = []; issues = issues ++ i ∷ [] }) ≡ some p
      → (length issues + 1 ≡ length p.issues) × (p.out ≡ [])
  no_list issues p i h =
      let same : record { out = []; issues = issues ++ i ∷ [] } ≡ p = ground arith in
      let more = length-append issues (i ∷ []) in
      subst (λ (q : Progress A). (length issues + 1 ≡ length q.issues) × (q.out ≡ [])) same
        (omega (arith, more), refl)

  pub each_row-grows :
      (raw : Json F) (issues : List Issue) (p : Progress A)
      → each_row list_name normalize_row raw issues ≡ some p
      → length issues ≤ length p.issues
  unfolding each_row
  each_row-grows (array rows) issues p h = (size-rows_loop 0 rows _ p h).1
  each_row-grows raw issues p h = omega (arith, (no_list issues p _ h).0)

  -- Where no issue is left, none was there before, the value is a list, and each of its rows is
  -- accepted.
  pub each_row_clean :
      (raw : Json F) (issues : List Issue) (p : Progress A)
      → each_row list_name normalize_row raw issues ≡ some p
      → length p.issues ≡ 0
      → (length issues ≡ 0)
        × (raw ≡ array (items_of raw))
        × (length p.out ≡ count_rows (items_of raw))
  unfolding each_row
  each_row_clean (array rows) issues p h c =
      let all = size-rows_loop 0 rows _ p h in (omega (arith, all, c), refl, omega (arith, all, c))
  each_row_clean raw issues p h c = absurd (omega (arith, c, (no_list issues p _ h).0))

  module _ {κ} (Inv : List A → Type κ)
      (keeps : (out : List A) (row : Fields F) (a : A)
        → normalize_row out row ≡ accept a
        → Inv out
        → Inv (out ++ a ∷ [])) where
    outcome-Inv :
        (i : ℕ) (o : Outcome A) (p q : Progress A)
        → ((a : A) → o ≡ accept a → Inv (p.out ++ a ∷ []))
        → step list_name normalize_row i o p ≡ some q
        → Inv p.out
        → Inv q.out
    unfolding step
    outcome-Inv i (accept a) p q f h v =
        let same : record p { out = p.out ++ a ∷ [] } ≡ q = ground arith in
        subst (λ (q : Progress A). Inv q.out) same (f a refl)
    outcome-Inv i (refuse t) p q f h v =
        let same : record p { issues = p.issues ++ row_issue list_name i t ∷ [] } ≡ q =
          ground arith in
        subst (λ (q : Progress A). Inv q.out) same v
    outcome-Inv i raise p q f h v = absurd (ground arith)

    row_outcome-Inv :
        (row : Json F) (out : List A) (a : A)
        → row_outcome list_name normalize_row out row ≡ accept a
        → Inv out
        → Inv (out ++ a ∷ [])
    unfolding row_outcome
    row_outcome-Inv (object fields) out a h v = keeps out fields a h v
    row_outcome-Inv row out a h v = absurd (ground arith)

    step-Inv :
        (i : ℕ) (row : Json F) (p q : Progress A)
        → step list_name normalize_row i (row_outcome list_name normalize_row p.out row) p ≡ some q
        → Inv p.out
        → Inv q.out
    step-Inv i row p q h v = outcome-Inv i _ p q (λ a e. row_outcome-Inv row p.out a e v) h v

    rows_loop-Inv :
        (i : ℕ) (rows : Items F) (p p' : Progress A)
        → rows_loop list_name normalize_row i rows p ≡ some p'
        → Inv p.out
        → Inv p'.out
    rows_loop-Inv i nil p p' h v =
        let same : p ≡ p' = unfold rows_loop in ground arith in
        subst (λ (q : Progress A). Inv q.out) same v
    rows_loop-Inv i (cons row rows) p p' h v =
        let (q, first, others) = rows_loop-cons i row rows p p' h in
        rows_loop-Inv (i + 1) rows q p' others (step-Inv i row p q first v)

    -- An invariant of the accepted rows that each accepted row keeps holds when the list is read.
    pub each_row-Inv :
        (raw : Json F) (issues : List Issue) (p : Progress A)
        → each_row list_name normalize_row raw issues ≡ some p
        → Inv []
        → Inv p.out
    unfolding each_row
    each_row-Inv (array rows) issues p h v = rows_loop-Inv 0 rows _ p h v
    each_row-Inv raw issues p h v = subst Inv (sym (no_list issues p _ h).1) v
