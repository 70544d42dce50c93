-- ===== src/Detector/Overrides/Freed.antt =====
-- `_apply_overrides`: no stay that is left is suppressed, none is lost, and splits take effect.
use odograph.Prelude.{
  ℕ, ◌≡◌, refl, ◌∙◌, inl, inr, Bool, true, false, ◌&&◌, not, Option, none, some, List, [], ◌∷◌,
  ◌++◌, arith, leb, Bool-cases, Option-cases, get_elem?, any, keep, All, All-append, All-imp,
  any-append, keep-passes, any-sorted, All-sorted,
}
use odograph.Detector.Model.{Point, Stay, Override}
use odograph.Detector.Overrides.{
  suppress_ranges, forced_ids, find_idx, is_suppressed, holds_idx, forced_stay, force_at, force_one,
  force_all, first_le, apply_overrides,
}

module _ {F : Type 0} (ranges : List (ℕ × ℕ)) where
  -- The times of the stay touch no suppress range.
  abbrev pub IsFree : Stay F → Type 0
  IsFree s = is_suppressed ranges s ≡ false

  forced-IsFree :
      (p : Point F) (idx : ℕ)
      → any (λ o. leb o.0 p.t && leb p.t o.1) ranges ≡ false
      → IsFree (forced_stay p idx)
  unfolding is_suppressed forced_stay
  forced-IsFree p idx h = h

  force_at-IsFree :
      (kept : List (Stay F)) (idx : ℕ) (p : Option (Point F))
      → All IsFree kept
      → All IsFree (force_at ranges kept idx p)
  unfolding force_at
  force_at-IsFree kept idx none h = h
  force_at-IsFree kept idx (some p) h =
      elim (Bool-cases (any (λ o. leb o.0 p.t && leb p.t o.1) ranges)) [
        | inl e ↦ rw e h
        | inr e ↦ elim (Bool-cases (any (holds_idx idx) kept)) [
          | inl held ↦ rw (e, held) h
          | inr free ↦ rw (e, free) (All-append IsFree kept _ h (forced-IsFree p idx e, tt))
        ]
      ]

  force_all-IsFree :
      (pts : List (Point F)) (ids : List (Option ℕ)) (kept : List (Stay F))
      → All IsFree kept
      → All IsFree (force_all pts ranges kept ids)
  unfolding force_all force_one
  force_all-IsFree pts [] kept h = h
  force_all-IsFree pts (id ∷ ids) kept h =
      force_all-IsFree pts ids _ (elim (Option-cases (find_idx id 0 pts)) [
        | inl e ↦ rw (e, force_one, All) h
        | inr (idx, e) ↦ rw (e, force_one, All) (force_at-IsFree kept idx (get_elem? pts idx) h)
      ])

-- No stay that is left touches a suppress range, the forced ones included.
pub apply_overrides-IsFree :
    {F : Type 0} (pts : List (Point F)) (stays : List (Stay F)) (overrides : List Override)
    → All (IsFree (suppress_ranges overrides)) (apply_overrides pts stays overrides)
unfolding apply_overrides
apply_overrides-IsFree pts stays overrides =
    let ranges = suppress_ranges overrides in
    All-sorted first_le (IsFree ranges) _ (
      force_all-IsFree ranges pts (forced_ids overrides) _ (
        All-imp _ (IsFree ranges) _ (λ s e. ground arith)
          (keep-passes (λ s. not (is_suppressed ranges s)) stays)))

module _ {F : Type 0} (pts : List (Point F)) (ranges : List (ℕ × ℕ)) (p : Stay F → Bool) where
  force_at-any :
      (kept : List (Stay F)) (idx : ℕ) (x : Option (Point F))
      → any p kept ≡ true
      → any p (force_at ranges kept idx x) ≡ true
  unfolding force_at
  force_at-any kept idx none h = h
  force_at-any kept idx (some x) h = ground (arith, any-append p kept (forced_stay x idx ∷ []))

  force_one-any :
      (kept : List (Stay F)) (id : Option ℕ)
      → any p kept ≡ true
      → any p (force_one pts ranges kept id) ≡ true
  unfolding force_one
  force_one-any kept id h = elim (Option-cases (find_idx id 0 pts)) [
    | inl e ↦ rw (e, force_one) h
    | inr (idx, e) ↦ rw (e, force_one) (force_at-any kept idx (get_elem? pts idx) h)
  ]

  force_all-any :
      (ids : List (Option ℕ)) (kept : List (Stay F))
      → any p kept ≡ true
      → any p (force_all pts ranges kept ids) ≡ true
  unfolding force_all
  force_all-any [] kept h = h
  force_all-any (id ∷ ids) kept h = force_all-any ids _ (force_one-any kept id h)

any-keep :
    {F : Type 0} (p q : Stay F → Bool) (ss : List (Stay F))
    → any p (keep q ss) ≡ any (λ s. q s && p s) ss
any-keep p q [] = refl
any-keep p q (s ∷ ss) = ground (arith, any-keep p q ss)

-- No stay is lost: where a stay touches no suppress range and passes a test, one that is left
-- passes it, whatever the test.
pub apply_overrides-any :
    {F : Type 0} (pts : List (Point F)) (stays : List (Stay F)) (overrides : List Override)
    (p : Stay F → Bool)
    → any (λ s. not (is_suppressed (suppress_ranges overrides) s) && p s) stays ≡ true
    → any p (apply_overrides pts stays overrides) ≡ true
unfolding apply_overrides
apply_overrides-any pts stays overrides p h =
    let ranges = suppress_ranges overrides in
    any-sorted first_le p _
    ∙ force_all-any pts ranges p (forced_ids overrides) _
        (any-keep p (λ s. not (is_suppressed ranges s)) stays ∙ h)

forced_holds : {F : Type 0} (x : Point F) (idx : ℕ) → holds_idx idx (forced_stay x idx) ≡ true
unfolding holds_idx forced_stay
forced_holds x idx = ground arith

force_one-holds :
    {F : Type 0} (pts : List (Point F)) (ranges : List (ℕ × ℕ)) (kept : List (Stay F))
    (id : Option ℕ) (idx : ℕ) (x : Point F)
    → find_idx id 0 pts ≡ some idx
    → get_elem? pts idx ≡ some x
    → any (λ o. leb o.0 x.t && leb x.t o.1) ranges ≡ false
    → any (holds_idx idx) (force_one pts ranges kept id) ≡ true
unfolding force_one force_at
force_one-holds pts ranges kept id idx x e f g =
    rw (e, f, g, force_one, force_at)
      (ground (arith, any-append (holds_idx idx) kept (forced_stay x idx ∷ []), forced_holds x idx))

force_all-holds :
    {F : Type 0} (pts : List (Point F)) (ranges : List (ℕ × ℕ)) (before after : List (Option ℕ))
    (kept : List (Stay F)) (id : Option ℕ) (idx : ℕ) (x : Point F)
    → find_idx id 0 pts ≡ some idx
    → get_elem? pts idx ≡ some x
    → any (λ o. leb o.0 x.t && leb x.t o.1) ranges ≡ false
    → any (holds_idx idx) (force_all pts ranges kept (before ++ id ∷ after)) ≡ true
unfolding force_all
force_all-holds pts ranges [] after kept id idx x e f g =
    force_all-any pts ranges (holds_idx idx) after _
      (force_one-holds pts ranges kept id idx x e f g)
force_all-holds pts ranges (b ∷ before) after kept id idx x e f g =
    force_all-holds pts ranges before after _ id idx x e f g

-- A split takes effect: a forced point of the track that no suppress range covers lies in a stay.
pub apply_overrides-forced :
    {F : Type 0} (pts : List (Point F)) (stays : List (Stay F)) (overrides : List Override)
    (before after : List (Option ℕ)) (id : Option ℕ) (idx : ℕ) (x : Point F)
    → forced_ids overrides ≡ before ++ id ∷ after
    → find_idx id 0 pts ≡ some idx
    → get_elem? pts idx ≡ some x
    → any (λ o. leb o.0 x.t && leb x.t o.1) (suppress_ranges overrides) ≡ false
    → any (holds_idx idx) (apply_overrides pts stays overrides) ≡ true
unfolding apply_overrides
apply_overrides-forced pts stays overrides before after id idx x split e f g =
    any-sorted first_le (holds_idx idx) _
    ∙ rw split (force_all-holds pts (suppress_ranges overrides) before after _ id idx x e f g)
