-- ===== src/Detector/Reconcile/Greedy.antt =====
-- The greedy loop: the indices that it takes, and the candidates that it passes over.
use odograph.Prelude.{
  ℕ, ◌≡◌, refl, sym, ◌∙◌, inl, inr, Bool, true, false, ◌&&◌, ◌||◌, List, [], ◌∷◌, ◌++◌, map, arith,
  leb, ◌==◌, Bool-cases, any, elem, All, All-imp, any-append, IsSorted,
}
use mathlib.Core.Path.{subst}
use odograph.Detector.Reconcile.{Candidate, larger_first, greedy}

abbrev pub existing_idxs : List Candidate → List ℕ
existing_idxs = map (λ c. c.existing_idx)

abbrev pub new_idxs : List Candidate → List ℕ
new_idxs = map (λ c. c.new_idx)

-- No number occurs twice.
abbrev pub AreDistinct : List ℕ → Type 0
AreDistinct [] = Unit
AreDistinct (x ∷ xs) = (elem x xs ≡ false) × AreDistinct xs

greedy-not_existing :
    (x : ℕ) (me mn : List ℕ) (cs : List Candidate)
    → elem x me ≡ true
    → elem x (existing_idxs (greedy me mn cs)) ≡ false
unfolding greedy
greedy-not_existing x me mn [] h = refl
greedy-not_existing x me mn (c ∷ cs) h = ground (
  arith,
  greedy-not_existing x me mn cs h,
  greedy-not_existing x (c.existing_idx ∷ me) (c.new_idx ∷ mn) cs,
)

greedy-not_new :
    (x : ℕ) (me mn : List ℕ) (cs : List Candidate)
    → elem x mn ≡ true
    → elem x (new_idxs (greedy me mn cs)) ≡ false
unfolding greedy
greedy-not_new x me mn [] h = refl
greedy-not_new x me mn (c ∷ cs) h =
    ground (
      arith,
      greedy-not_new x me mn cs h,
      greedy-not_new x (c.existing_idx ∷ me) (c.new_idx ∷ mn) cs,
    )

pub greedy-distinct :
    (me mn : List ℕ) (cs : List Candidate)
    → AreDistinct (existing_idxs (greedy me mn cs)) × AreDistinct (new_idxs (greedy me mn cs))
unfolding greedy
greedy-distinct me mn [] = (tt, tt)
greedy-distinct me mn (c ∷ cs) = elim (Bool-cases (elem c.existing_idx me || elem c.new_idx mn)) [
  | inl taken ↦ rw taken (greedy-distinct me mn cs)
  | inr free ↦
      let rest = greedy-distinct (c.existing_idx ∷ me) (c.new_idx ∷ mn) cs in
      rw free (
        (
          greedy-not_existing c.existing_idx (c.existing_idx ∷ me) (c.new_idx ∷ mn) cs
              (ground arith),
          rest.0,
        ),
        (greedy-not_new c.new_idx (c.existing_idx ∷ me) (c.new_idx ∷ mn) cs (ground arith), rest.1),
      )
]

pub greedy-All :
    (P : Candidate → Type 0) (me mn : List ℕ) (cs : List Candidate)
    → All P cs
    → All P (greedy me mn cs)
unfolding greedy
greedy-All P me mn [] h = tt
greedy-All P me mn (c ∷ cs) h = elim (Bool-cases (elem c.existing_idx me || elem c.new_idx mn)) [
  | inl taken ↦ rw taken (greedy-All P me mn cs h.1)
  | inr free ↦ rw free (h.0, greedy-All P (c.existing_idx ∷ me) (c.new_idx ∷ mn) cs h.1)
]

-- `d` has a trip of `c`, and at least its overlap.
abbrev pub blocks : Candidate → Candidate → Bool
blocks c d = (d.existing_idx == c.existing_idx || d.new_idx == c.new_idx) && leb c.overlap d.overlap

any-blocks :
    (c : Candidate) (taken : List Candidate)
    → All (λ d. leb c.overlap d.overlap ≡ true) taken
    → (elem c.existing_idx (existing_idxs taken) || elem c.new_idx (new_idxs taken)) ≡ true
    → any (blocks c) taken ≡ true
any-blocks c [] h e = cc
any-blocks c (d ∷ ds) h e = ground (arith, any-blocks c ds h.1)

any-middle :
    (p : Candidate → Bool) (c : Candidate) (xs ys : List Candidate)
    → any p (xs ++ c ∷ ys) ≡ any p ((c ∷ xs) ++ ys)
any-middle p c xs ys = ground (arith, any-append p xs (c ∷ ys), any-append p xs ys)

blocks_self : (c : Candidate) → blocks c c ≡ true
blocks_self c = ground arith

greedy_taken :
    (me mn : List ℕ) (c : Candidate) (cs : List Candidate)
    → (elem c.existing_idx me || elem c.new_idx mn) ≡ true
    → greedy me mn (c ∷ cs) ≡ greedy me mn cs
unfolding greedy
greedy_taken me mn c cs h = rw h

greedy_free :
    (me mn : List ℕ) (c : Candidate) (cs : List Candidate)
    → (elem c.existing_idx me || elem c.new_idx mn) ≡ false
    → greedy me mn (c ∷ cs) ≡ c ∷ greedy (c.existing_idx ∷ me) (c.new_idx ∷ mn) cs
unfolding greedy
greedy_free me mn c cs h = rw h

-- `taken` is what is chosen so far: every candidate is blocked by a chosen one, itself included.
pub greedy-blocks :
    (taken cs : List Candidate)
    → IsSorted larger_first cs
    → All (λ d. All (λ c. leb c.overlap d.overlap ≡ true) cs) taken
    → All
        (λ c. any (blocks c) (taken ++ greedy (existing_idxs taken) (new_idxs taken) cs) ≡ true)
        cs
unfolding larger_first
greedy-blocks taken [] s h = tt
greedy-blocks taken (c ∷ cs) s h =
    elim (Bool-cases
      (elem c.existing_idx (existing_idxs taken) || elem c.new_idx (new_idxs taken))) [
        | inl full ↦
            let rest = greedy (existing_idxs taken) (new_idxs taken) cs in
            subst goal (sym (greedy_taken (existing_idxs taken) (new_idxs taken) c cs full)) (
              any-append (blocks c) taken rest
                  ∙ ground (arith, any-blocks c taken (All-imp _ _ taken (λ d k. k.0) h) full),
              greedy-blocks taken cs s.1 (All-imp _ _ taken (λ d k. k.1) h),
            )
        | inr free ↦
            let rest = greedy (existing_idxs (c ∷ taken)) (new_idxs (c ∷ taken)) cs in
            subst goal (sym (greedy_free (existing_idxs taken) (new_idxs taken) c cs free)) (
              any-middle (blocks c) c taken rest ∙ ground (arith, blocks_self c),
              All-imp _ _ cs (λ b k. any-middle (blocks b) c taken rest ∙ k)
                  (greedy-blocks (c ∷ taken) cs s.1 (s.0, All-imp _ _ taken (λ d k. k.1) h)),
            )
      ]
  where
    goal : List Candidate → Type 0
    goal r = All (λ b. any (blocks b) (taken ++ r) ≡ true) (c ∷ cs)
