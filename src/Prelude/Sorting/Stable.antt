-- ===== src/Prelude/Sorting/Stable.antt =====
-- A sorted list is left alone, and the order of a list with distinct keys does not matter.
use mathlib.Core.Path.{◌≡◌, refl, ◌∙◌, ap₂, subst, subst₂}
use mathlib.Core.Bool.{Bool, true, false, ◌&&◌}
use mathlib.Core.List.{List, [], ◌∷◌}
use mathlib.Core.List.{Permᴰ}
use native.Mathlib.Omega.{arith}
use odograph.Prelude.Lists.{All}
use odograph.Prelude.Sorting.{insert, sorted, IsSorted, IsOrder}

module _ {ℓ} {A : Type ℓ} (le : A → A → Bool) where
  insert-below : (x : A) (xs : List A) → All (λ y. le x y ≡ true) xs → insert le x xs ≡ x ∷ xs
  insert-below x [] h = refl
  insert-below x (y ∷ ys) h = rw (h.0)

  pub sorted-of_IsSorted : (xs : List A) → IsSorted le xs → sorted le xs ≡ xs
  unfolding sorted
  sorted-of_IsSorted [] h = refl
  sorted-of_IsSorted (x ∷ xs) h = rw (sorted-of_IsSorted xs h.1) (insert-below x xs h.0)

  -- One of the two is strictly in front of the other.
  abbrev pub Apart : A → A → Type 0
  Apart x y = (le x y && le y x) ≡ false

  abbrev pub AllApart : List A → Type ℓ
  AllApart [] = Unit
  AllApart (x ∷ xs) = All {ℓ, 0} (Apart x) xs × AllApart xs

module _ {ℓ} {A : Type ℓ} {le : A → A → Bool} (o : IsOrder le) where
  insert_comm :
      (x y : A) (xs : List A)
      → Apart le x y
      → insert le x (insert le y xs) ≡ insert le y (insert le x xs)
  insert_comm x y [] d = ground (arith, o.total x y, o.total y x)
  insert_comm x y (z ∷ zs) d = ground (
    arith,
    o.total x y,
    o.total y x,
    insert_comm x y zs d,
    o.total x z,
    o.total y z,
    o.total z x,
    o.total z y,
    o.trans x y z,
    o.trans y x z,
    o.trans x z y,
    o.trans y z x,
  )

module _ {ℓ} {A : Type ℓ} (le : A → A → Bool) where
  All-perm : (P : A → Type 0) {xs ys : List A} → Permᴰ xs ys → All P xs → All P ys
  All-perm P Permᴰ.nil h = h
  All-perm P (Permᴰ.cons e p) h = (subst P e h.0, All-perm P p h.1)
  All-perm P (Permᴰ.swap e f) h = (subst P f h.1.0, (subst P e h.0, h.1.1))
  All-perm P (Permᴰ.trans p q) h = All-perm P q (All-perm P p h)

  AllApart-perm : {xs ys : List A} → Permᴰ xs ys → AllApart le xs → AllApart le ys
  AllApart-perm Permᴰ.nil h = h
  AllApart-perm (Permᴰ.cons {l₂ = l} e p) h =
      (subst (λ x. All (Apart le x) l) e (All-perm (Apart le _) p h.0), AllApart-perm p h.1)
  AllApart-perm (Permᴰ.swap {l = l} e f) h =
      subst₂ (λ x y. AllApart le (y ∷ x ∷ l)) e f ((ground arith, h.1.0), (h.0.1, h.1.1))
  AllApart-perm (Permᴰ.trans p q) h = AllApart-perm q (AllApart-perm p h)

module _ {ℓ} {A : Type ℓ} {le : A → A → Bool} (o : IsOrder le) where
  -- With distinct keys the result of the sort does not depend on the order of the input.
  pub sorted-perm_eq : {xs ys : List A} → Permᴰ xs ys → AllApart le xs → sorted le xs ≡ sorted le ys
  unfolding sorted
  sorted-perm_eq Permᴰ.nil h = refl
  sorted-perm_eq (Permᴰ.cons e p) h = ap₂ (insert le) e (sorted-perm_eq p h.1)
  sorted-perm_eq (Permᴰ.swap {a = a} {b = b} {l = l} e f) h =
      insert_comm o a b (sorted le l) h.0.0
      ∙ ap₂ (λ x y. insert le x (insert le y (sorted le l))) f e
  sorted-perm_eq (Permᴰ.trans p q) h = sorted-perm_eq p h ∙ sorted-perm_eq q (AllApart-perm le p h)
