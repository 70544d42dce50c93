-- ===== src/Portable/Values/Ids.antt =====
-- Lists of distinct `$id`s.
use odograph.Prelude.{
  ◌≡◌, refl, true, false, Option, none, some, List, [], ◌∷◌, ◌++◌, arith, any-append,
}
use odograph.Portable.Json.{ℤ, pos, negsuc, eq_int}
use odograph.Portable.Values.{is_known}

eq_int_comm : (a b : ℤ) → eq_int a b ≡ eq_int b a
unfolding eq_int
eq_int_comm (pos a) (pos b) = ground arith
eq_int_comm (negsuc a) (negsuc b) = ground arith
eq_int_comm (pos a) (negsuc b) = refl
eq_int_comm (negsuc a) (pos b) = refl

-- No `$id` occurs twice.
abbrev pub AreDistinct : List ℤ → Type 0
AreDistinct [] = Unit
AreDistinct (x ∷ xs) = (is_known xs x ≡ false) × AreDistinct xs

pub AreDistinct-append :
    (xs : List ℤ) (y : ℤ) → AreDistinct xs → is_known xs y ≡ false → AreDistinct (xs ++ y ∷ [])
unfolding is_known
AreDistinct-append [] y d h = (refl, tt)
AreDistinct-append (x ∷ xs) y d h = (
  ground (arith, any-append (eq_int x) xs (y ∷ []), eq_int_comm x y),
  AreDistinct-append xs y d.1 (ground arith),
)

-- A reference that is null, or the `$id` of a row.
abbrev pub Resolves : List ℤ → Option ℤ → Type 0
Resolves ids none = Unit
Resolves ids (some i) = is_known ids i ≡ true
