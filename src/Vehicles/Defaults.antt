-- ===== src/Vehicles/Defaults.antt =====
-- What each statement does to the defaults of the account it is about, and of the others.
use odograph.Prelude.{
  ℕ, ◌+◌, ◌≤◌, ◌<◌, ◌≡◌, refl, inl, inr, true, false, not, List, [], ◌∷◌, ◌++◌, arith, ◌==◌, ==_iff,
  Bool-cases, keep,
}
use odograph.Vehicles.{
  Vehicle, Details, defaults, clear_default, flag_default, has_active, update_rows, retire,
}

-- The ids rise along the rows, from `lo` on and below `hi`.
abbrev pub Ascends : ℕ → ℕ → List Vehicle → Type 0
Ascends lo hi [] = lo ≤ hi
Ascends lo hi (r ∷ rs) = (lo ≤ r.id) × Ascends (r.id + 1) hi rs

abbrev pub IsUsable : Vehicle → Type 0
IsUsable r = (r.is_default ≡ true) → (r.active ≡ true)

pub defaults-append :
    (a : ℕ) (rs ss : List Vehicle) → defaults a (rs ++ ss) ≡ defaults a rs ++ defaults a ss
unfolding defaults
defaults-append a [] ss = refl
defaults-append a (r ∷ rs) ss = ground (arith, defaults-append a rs ss)

pub defaults-clear_default : (a : ℕ) (rs : List Vehicle) → defaults a (clear_default a rs) ≡ []
unfolding defaults clear_default
defaults-clear_default a [] = refl
defaults-clear_default a (r ∷ rs) = ground (arith, defaults-clear_default a rs)

pub defaults-clear_default_other :
    (a b : ℕ) (rs : List Vehicle)
    → (b == a) ≡ false
    → defaults b (clear_default a rs) ≡ defaults b rs
unfolding defaults clear_default
defaults-clear_default_other a b [] h = refl
defaults-clear_default_other a b (r ∷ rs) h = ground (arith, defaults-clear_default_other a b rs h)

pub defaults-flag_default_other :
    (a b id : ℕ) (rs : List Vehicle)
    → (b == a) ≡ false
    → defaults b (flag_default a id rs) ≡ defaults b rs
unfolding defaults flag_default
defaults-flag_default_other a b id [] h = refl
defaults-flag_default_other a b id (r ∷ rs) h =
    ground (arith, defaults-flag_default_other a b id rs h)

pub defaults-update_rows :
    (a b id : ℕ) (d : Details) (rs : List Vehicle)
    → defaults b (update_rows a id d rs) ≡ defaults b rs
unfolding defaults update_rows
defaults-update_rows a b id d [] = refl
defaults-update_rows a b id d (r ∷ rs) = ground (arith, defaults-update_rows a b id d rs)

pub defaults-retire :
    (a id : ℕ) (rs : List Vehicle)
    → defaults a (retire a id rs) ≡ keep (λ d. not (d == id)) (defaults a rs)
unfolding defaults retire
defaults-retire a id [] = refl
defaults-retire a id (r ∷ rs) = ground (arith, defaults-retire a id rs)

pub defaults-retire_other :
    (a b id : ℕ) (rs : List Vehicle)
    → (b == a) ≡ false
    → defaults b (retire a id rs) ≡ defaults b rs
unfolding defaults retire
defaults-retire_other a b id [] h = refl
defaults-retire_other a b id (r ∷ rs) h = ground (arith, defaults-retire_other a b id rs h)

-- An id below all of the rows' is not among them.
pub flag_default-none :
    (a id lo hi : ℕ) (rs : List Vehicle)
    → Ascends lo hi rs
    → id < lo
    → (flag_default a id rs ≡ rs) × (has_active a id rs ≡ false)
unfolding flag_default has_active
flag_default-none a id lo hi [] s l = (refl, refl)
flag_default-none a id lo hi (r ∷ rs) s l =
    let (same, gone) = flag_default-none a id (r.id + 1) hi rs s.1 (omega arith) in
    let other : (r.id == id) ≡ false = ground arith in rw (other, same, gone) (refl, refl)

-- With the defaults cleared, the active vehicle with the id is the account's only one.
pub defaults-flag_default :
    (a id lo hi : ℕ) (rs : List Vehicle)
    → Ascends lo hi rs
    → defaults a rs ≡ []
    → has_active a id rs ≡ true
    → defaults a (flag_default a id rs) ≡ id ∷ []
unfolding defaults flag_default has_active
defaults-flag_default a id lo hi [] s e h = absurd (ground arith)
defaults-flag_default a id lo hi (r ∷ rs) s e h = elim (Bool-cases (r.id == id)) [
  | inr other ↦
      let deeper = defaults-flag_default a id (r.id + 1) hi rs s.1 (ground arith) (ground arith) in
      ground (arith, other, deeper)
  | inl same ↦
      let (unchanged, gone) =
        flag_default-none a id (r.id + 1) hi rs s.1 (omega (arith, (==_iff r.id id).0 same)) in
      ground (arith, same, unchanged, gone, (==_iff r.id id).0 same)
]

pub has_active-clear_default :
    (a id : ℕ) (rs : List Vehicle) → has_active a id (clear_default a rs) ≡ has_active a id rs
unfolding has_active clear_default
has_active-clear_default a id [] = refl
has_active-clear_default a id (r ∷ rs) = ground (arith, has_active-clear_default a id rs)
