-- ===== src/Vehicles/Rows.antt =====
-- What each statement keeps of the table: the order of the ids, and that defaults are active.
use odograph.Prelude.{
  ℕ, ◌+◌, ◌≡◌, refl, inl, inr, Bool, true, ◌&&◌, List, [], ◌∷◌, ◌++◌, arith, ◌==◌, ==_iff,
  Bool-cases, All, All-append,
}
use odograph.Vehicles.{
  Vehicle, Details, clear_default, flag_default, has_active, update_rows, retire,
}
use odograph.Vehicles.Defaults.{Ascends, IsUsable, flag_default-none}
use odograph.Vehicles.Default.{new_row}

pub Ascends-append_row :
    (lo hi : ℕ) (rs : List Vehicle) (r : Vehicle)
    → r.id ≡ hi
    → Ascends lo hi rs
    → Ascends lo (hi + 1) (rs ++ r ∷ [])
Ascends-append_row lo hi [] r e h = (omega arith, omega arith)
Ascends-append_row lo hi (q ∷ rs) r e h = (h.0, Ascends-append_row (q.id + 1) hi rs r e h.1)

pub IsUsable-append_row :
    (a id : ℕ) (d : Details) (b : Bool) (rs : List Vehicle)
    → All IsUsable rs
    → All IsUsable (rs ++ new_row a id d b ∷ [])
IsUsable-append_row a id d b rs u =
    All-append IsUsable rs (new_row a id d b ∷ []) u ((λ e. refl), tt)

pub IsUsable-clear_default :
    (a : ℕ) (rs : List Vehicle) → All IsUsable rs → All IsUsable (clear_default a rs)
unfolding clear_default
IsUsable-clear_default a [] u = u
IsUsable-clear_default a (r ∷ rs) u = elim (Bool-cases (r.account == a && r.is_default)) [
  | inl e ↦ rw e ((λ h. absurd (ground arith)), IsUsable-clear_default a rs u.1)
  | inr e ↦ rw e (u.0, IsUsable-clear_default a rs u.1)
]

pub retire-lem :
    (a id lo hi : ℕ) (rs : List Vehicle)
    → Ascends lo hi rs
    → All IsUsable rs
    → Ascends lo hi (retire a id rs) × All IsUsable (retire a id rs)
unfolding retire
retire-lem a id lo hi [] h u = (h, u)
retire-lem a id lo hi (r ∷ rs) h u =
    let (k, v) = retire-lem a id (r.id + 1) hi rs h.1 u.1 in
    elim (Bool-cases (r.id == id && r.account == a)) [
      | inl e ↦ rw e ((h.0, k), ((λ x. absurd (ground arith)), v))
      | inr e ↦ rw e ((h.0, k), (u.0, v))
    ]

pub update_rows-lem :
    (a id lo hi : ℕ) (d : Details) (rs : List Vehicle)
    → Ascends lo hi rs
    → All IsUsable rs
    → Ascends lo hi (update_rows a id d rs) × All IsUsable (update_rows a id d rs)
unfolding update_rows
update_rows-lem a id lo hi d [] h u = (h, u)
update_rows-lem a id lo hi d (r ∷ rs) h u =
    let (k, v) = update_rows-lem a id (r.id + 1) hi d rs h.1 u.1 in
    elim (Bool-cases (r.id == id && r.account == a)) [
      | inl e ↦ rw e ((h.0, k), (u.0, v))
      | inr e ↦ rw e ((h.0, k), (u.0, v))
    ]

pub flag_default-lem :
    (a id lo hi : ℕ) (rs : List Vehicle)
    → Ascends lo hi rs
    → All IsUsable rs
    → has_active a id rs ≡ true
    → Ascends lo hi (flag_default a id rs) × All IsUsable (flag_default a id rs)
unfolding flag_default has_active
flag_default-lem a id lo hi [] h u e = absurd (ground arith)
flag_default-lem a id lo hi (r ∷ rs) h u e = elim (Bool-cases (r.id == id)) [
  | inr other ↦
      let (k, v) = flag_default-lem a id (r.id + 1) hi rs h.1 u.1 (ground arith) in
      rw other ((h.0, k), (u.0, v))
  | inl same ↦
      let (unchanged, gone) =
        flag_default-none a id (r.id + 1) hi rs h.1 (omega (arith, (==_iff r.id id).0 same)) in
      let active : r.active ≡ true = ground (arith, gone, same) in
      elim (Bool-cases (r.account == a)) [
        | inl mine ↦ rw (same, mine, unchanged) (h, ((λ x. active), u.1))
        | inr theirs ↦ rw (same, theirs, unchanged) (h, u)
      ]
]
