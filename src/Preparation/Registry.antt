-- ===== src/Preparation/Registry.antt =====
-- app/preparation_resources.py, `SpoolReservation`: the directory of all operations. An entry is a
-- file of another kind or an operation's directory, with the process that holds its lock, if any,
-- and whether it holds files only, as preparation makes them. A directory's name is a number.
pub mod Limit
use odograph.Prelude.{
  ℕ, zero, suc, ◌+◌, ◌-◌, ◌*◌, ◌/◌, ◌%◌, ◌^◌, ◌≤◌, ◌<◌, min, max, ◌≡◌, refl, sym, ap, ◌∙◌, ◌≢◌, ◌↔◌,
  ◌⊎◌, inl, inr, Bool, true, false, ◌&&◌, ◌||◌, not, Option, none, some, List, [], ◌∷◌, ◌++◌, map,
  arith, ltb, leb, ◌==◌, if◌then◌else◌, ltb→lt, lt→ltb, leb→le, ==_iff, tests, Bool-cases,
  Option-cases, length, get_elem?, get_or, any, all, keep, elem, All, All-append, All-imp,
  length-append, any-append, All-keep, keep-passes, sorted, IsSorted, IsOrder, any-sorted,
  All-sorted, sorted-perm, sorted-IsSorted,
}
use odograph.Preparation.{operation_bytes}

abbrev pub instance_bytes : ℕ
instance_bytes = 2 * 1024 * 1024 * 1024

pub data Entry : Type 0 where
  unknown : Entry
  op : (name : ℕ) (held flat : Bool) → Entry

pub record Root : Type 0 where
  pub entries : List Entry
  -- `failure.lock` is held.
  pub unconfirmed : Bool

-- The entries that are left, and `live`, or `none` for `PreparationBusy`.
unfoldable pub scan : List Entry → List Entry × Option ℕ
scan [] = ([], some 0)
scan (unknown ∷ es) = (unknown ∷ es, none)
scan (op name true flat ∷ es) = (op name true flat ∷ (scan es).0, add (scan es).1)
  where
    add : Option ℕ → Option ℕ
    add none = none
    add (some live) = some (live + operation_bytes)
scan (op name false true ∷ es) = scan es
scan (op name false false ∷ es) = (op name false false ∷ es, none)

-- What becomes of the new directory: it is made with its lock and its budget, or that fails and it
-- is taken away again, or that fails as well, and the directory stays, its lock held or not.
pub data Making : Type 0 where
  made undone : Making
  left_behind : (held flat : Bool) → Making

unfoldable pub make_directory : Root → List Entry → ℕ → Making → Root × Option ℕ
make_directory root es name made = (record root { entries = op name true true ∷ es }, some name)
make_directory root es name undone = (record root { entries = es }, none)
make_directory root es name (left_behind held flat) =
    (record root { entries = op name held flat ∷ es; unconfirmed = true }, none)

-- Another process may hold `registry.lock` until the deadline. `none` is `PreparationBusy`, or
-- `PreparationCleanupUnconfirmed` for a directory that is left behind.
unfoldable pub acquire : Root → Bool → ℕ → Making → Root × Option ℕ
unfolding scan make_directory
acquire root expired name making =
    if expired || root.unconfirmed then (root, none) else reserve (scan root.entries)
  where
    reserve : List Entry × Option ℕ → Root × Option ℕ
    reserve (es, none) = (record root { entries = es }, none)
    reserve (es, some live) =
        if ltb instance_bytes (live + operation_bytes)
        then (record root { entries = es }, none)
        else make_directory root es name making

-- The directory goes when there are only files in it; otherwise its lock stays held.
abbrev pub drop : ℕ → List Entry → List Entry
drop name [] = []
drop name (unknown ∷ es) = unknown ∷ drop name es
drop name (op n held flat ∷ es) =
    let rest = drop name es in if n == name then es else op n held flat ∷ rest

abbrev pub is_flat : ℕ → List Entry → Bool
is_flat name [] = false
is_flat name (unknown ∷ es) = is_flat name es
is_flat name (op n held flat ∷ es) = let rest = is_flat name es in if n == name then flat else rest

-- `true` is a return, `false` is `PreparationBusy`.
unfoldable pub release : Root → ℕ → Root × Bool
release root name =
    if is_flat name root.entries
    then (record root { entries = drop name root.entries }, true)
    else (record root { unconfirmed = true }, false)
