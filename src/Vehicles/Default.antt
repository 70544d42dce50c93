-- ===== src/Vehicles/Default.antt =====
-- Of all the calls: the table stays sound, and each account has a default as the calls say.
use odograph.Prelude.{
  ℕ, ◌+◌, ◌≤◌, ◌≡◌, refl, ◌∙◌, inl, inr, Bool, true, false, ◌&&◌, not, Option, none, some, List, [],
  ◌∷◌, ◌++◌, arith, leb, ◌==◌, if◌then◌else◌, Bool-cases, length, keep, All,
}
use odograph.Vehicles.{
  Vehicle, Table, Details, Result, done, not_found, unique_violation, defaults, clear_default,
  flag_default, has_active, insert_vehicle, create_vehicle, update_vehicle, set_default_vehicle,
  deactivate_vehicle,
}
use odograph.Vehicles.Defaults.{
  Ascends, IsUsable, defaults-clear_default, defaults-update_rows, defaults-retire,
  defaults-flag_default, has_active-clear_default,
}

-- Ids are the primary key, an account has one default at most, and a retired vehicle is none.
pub record IsSound (t : Table) : Type 0 where
  pub key : Ascends 0 t.next_id t.rows
  pub one : (a : ℕ) → length (defaults a t.rows) ≤ 1
  pub usable : All IsUsable t.rows

pub data Call : Type 0 where
  creates : Details → Bool → Call
  updates : ℕ → Details → Call
  sets_default deactivates : ℕ → Call

abbrev without_id : Result (Table × ℕ) → Result Table
without_id (done (t, id)) = done t
without_id not_found = not_found
without_id unique_violation = unique_violation

abbrev pub run : ℕ → Call → Table → Result Table
run account (creates d is_default) t = without_id (create_vehicle account t d is_default)
run account (updates id d) t = update_vehicle account t id d
run account (sets_default id) t = set_default_vehicle account t id
run account (deactivates id) t = deactivate_vehicle account t id

abbrev head : List ℕ → Option ℕ
head [] = none
head (id ∷ ids) = some id

-- What an account sees: its default.
abbrev pub default_of : ℕ → List Vehicle → Option ℕ
default_of account rows = head (defaults account rows)

abbrev pub abstracted : ℕ → Result Table → Result (Option ℕ)
abstracted account (done t) = done (default_of account t.rows)
abstracted account not_found = not_found
abstracted account unique_violation = unique_violation

abbrev unless_retired : ℕ → Option ℕ → Option ℕ
unless_retired id none = none
unless_retired id (some d) = if d == id then none else some d

-- The promise: the new default from the old one, the new vehicle's id, and whether an id is that
-- of an active vehicle of the account.
abbrev pub promised : Call → ℕ → (ℕ → Bool) → Option ℕ → Result (Option ℕ)
promised (creates d true) fresh active default = done (some fresh)
promised (creates d false) fresh active default = done default
promised (updates id d) fresh active default = done default
promised (sets_default id) fresh active default = if active id then done (some id) else not_found
promised (deactivates id) fresh active default = done (unless_retired id default)

-- The row that is inserted.
abbrev pub new_row : ℕ → ℕ → Details → Bool → Vehicle
new_row a id d is_default = record {
  id = id;
  account = a;
  name = d.name;
  make = d.make;
  model = d.model;
  plate = d.plate;
  is_default = is_default;
  active = true;
}

eq_self : (a : ℕ) → (a == a) ≡ true
eq_self a = ground arith

eq_sym : (a b : ℕ) → (b == a) ≡ false → (a == b) ≡ false
eq_sym a b h = ground arith

pub defaults-new_row :
    (a id : ℕ) (d : Details) (rs : List Vehicle)
    → defaults a (rs ++ new_row a id d true ∷ []) ≡ defaults a rs ++ id ∷ []
unfolding defaults
defaults-new_row a id d [] = rw (eq_self a) refl
defaults-new_row a id d (r ∷ rs) = ground (arith, defaults-new_row a id d rs)

pub defaults-new_row-false :
    (a b id : ℕ) (d : Details) (rs : List Vehicle)
    → defaults b (rs ++ new_row a id d false ∷ []) ≡ defaults b rs
unfolding defaults
defaults-new_row-false a b id d [] = ground arith
defaults-new_row-false a b id d (r ∷ rs) = ground (arith, defaults-new_row-false a b id d rs)

pub defaults-new_row_other :
    (a b id : ℕ) (d : Details) (is_default : Bool) (rs : List Vehicle)
    → (b == a) ≡ false
    → defaults b (rs ++ new_row a id d is_default ∷ []) ≡ defaults b rs
unfolding defaults
defaults-new_row_other a b id d is_default [] h = rw (eq_sym a b h) refl
defaults-new_row_other a b id d is_default (r ∷ rs) h =
    ground (arith, defaults-new_row_other a b id d is_default rs h)

-- The rows that creation leaves.
abbrev pub rows_with : ℕ → Table → Details → Bool → List Vehicle
rows_with a t d true = clear_default a t.rows ++ new_row a t.next_id d true ∷ []
rows_with a t d false = t.rows ++ new_row a t.next_id d false ∷ []

pub create_vehicle-done :
    (a : ℕ) (t : Table) (d : Details) (b : Bool)
    → IsSound t
    → create_vehicle a t d b
      ≡ done (record { rows = rows_with a t d b; next_id = t.next_id + 1 }, t.next_id)
unfolding create_vehicle insert_vehicle
create_vehicle-done a t d true s =
    let cleared = defaults-clear_default a t.rows in
    rw (cleared, defaults-new_row a t.next_id d (clear_default a t.rows), cleared) refl
create_vehicle-done a t d false s =
    let few : leb (length (defaults a t.rows)) 1 ≡ true = ground (arith, s.one a) in
    rw (insert_vehicle, defaults-new_row-false a a t.next_id d t.rows, few) refl

pub clear_default-Ascends :
    (a lo hi : ℕ) (rs : List Vehicle) → Ascends lo hi rs → Ascends lo hi (clear_default a rs)
unfolding clear_default
clear_default-Ascends a lo hi [] h = h
clear_default-Ascends a lo hi (r ∷ rs) h =
    let deeper = clear_default-Ascends a (r.id + 1) hi rs h.1 in
    elim (Bool-cases (r.account == a && r.is_default)) [
      | inl e ↦ rw e (h.0, deeper)
      | inr e ↦ rw e (h.0, deeper)
    ]

-- The rows that a new default leaves.
abbrev pub rows_flagged : ℕ → Table → ℕ → List Vehicle
rows_flagged a t id = flag_default a id (clear_default a t.rows)

pub defaults-rows_flagged :
    (a : ℕ) (t : Table) (id : ℕ)
    → IsSound t
    → has_active a id t.rows ≡ true
    → defaults a (rows_flagged a t id) ≡ id ∷ []
defaults-rows_flagged a t id s h =
    defaults-flag_default a id 0 t.next_id (clear_default a t.rows)
      (clear_default-Ascends a 0 t.next_id t.rows s.key) (defaults-clear_default a t.rows)
      (has_active-clear_default a id t.rows ∙ h)

pub set_default_vehicle-done :
    (a : ℕ) (t : Table) (id : ℕ)
    → IsSound t
    → has_active a id t.rows ≡ true
    → set_default_vehicle a t id ≡ done (record t { rows = rows_flagged a t id })
unfolding set_default_vehicle
set_default_vehicle-done a t id s h =
    rw (h, defaults-clear_default a t.rows, defaults-rows_flagged a t id s h) refl

pub set_default_vehicle-not_found :
    (a : ℕ) (t : Table) (id : ℕ)
    → has_active a id t.rows ≡ false
    → set_default_vehicle a t id ≡ not_found
unfolding set_default_vehicle
set_default_vehicle-not_found a t id h = rw h refl

head-keep :
    (id : ℕ) (ids : List ℕ)
    → length ids ≤ 1
    → head (keep (λ d. not (d == id)) ids) ≡ unless_retired id (head ids)
head-keep id [] h = refl
head-keep id (d ∷ []) h = ground arith
head-keep id (d ∷ e ∷ ids) h = absurd (ground arith)

-- From a sound table, a call never breaks the index, and it leaves the account the default that
-- was promised: the new vehicle, the chosen one if it is active, the old one, or none when it is
-- the one that retires.
pub run-promised :
    (a : ℕ) (c : Call) (t : Table)
    → IsSound t
    → abstracted a (run a c t)
      ≡ promised c t.next_id (λ id. has_active a id t.rows) (default_of a t.rows)
unfolding update_vehicle deactivate_vehicle
run-promised a (creates d true) t s =
    rw
      (
        create_vehicle-done a t d true s,
        defaults-new_row a t.next_id d (clear_default a t.rows),
        defaults-clear_default a t.rows,
      )
      refl
run-promised a (creates d false) t s =
    rw (create_vehicle-done a t d false s, defaults-new_row-false a a t.next_id d t.rows) refl
run-promised a (updates id d) t s = rw (defaults-update_rows a a id d t.rows) refl
run-promised a (sets_default id) t s = elim (Bool-cases (has_active a id t.rows)) [
  | inl h ↦ rw (set_default_vehicle-done a t id s h, defaults-rows_flagged a t id s h, h) refl
  | inr h ↦ rw (set_default_vehicle-not_found a t id h, h) refl
]
run-promised a (deactivates id) t s =
    rw (defaults-retire a id t.rows, head-keep id (defaults a t.rows) (s.one a)) refl
