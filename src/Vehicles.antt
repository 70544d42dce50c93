-- ===== src/Vehicles.antt =====
-- app/vehicles.py, with the tables that its statements read and write (migrations/008_vehicles.sql
-- and 026_account_ownership.sql). The connection is bound to an account. Each statement that
-- writes is checked against `vehicles_one_default_idx`, which allows an account one default.
pub mod Defaults
pub mod Default
pub mod Rows
pub mod Sound
mod Tests
use odograph.Prelude.{
  ℕ, zero, suc, ◌+◌, ◌-◌, ◌*◌, ◌/◌, ◌%◌, ◌^◌, ◌≤◌, ◌<◌, min, max, ◌≡◌, refl, sym, ap, ◌∙◌, ◌≢◌, ◌↔◌,
  ◌⊎◌, inl, inr, Bool, true, false, ◌&&◌, ◌||◌, not, Option, none, some, List, [], ◌∷◌, ◌++◌, map,
  arith, ltb, leb, ◌==◌, if◌then◌else◌, ltb→lt, lt→ltb, leb→le, ==_iff, tests, Bool-cases,
  Option-cases, length, get_elem?, get_or, any, all, keep, elem, All, All-append, All-imp,
  length-append, any-append, All-keep, keep-passes, sorted, IsSorted, IsOrder, any-sorted,
  All-sorted, sorted-perm, sorted-IsSorted,
}
use Prim.Native.String.{String}

pub record Vehicle : Type 0 where
  pub id : ℕ
  pub account : ℕ
  pub name : String
  pub make : Option String
  pub model : Option String
  pub plate : Option String
  pub is_default : Bool
  pub active : Bool

-- The rows, and the identity column's next value.
pub record Table : Type 0 where
  pub rows : List Vehicle
  pub next_id : ℕ

pub data Result (A : Type 0) : Type 0 where
  done : A → Result A
  -- HTTP status 404
  not_found : Result A
  unique_violation : Result A

-- The ids of the account's vehicles that are its default.
unfoldable pub defaults : ℕ → List Vehicle → List ℕ
defaults account [] = []
defaults account (r ∷ rs) =
    let rest = defaults account rs in
    if r.account == account && r.is_default then r.id ∷ rest else rest

abbrev pub index_allows : ℕ → List Vehicle → Bool
index_allows account rows = leb (length (defaults account rows)) 1

-- ORDER BY name, in the order of the database's collation.
unfoldable pub list_vehicles : (String → String → Bool) → ℕ → List Vehicle → Bool → List Vehicle
unfolding sorted
list_vehicles name_le account rows include_inactive =
    sorted (λ r s. name_le r.name s.name)
      (keep (λ r. (r.account == account) && (include_inactive || r.active)) rows)

-- UPDATE vehicles SET is_default = false WHERE account_id = %s AND is_default
unfoldable pub clear_default : ℕ → List Vehicle → List Vehicle
clear_default account [] = []
clear_default account (r ∷ rs) =
    (if r.account == account && r.is_default then record r { is_default = false } else r)
    ∷ clear_default account rs

-- UPDATE vehicles SET is_default = true WHERE id = %s AND account_id = %s
unfoldable pub flag_default : ℕ → ℕ → List Vehicle → List Vehicle
flag_default account id [] = []
flag_default account id (r ∷ rs) =
    (if r.id == id && r.account == account then record r { is_default = true } else r)
    ∷ flag_default account id rs

-- SELECT id FROM vehicles WHERE id = %s AND account_id = %s AND active
unfoldable pub has_active : ℕ → ℕ → List Vehicle → Bool
has_active account id [] = false
has_active account id (r ∷ rs) =
    (r.id == id && r.account == account && r.active) || has_active account id rs

-- What a vehicle is described by.
pub record Details : Type 0 where
  pub name : String
  pub make : Option String
  pub model : Option String
  pub plate : Option String

unfoldable pub insert_vehicle : ℕ → Table → Details → Bool → Result (Table × ℕ)
unfolding defaults
insert_vehicle account t d is_default =
    let row : Vehicle = record {
      id = t.next_id;
      account = account;
      name = d.name;
      make = d.make;
      model = d.model;
      plate = d.plate;
      is_default = is_default;
      active = true;
    } in
    let rows = t.rows ++ row ∷ [] in
    if index_allows account rows
    then done (record { rows = rows; next_id = t.next_id + 1 }, t.next_id)
    else unique_violation

unfoldable pub create_vehicle : ℕ → Table → Details → Bool → Result (Table × ℕ)
unfolding defaults clear_default insert_vehicle
create_vehicle account t d true =
    let cleared = clear_default account t.rows in
    if index_allows account cleared
    then insert_vehicle account (record t { rows = cleared }) d true
    else unique_violation
create_vehicle account t d false = insert_vehicle account t d false

abbrev described : Details → Vehicle → Vehicle
described d r = record r { name = d.name; make = d.make; model = d.model; plate = d.plate }

unfoldable pub update_rows : ℕ → ℕ → Details → List Vehicle → List Vehicle
update_rows account id d [] = []
update_rows account id d (r ∷ rs) =
    (if r.id == id && r.account == account then described d r else r) ∷ update_rows account id d rs

unfoldable pub update_vehicle : ℕ → Table → ℕ → Details → Result Table
unfolding update_rows
update_vehicle account t id d = done (record t { rows = update_rows account id d t.rows })

unfoldable pub set_default_vehicle : ℕ → Table → ℕ → Result Table
unfolding defaults clear_default flag_default has_active
set_default_vehicle account t id =
    let cleared = clear_default account t.rows in
    let flagged = flag_default account id cleared in
    if not (has_active account id t.rows)
    then not_found
    else if not (index_allows account cleared)
    then unique_violation
    else if not (index_allows account flagged)
    then unique_violation
    else done (record t { rows = flagged })

unfoldable pub retire : ℕ → ℕ → List Vehicle → List Vehicle
retire account id [] = []
retire account id (r ∷ rs) =
    (if r.id == id && r.account == account
      then record r { active = false; is_default = false }
      else r)
    ∷ retire account id rs

unfoldable pub deactivate_vehicle : ℕ → Table → ℕ → Result Table
unfolding retire
deactivate_vehicle account t id = done (record t { rows = retire account id t.rows })
