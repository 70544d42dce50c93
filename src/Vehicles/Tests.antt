-- ===== src/Vehicles/Tests.antt =====
-- An account with two vehicles, the first its default, beside another account's.
use odograph.Prelude.{ℕ, ◌≤◌, ◌≡◌, refl, Bool, true, false, none, [], ◌∷◌, arith, length}
use odograph.Vehicles.{
  Vehicle, Table, done, not_found, defaults, has_active, set_default_vehicle, clear_default,
  flag_default,
}
use odograph.Vehicles.Default.{
  IsSound, sets_default, run, abstracted, default_of, promised, run-promised,
}
use odograph.Vehicles.Sound.{run-IsSound}

abbrev car : ℕ → ℕ → Bool → Vehicle
car id account is_default = record {
  id = id;
  account = account;
  name = "Car";
  make = none;
  model = none;
  plate = none;
  is_default = is_default;
  active = true;
}

abbrev table : Table
table = record { rows = car 1 1 true ∷ car 2 1 false ∷ car 3 2 true ∷ []; next_id = 4 }

one_default : (a : ℕ) → length (defaults a table.rows) ≤ 1
unfolding defaults
one_default a = ground arith

table-IsSound : IsSound table
table-IsSound = record {
  key = (omega arith, (omega arith, (omega arith, omega arith)));
  one = one_default;
  usable = ((λ h. h), ((λ h. refl), ((λ h. h), tt)));
}

run-promised_example :
    abstracted 1 (run 1 (sets_default 2) table)
    ≡ promised (sets_default 2) 4 (λ id. has_active 1 id table.rows) (default_of 1 table.rows)
run-promised_example = run-promised 1 (sets_default 2) table table-IsSound

abbrev changed : Table
changed = record { rows = car 1 1 false ∷ car 2 1 true ∷ car 3 2 true ∷ []; next_id = 4 }

set_default_test : set_default_vehicle 1 table 2 ≡ done changed
unfolding set_default_vehicle has_active clear_default flag_default defaults
set_default_test = refl

stranger_test : set_default_vehicle 1 table 3 ≡ not_found
unfolding set_default_vehicle has_active clear_default flag_default defaults
stranger_test = refl

run-IsSound_example : IsSound changed
run-IsSound_example = run-IsSound 1 (sets_default 2) table changed table-IsSound set_default_test
