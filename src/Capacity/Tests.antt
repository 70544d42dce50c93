-- ===== src/Capacity/Tests.antt =====
-- Lanes of one slot each, and two accounts that ask for the same lane one behind the other.
use odograph.Prelude.{
  ℕ, ◌+◌, ◌-◌, ◌*◌, ◌/◌, ◌≡◌, refl, Bool, true, false, none, some, List, [], ◌∷◌, ltb, leb, arith,
  if◌then◌else◌, ◌==◌, ◌≤◌, length,
}
use odograph.Floats.{Floats}
use odograph.Portable.Json.{Json, real}
use odograph.Capacity.Lanes.{
  LaneName, ingest, routine, navigation, foreground, background, ingest_identity, identity,
  lifecycle, mail,
}
use odograph.Capacity.{
  Lane, account, Owner, Ticket, Manager, waiting, new_manager, fill, promote, promote_all, is_held,
  is_live, admit, acquire, end_operation,
}
use odograph.Capacity.Safety.{IsSafe}
use odograph.Capacity.Steps.{Reach, starts, next, acquires, Reach-IsSafe}
use odograph.Capacity.Progress.{is_among, end_operation_admits}
use odograph.Capacity.Config.{Config, lane_of, lanes_of, validate_capacity_config}
use odograph.Capacity.Leases.{Lifetime, Leases, begin_lease}
use odograph.Capacity.Leases.Covered.{here, next as later, leases_out, IsKept, Reach-IsKept}
use odograph.Capacity.Config.Connections.{active_in, lanes_of-connections}

abbrev lanes : LaneName → Lane
lanes n = record { limit = 1; pending = 4; wait = 1000 }

abbrev owner : ℕ → Owner
owner id = record { id = id; principal = account (record { account_id = id; enabled = true }) }

abbrev one : Manager
one = (acquire lanes 0 none foreground (owner 1) new_manager).0

abbrev two : Manager
two = (acquire lanes 5 none foreground (owner 2) one).0

two-Reach : Reach lanes two
two-Reach =
    next (next starts (acquires 0 none foreground (owner 1))) (acquires 5 none foreground (owner 2))

second_waits : (acquire lanes 5 none foreground (owner 2) one).1 ≡ waiting
unfolding acquire promote_all promote fill is_held admit new_manager
second_waits = refl

Reach-IsSafe_example : IsSafe lanes two
Reach-IsSafe_example = Reach-IsSafe lanes two-Reach

abbrev ticket : Ticket
ticket = record { owner = owner 2; done = false; deadline = 1005 }

first_active : is_among 1 (two.active foreground) ≡ true
unfolding acquire promote_all promote fill is_held admit new_manager
first_active = refl

second_pending : two.pending foreground ≡ ticket ∷ []
unfolding acquire promote_all promote fill is_held admit new_manager
second_pending = refl

still_live : is_live 10 two.closed ticket ≡ true
unfolding acquire promote_all promote fill is_held admit new_manager
still_live = refl

end_operation_admits_example :
    is_among 2 ((end_operation lanes 10 foreground (owner 1) two).active foreground) ≡ true
end_operation_admits_example =
    end_operation_admits lanes 10 foreground (owner 1) two ticket [] two-Reach first_active
      second_pending still_live

abbrev sum_up : List ℕ → ℕ
sum_up [] = 0
sum_up (x ∷ xs) = x + sum_up xs

-- Thousandths in place of floats.
abbrev numbers : Floats
numbers = record {
  Float = ℕ;
  of_nat = λ n. n * 1000;
  add = λ a b. a + b;
  sub = λ a b. a - b;
  mul = λ a b. a * b / 1000;
  div = λ a b. a * 1000 / b;
  le = leb;
  lt = ltb;
  sum = sum_up;
  sin = λ x. x;
  cos = λ x. x;
  asin = λ x. x;
  sqrt = λ x. x;
  radians = λ x. x;
  seconds = λ a b. b - a;
}

abbrev is_finite : ℕ → Bool
is_finite x = true

abbrev loop_time : Json ℕ → ℕ
loop_time (real x) = x
loop_time _ = 0

-- No attribute is set.
abbrev unset : Config numbers is_finite
unset name = none

unset_test :
    lanes_of numbers is_finite loop_time unset ≡ some (lane_of numbers is_finite loop_time unset)
unfolding lanes_of validate_capacity_config
unset_test = refl

abbrev unset_lanes : LaneName → Lane
unset_lanes = lane_of numbers is_finite loop_time unset

abbrev ingesting : Manager
ingesting = (acquire unset_lanes 0 none ingest (owner 1) new_manager).0

abbrev both_ingest : Manager
both_ingest = (acquire unset_lanes 5 none ingest (owner 2) ingesting).0

both_ingest-Reach : Reach unset_lanes both_ingest
both_ingest-Reach =
    next (next starts (acquires 0 none ingest (owner 1))) (acquires 5 none ingest (owner 2))

two_slots : length (both_ingest.active ingest) ≡ 2
unfolding acquire promote_all promote fill is_held admit new_manager
two_slots = refl

lanes_of-connections_example :
    (active_in both_ingest ingest
        + active_in both_ingest routine
        + active_in both_ingest navigation
        + active_in both_ingest foreground
        + active_in both_ingest background
      ≤ 6)
    × (active_in both_ingest ingest_identity
          + active_in both_ingest identity
          + active_in both_ingest lifecycle
          + active_in both_ingest mail
        ≤ 5)
lanes_of-connections_example =
    lanes_of-connections numbers is_finite loop_time unset unset_lanes both_ingest unset_test
      both_ingest-Reach

abbrev idle_lifetime : ℕ → Lifetime
idle_lifetime n = record { runtime = false; control = false; lease = false; released = false }

abbrev no_leases : Leases
no_leases = record { lifetime = idle_lifetime; leases = [] }

abbrev one_lease : Leases
one_lease = record {
  lifetime = λ n. if n == 1 then record (idle_lifetime n) { lease = true } else idle_lifetime n;
  leases = 1 ∷ [];
}

lease_test :
    begin_lease (some (record { owner = owner 1; lane = foreground })) (1 ∷ 2 ∷ []) no_leases
    ≡ some one_lease
unfolding begin_lease
lease_test = refl

uncovered_test :
    begin_lease (some (record { owner = owner 1; lane = foreground })) (2 ∷ []) no_leases ≡ none
unfolding begin_lease
uncovered_test = refl

Reach-IsKept_example : IsKept one_lease
Reach-IsKept_example =
    Reach-IsKept {m = no_leases} (omega arith, λ id. refl)
      (later here (
        leases_out (some (record { owner = owner 1; lane = foreground })) (1 ∷ 2 ∷ []) one_lease
          lease_test))
