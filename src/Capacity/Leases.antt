-- ===== src/Capacity/Leases.antt =====
-- app/capacity.py: what an admitted operation may hold: a connection of each role, and a lease. The
-- flags of a lifetime are kept by the owner's number. The context variables are arguments: the
-- operation that runs now, of this manager, and whether a connection is borrowed.
pub mod Covered
use odograph.Prelude.{
  ℕ, zero, suc, ◌+◌, ◌-◌, ◌*◌, ◌/◌, ◌%◌, ◌^◌, ◌≤◌, ◌<◌, min, max, ◌≡◌, refl, sym, ap, ◌∙◌, ◌≢◌, ◌↔◌,
  ◌⊎◌, inl, inr, Bool, true, false, ◌&&◌, ◌||◌, not, Option, none, some, List, [], ◌∷◌, ◌++◌, map,
  arith, ltb, leb, ◌==◌, if◌then◌else◌, ltb→lt, lt→ltb, leb→le, ==_iff, tests, Bool-cases,
  Option-cases, length, get_elem?, get_or, any, all, keep, elem, All, All-append, All-imp,
  length-append, any-append, All-keep, keep-passes, sorted, IsSorted, IsOrder, any-sorted,
  All-sorted, sorted-perm, sorted-IsSorted,
}
use odograph.Capacity.{Principal, Identity, nobody, account, other_object, Owner}
use odograph.Capacity.Lanes.{
  LaneName, ingest, routine, navigation, foreground, background, ingest_identity, identity,
  lifecycle, mail, same_lane,
}

-- `_Lifetime`, without its threads and its cancellation.
pub record Lifetime : Type 0 where
  pub runtime : Bool
  pub control : Bool
  pub lease : Bool
  pub released : Bool

-- The current owner with its lane.
pub record Holder : Type 0 where
  pub owner : Owner
  pub lane : LaneName

pub data Role : Type 0 where
  for_runtime for_control : Role

-- The manager's lifetimes, and its set of leases.
pub record Leases : Type 0 where
  pub lifetime : ℕ → Lifetime
  pub leases : List ℕ

abbrev set_lifetime : ℕ → (Lifetime → Lifetime) → (ℕ → Lifetime) → ℕ → Lifetime
set_lifetime id f lifetime n = if n == id then f (lifetime n) else lifetime n

abbrev has_role : Role → Lifetime → Bool
has_role for_runtime l = l.runtime
has_role for_control l = l.control

abbrev set_role : Role → Bool → Lifetime → Lifetime
set_role for_runtime b l = record l { runtime = b }
set_role for_control b l = record l { control = b }

-- `_borrow_for`: `none` is a `CapacityContractError`.
unfoldable pub begin_borrow : ℕ → Role → Leases → Option Leases
begin_borrow id role m =
    if has_role role (m.lifetime id)
    then none
    else some (record m { lifetime = set_lifetime id (set_role role true) m.lifetime })

unfoldable pub end_borrow : ℕ → Role → Leases → Leases
end_borrow id role m = record m { lifetime = set_lifetime id (set_role role false) m.lifetime }

-- Which operation lends the connection: the one that runs, or a new one of a lane.
pub data Borrowing : Type 0 where
  contract_error : Borrowing
  of_owner : Owner → Borrowing
  of_new : LaneName → Borrowing

abbrev is_runtime_owner : LaneName → Bool
is_runtime_owner ingest = true
is_runtime_owner navigation = true
is_runtime_owner foreground = true
is_runtime_owner background = true
is_runtime_owner _ = false

abbrev same_bool : Bool → Bool → Bool
same_bool true b = b
same_bool false b = not b

abbrev same_principal : Identity → Principal → Bool
same_principal nobody q = false
same_principal (account p) q = p.account_id == q.account_id && same_bool p.enabled q.enabled
same_principal other_object q = false

unfoldable pub runtime_borrow : Bool → Option Holder → Principal → Leases → Borrowing
runtime_borrow borrowed none principal m = if borrowed then contract_error else of_new routine
runtime_borrow borrowed (some h) principal m =
    if borrowed
    then contract_error
    else if is_runtime_owner h.lane
    then (if same_principal h.owner.principal principal && not (m.lifetime h.owner.id).released
        then of_owner h.owner
        else contract_error)
    else of_new routine

abbrev is_control : LaneName → Bool
is_control identity = true
is_control ingest_identity = true
is_control lifecycle = true
is_control mail = true
is_control _ = false

-- Mail work borrows in its own lane where an identity is asked for.
abbrev control_lane : LaneName → LaneName → LaneName
control_lane mail identity = mail
control_lane _ lane = lane

unfoldable pub control_borrow : Bool → Option Holder → LaneName → Borrowing
control_borrow borrowed none lane =
    if borrowed || not (is_control lane) then contract_error else of_new lane
control_borrow borrowed (some h) lane =
    if borrowed || not (is_control (control_lane h.lane lane))
    then contract_error
    else if same_lane h.lane (control_lane h.lane lane)
    then of_owner h.owner
    else of_new (control_lane h.lane lane)

-- The lanes of external work.
abbrev pub is_external : LaneName → Bool
is_external navigation = true
is_external foreground = true
is_external background = true
is_external mail = true
is_external _ = false

abbrev pub covers_owner : Identity → List ℕ → Bool
covers_owner nobody account_ids = true
covers_owner (account p) account_ids = elem p.account_id account_ids
covers_owner other_object account_ids = false

-- `lease`: `none` is a `CapacityContractError`.
unfoldable pub begin_lease : Option Holder → List ℕ → Leases → Option Leases
begin_lease none account_ids m = none
begin_lease (some h) account_ids m =
    if not (is_external h.lane)
    then none
    else if (m.lifetime h.owner.id).lease || leb 5 (length m.leases)
    then none
    else if not (covers_owner h.owner.principal account_ids)
    then none
    else some (record {
      lifetime = set_lifetime h.owner.id (λ l. record l { lease = true }) m.lifetime;
      leases = if elem h.owner.id m.leases then m.leases else h.owner.id ∷ m.leases;
    })

-- The end of `lease`, once its threads are drained.
unfoldable pub end_lease : ℕ → Leases → Leases
end_lease id m = record {
  lifetime = set_lifetime id (λ l. record l { lease = false }) m.lifetime;
  leases = keep (λ n. not (n == id)) m.leases;
}
