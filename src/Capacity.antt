-- ===== src/Capacity.antt =====
-- app/capacity.py: lanes of admitted operations, and the tickets that wait for a slot. Each stretch
-- of code between two awaits is a function of the manager and of the event loop's time. An owner
-- is the number of its object; a set of owners is a list in which each stands once. `answers` are
-- the results that futures were given: whether the ticket's owner was admitted.
pub mod Lanes
pub mod Config
pub mod Promotion
pub mod Safety
pub mod Admit
pub mod Steps
pub mod Progress
pub mod Leases
mod Tests
use odograph.Prelude.{
  ℕ, zero, suc, ◌+◌, ◌-◌, ◌*◌, ◌/◌, ◌%◌, ◌^◌, ◌≤◌, ◌<◌, min, max, ◌≡◌, refl, sym, ap, ◌∙◌, ◌≢◌, ◌↔◌,
  ◌⊎◌, inl, inr, Bool, true, false, ◌&&◌, ◌||◌, not, Option, none, some, List, [], ◌∷◌, ◌++◌, map,
  arith, ltb, leb, ◌==◌, if◌then◌else◌, ltb→lt, lt→ltb, leb→le, ==_iff, tests, Bool-cases,
  Option-cases, length, get_elem?, get_or, any, all, keep, elem, All, All-append, All-imp,
  length-append, any-append, All-keep, keep-passes, sorted, IsSorted, IsOrder, any-sorted,
  All-sorted, sorted-perm, sorted-IsSorted,
}
use odograph.Capacity.Lanes.{
  LaneName, navigation, foreground, same_lane, put, lane_names, needs_account, is_shared,
}

pub record Lane : Type 0 where
  pub limit : ℕ
  pub pending : ℕ
  pub wait : ℕ

-- `AccountPrincipal`, as far as admission reads it.
pub record Principal : Type 0 where
  pub account_id : ℕ
  pub enabled : Bool

pub data Identity : Type 0 where
  nobody : Identity
  account : Principal → Identity
  other_object : Identity

-- `OperationOwner`
pub record Owner : Type 0 where
  pub id : ℕ
  pub principal : Identity

-- `_Ticket`, with whether its future is done.
pub record Ticket : Type 0 where
  pub owner : Owner
  pub done : Bool
  pub deadline : ℕ

-- `AdmissionManager`
pub record Manager : Type 0 where
  pub active : LaneName → List Owner
  pub pending : LaneName → List Ticket
  pub closed : Bool
  pub drained : Bool
  pub answers : List (ℕ × Bool)

pub data Admission : Type 0 where
  admitted waiting busy contract_error : Admission

unfoldable pub new_manager : Manager
new_manager = record {
  active = λ n. [];
  pending = λ n. [];
  closed = false;
  drained = true;
  answers = [];
}

-- Whether `_key(owner)` is the key.
abbrev pub has_key : ℕ → Identity → Bool
has_key key nobody = false
has_key key (account p) = p.account_id == key
has_key key other_object = false

-- `set.add`
abbrev pub add : Owner → List Owner → List Owner
add o os = if any (λ p. p.id == o.id) os then os else os ++ o ∷ []

-- `set.discard`
abbrev pub discard : Owner → List Owner → List Owner
discard o [] = []
discard o (p ∷ os) = let rest = discard o os in if p.id == o.id then os else p ∷ rest

abbrev pub is_live : ℕ → Bool → Ticket → Bool
is_live now closed t = not (t.done || leb t.deadline now || closed)

-- The tickets that the first loop of `_promote` drops, with a future that it sets.
abbrev refusals : ℕ → Bool → List Ticket → List (ℕ × Bool)
refusals now closed [] = []
refusals now closed (t ∷ ts) =
    let rest = refusals now closed ts in
    if not (is_live now closed t) && not t.done then (t.owner.id, false) ∷ rest else rest

-- The second loop: who is active, who still waits, and the answers.
unfoldable pub fill :
    ℕ → ℕ → Bool → List Owner → List Ticket → List Owner × List Ticket × List (ℕ × Bool)
fill limit now closed active [] = (active, [], [])
fill limit now closed active (t ∷ ts) = elim (ltb (length active) limit) [
  | false ↦ (active, t ∷ ts, [])
  | true ↦ elim t.done [
    | true ↦ fill limit now closed active ts
    | false ↦ elim (leb t.deadline now || closed) [
      | true ↦
          let (os, us, answered) = fill limit now closed active ts in
          (os, us, (t.owner.id, false) ∷ answered)
      | false ↦
          let (os, us, answered) = fill limit now closed (add t.owner active) ts in
          (os, us, (t.owner.id, true) ∷ answered)
    ]
  ]
]

-- Whether an account's other work in the lanes that exclude each other holds or awaits capacity.
unfoldable pub is_held : LaneName → ℕ → Manager → Bool
is_held lane key m =
    if is_shared lane then busy_in navigation || busy_in foreground else busy_in lane
  where
    busy_in : LaneName → Bool
    busy_in n =
        any (λ o. has_key key o.principal) (m.active n)
        || any (λ t. has_key key t.owner.principal) (m.pending n)

abbrev pub is_excluded : LaneName → Identity → Manager → Bool
is_excluded lane (account p) m = is_held lane p.account_id m
is_excluded lane nobody m = false
is_excluded lane other_object m = false

abbrev pub is_enabled : Identity → Bool
is_enabled nobody = false
is_enabled (account p) = p.enabled
is_enabled other_object = false

abbrev is_other : Identity → Bool
is_other nobody = false
is_other (account p) = false
is_other other_object = true

abbrev pub is_nested : Option LaneName → LaneName → Bool
is_nested none lane = false
is_nested (some parent) lane = same_lane parent lane

abbrev pub is_idle_in : Manager → LaneName → Bool
is_idle_in m n = leb (length (m.active n)) 0 && leb (length (m.pending n)) 0

unfoldable pub update_drained : Manager → Manager
update_drained m = if all (is_idle_in m) lane_names then record m { drained = true } else m

abbrev pub without : Owner → List Ticket → List Ticket
without o [] = []
without o (t ∷ ts) = let rest = without o ts in if t.owner.id == o.id then ts else t ∷ rest

abbrev refuse_all : List Ticket → List (ℕ × Bool)
refuse_all [] = []
refuse_all (t ∷ ts) = if t.done then refuse_all ts else (t.owner.id, false) ∷ refuse_all ts

abbrev concat : List (List (ℕ × Bool)) → List (ℕ × Bool)
concat [] = []
concat (xs ∷ xss) = xs ++ concat xss

-- `shutdown`, up to its wait for `_drained`, in two parts.
unfoldable pub close : Manager → Manager
close m = record m {
  closed = true;
  pending = λ n. [];
  answers = m.answers ++ concat (map (λ n. refuse_all (m.pending n)) lane_names);
}

unfoldable pub shutdown : Manager → Manager
unfolding update_drained close
shutdown m = update_drained (close m)

module _ (lanes : LaneName → Lane) where
  unfoldable pub promote : ℕ → LaneName → Manager → Manager
  unfolding fill
  promote now lane m =
      let live = keep (is_live now m.closed) (m.pending lane) in
      let (os, ts, answered) = fill (lanes lane).limit now m.closed (m.active lane) live in
      record m {
        active = put lane os m.active;
        pending = put lane ts m.pending;
        answers = m.answers ++ refusals now m.closed (m.pending lane) ++ answered;
      }

  unfoldable pub promote_all : ℕ → LaneName → Manager → Manager
  unfolding promote
  promote_all now lane m =
      if is_shared lane
      then promote now foreground (promote now navigation m)
      else promote now lane m

  -- The part of `_acquire` behind the promotion, up to its await.
  unfoldable pub admit : ℕ → LaneName → Owner → Manager → Manager × Admission
  unfolding is_held
  admit now lane owner m =
      if is_excluded lane owner.principal m
      then (m, busy)
      else if leb (length (m.pending lane)) 0 && ltb (length (m.active lane)) (lanes lane).limit
      then (
        record m { active = put lane (add owner (m.active lane)) m.active; drained = false },
        admitted,
      )
      else if leb (lanes lane).pending (length (m.pending lane)) || leb (lanes lane).wait 0
      then (m, busy)
      else (
        record m {
          pending =
              put lane
                (m.pending lane
                  ++ record { owner = owner; done = false; deadline = now + (lanes lane).wait }
                    ∷ [])
                m.pending;
          drained = false;
        },
        waiting,
      )

  -- `_acquire`, for a name that is a lane's; `parent` is the lane of the operation that runs now.
  unfoldable pub acquire : ℕ → Option LaneName → LaneName → Owner → Manager → Manager × Admission
  unfolding promote_all admit
  acquire now parent lane owner m =
      if m.closed
      then (m, busy)
      else if is_nested parent lane || is_other owner.principal
      then (m, contract_error)
      else if needs_account lane && not (is_enabled owner.principal)
      then (m, contract_error)
      else admit now lane owner (promote_all now lane m)

  -- The `except` of `_acquire`: the wait is over, by a timeout, a cancellation or a refusal.
  unfoldable pub leave : ℕ → LaneName → Owner → Manager → Manager
  unfolding promote update_drained
  leave now lane owner m = update_drained (
      promote now lane (record m {
        active = put lane (discard owner (m.active lane)) m.active;
        pending = put lane (without owner (m.pending lane)) m.pending;
      }))

  -- The end of `operation`, once its threads are drained.
  unfoldable pub end_operation : ℕ → LaneName → Owner → Manager → Manager
  unfolding promote update_drained
  end_operation now lane owner m =
      update_drained
        (promote now lane (record m { active = put lane (discard owner (m.active lane)) m.active }))
