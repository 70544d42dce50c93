-- ===== src/Capacity/Config.antt =====
-- app/capacity.py: the check of the configured capacities, and the lanes that are made of them. A
-- configuration gives an attribute's value, if it has the attribute. Times are floats in it, and a
-- lane's wait is turned into the event loop's time by a parameter, as is `math.isfinite`.
pub mod Envelope
pub mod Connections
use odograph.Prelude.{
  ℕ, zero, suc, ◌+◌, ◌-◌, ◌*◌, ◌/◌, ◌%◌, ◌^◌, ◌≤◌, ◌<◌, min, max, ◌≡◌, refl, sym, ap, ◌∙◌, ◌≢◌, ◌↔◌,
  ◌⊎◌, inl, inr, Bool, true, false, ◌&&◌, ◌||◌, not, Option, none, some, List, [], ◌∷◌, ◌++◌, map,
  arith, ltb, leb, ◌==◌, if◌then◌else◌, ltb→lt, lt→ltb, leb→le, ==_iff, tests, Bool-cases,
  Option-cases, length, get_elem?, get_or, any, all, keep, elem, All, All-append, All-imp,
  length-append, any-append, All-keep, keep-passes, sorted, IsSorted, IsOrder, any-sorted,
  All-sorted, sorted-perm, sorted-IsSorted,
}
use Prim.Native.String.{String, ◌++◌ as str_append}
use odograph.Prelude.Int.{ℤ, pos, negsuc}
use odograph.Floats.{Floats}
use odograph.Portable.Json.{Json, null, boolean, int, real, str, array, object}
use odograph.Capacity.{Lane}
use odograph.Capacity.Lanes.{
  LaneName, ingest, routine, navigation, foreground, background, ingest_identity, identity,
  lifecycle, mail, auth_ingest, auth_interactive, lane_names,
}

abbrev pub lane_text : LaneName → String
lane_text ingest = "ingest"
lane_text routine = "routine"
lane_text navigation = "navigation"
lane_text foreground = "foreground"
lane_text background = "background"
lane_text ingest_identity = "ingest_identity"
lane_text identity = "identity"
lane_text lifecycle = "lifecycle"
lane_text mail = "mail"
lane_text auth_ingest = "auth_ingest"
lane_text auth_interactive = "auth_interactive"

abbrev pub default_slots : LaneName → ℕ
default_slots ingest = 2
default_slots mail = 2
default_slots auth_ingest = 2
default_slots _ = 1

-- The greatest number of slots, where the check has one for the lane.
abbrev max_slots : LaneName → Option ℕ
max_slots ingest = none
max_slots lifecycle = none
max_slots mail = some 2
max_slots auth_ingest = some 2
max_slots _ = some 1

-- The default of the pending tickets, which is their greatest number; 0 where none may wait.
abbrev pub max_pending : LaneName → ℕ
max_pending ingest = 4
max_pending routine = 4
max_pending navigation = 4
max_pending foreground = 4
max_pending identity = 4
max_pending auth_ingest = 8
max_pending ingest_identity = 1
max_pending _ = 0

abbrev pub runtime_lanes : List LaneName
runtime_lanes = ingest ∷ routine ∷ navigation ∷ foreground ∷ background ∷ []

abbrev pub control_lanes : List LaneName
control_lanes = ingest_identity ∷ identity ∷ lifecycle ∷ mail ∷ []

abbrev pub sum_of : (LaneName → ℕ) → List LaneName → ℕ
sum_of f [] = 0
sum_of f (n ∷ ns) = f n + sum_of f ns

module _ (fl : Floats) (is_finite : fl.Float → Bool) where
  open fl use {Float, of_nat, div, le, lt}

  abbrev pub Config : Type 0
  Config = String → Option (Json Float)

  -- `_value`
  abbrev pub value : Config → String → Json Float → Json Float
  value config name default = elim (config (str_append "capacity_" name)) [
    | none ↦ default
    | some v ↦ v
  ]

  abbrev pub nat_of : Json Float → ℕ
  nat_of (int (pos n)) = n
  nat_of _ = 0

  abbrev slots_value : Config → LaneName → Json Float
  slots_value config n =
      value config (str_append (lane_text n) "_slots") (int (pos (default_slots n)))

  abbrev pub slots : Config → LaneName → ℕ
  slots config n = nat_of (slots_value config n)

  abbrev pub pending_value : Config → LaneName → Json Float
  pending_value config n =
      value config (str_append (lane_text n) "_pending") (int (pos (max_pending n)))

  -- `type(value) is int and 0 <= value <= maximum`
  abbrev pub in_range : ℕ → Json Float → Bool
  in_range maximum (int (pos n)) = leb n maximum
  in_range maximum _ = false

  abbrev within_max : Config → LaneName → Bool
  within_max config n = elim (max_slots n) [
    | none ↦ true
    | some maximum ↦ leb (slots config n) maximum
  ]

  abbrev pub pending_ok : Config → LaneName → Bool
  pending_ok config n = leb (max_pending n) 0 || in_range (max_pending n) (pending_value config n)

  abbrev zero_time : Float
  zero_time = of_nat 0

  -- `isinstance(value, (int, float))` and no bool, finite and positive, and at most the maximum. For
  -- an integer that no float holds, `math.isfinite` raises an `OverflowError` in place of a
  -- `ValueError`; both refuse the configuration.
  abbrev is_wait : Option Float → Json Float → Bool
  is_wait maximum (int (pos n)) = is_finite (of_nat n) && ltb 0 n && at_most maximum (of_nat n)
    where
      at_most : Option Float → Float → Bool
      at_most none x = true
      at_most (some m) x = not (lt m x)
  is_wait maximum (real x) = is_finite x && not (le x zero_time) && at_most maximum x
    where
      at_most : Option Float → Float → Bool
      at_most none x = true
      at_most (some m) x = not (lt m x)
  is_wait maximum _ = false

  abbrev quarter : Float
  quarter = div (of_nat 1) (of_nat 4)

  -- The greatest timeout of a statement: 2147483.647 seconds.
  abbrev sql_limit : Option Float
  sql_limit = some (div (of_nat 2147483647) (of_nat 1000))

  -- The names of times, with the defaults and the maxima.
  abbrev times : List (String × Float × Option Float)
  times =
      ("ingest_wait_s", quarter, none)
      ∷ ("routine_wait_s", of_nat 1, none)
      ∷ ("navigation_wait_s", of_nat 1, some (of_nat 1))
      ∷ ("foreground_wait_s", of_nat 2, none)
      ∷ ("identity_wait_s", of_nat 1, none)
      ∷ ("auth_ingest_wait_s", of_nat 1, some (of_nat 1))
      ∷ ("ingest_identity_wait_s", quarter, some quarter)
      ∷ ("auth_body_timeout_s", of_nat 15, none)
      ∷ ("ingest_body_timeout_s", of_nat 15, none)
      ∷ ("import_body_timeout_s", of_nat 60, none)
      ∷ ("response_timeout_s", of_nat 60, none)
      ∷ ("routine_sql_timeout_s", of_nat 5, sql_limit)
      ∷ ("operation_sql_timeout_s", of_nat 15, sql_limit)
      ∷ ("lock_timeout_s", of_nat 1, sql_limit)
      ∷ []

  abbrev sizes : List (String × ℕ)
  sizes =
      ("auth_form_max_bytes", 65536)
      ∷ ("basic_header_max_bytes", 8192)
      ∷ ("multipart_overhead_bytes", 65536)
      ∷ ("multipart_max_fields", 16)
      ∷ ("multipart_max_files", 1)
      ∷ []

  -- `false` is a `ValueError`.
  unfoldable pub validate_capacity_config : Config → Bool
  validate_capacity_config config =
      all (λ n. ltb 0 (slots config n)) lane_names
      && leb (sum_of (slots config) runtime_lanes) 6
      && leb (sum_of (slots config) control_lanes) 5
      && all (within_max config) lane_names
      && all (pending_ok config) lane_names
      && all (λ (t : String × Float × Option Float). is_wait t.2 (value config t.0 (real t.1)))
          times
      && all
          (λ (t : String × ℕ).
            in_range t.1 (value config t.0 (int (pos t.1)))
            && ltb 0 (nat_of (value config t.0 (int (pos t.1)))))
          sizes

  -- What `AdmissionManager.__init__` itself gives as the defaults of a lane.
  abbrev pub init_slots : LaneName → ℕ
  init_slots ingest = 2
  init_slots mail = 2
  init_slots auth_ingest = 2
  init_slots _ = 1

  abbrev pub init_pending : LaneName → ℕ
  init_pending ingest = 4
  init_pending routine = 4
  init_pending navigation = 4
  init_pending foreground = 4
  init_pending ingest_identity = 1
  init_pending identity = 4
  init_pending auth_ingest = 8
  init_pending _ = 0

  abbrev init_wait : LaneName → Option Float
  init_wait ingest = some quarter
  init_wait ingest_identity = some quarter
  init_wait routine = some (of_nat 1)
  init_wait navigation = some (of_nat 1)
  init_wait foreground = some (of_nat 2)
  init_wait identity = some (of_nat 1)
  init_wait auth_ingest = some (of_nat 1)
  init_wait _ = none

  abbrev pub lane_of : (Json Float → ℕ) → Config → LaneName → Lane
  lane_of loop_time config n = record {
    limit = nat_of (value config (str_append (lane_text n) "_slots") (int (pos (init_slots n))));
    pending =
        if ltb 0 (init_pending n)
        then nat_of
            (value config (str_append (lane_text n) "_pending") (int (pos (init_pending n))))
        else 0;
    wait = elim (init_wait n) [
      | none ↦ 0
      | some w ↦ loop_time (value config (str_append (lane_text n) "_wait_s") (real w))
    ];
  }

  -- The lanes of `AdmissionManager(config)`, or `none` for a `ValueError`.
  unfoldable pub lanes_of : (Json Float → ℕ) → Config → Option (LaneName → Lane)
  unfolding validate_capacity_config
  lanes_of loop_time config =
      if validate_capacity_config config then some (lane_of loop_time config) else none
