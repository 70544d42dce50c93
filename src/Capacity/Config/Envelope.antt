-- ===== src/Capacity/Config/Envelope.antt =====
-- The slots of an accepted configuration against the connections that there are.
use odograph.Prelude.{ℕ, ◌≤◌, ◌≡◌, inl, inr, Bool, true, ◌&&◌, some, arith, leb→le, Bool-cases}
use mathlib.Core.Path.{subst}
use odograph.Floats.{Floats}
use odograph.Portable.Json.{Json}
use odograph.Capacity.{Lane}
use odograph.Capacity.Lanes.{LaneName}
use odograph.Capacity.Config.{
  runtime_lanes, control_lanes, sum_of, Config, validate_capacity_config, lane_of, lanes_of,
}

and_both : (a b : Bool) → (a && b) ≡ true → (a ≡ true) × (b ≡ true)
and_both a b h = (ground arith, ground arith)

module _ (fl : Floats) (is_finite : fl.Float → Bool) where
  open fl use {Float}

  -- What the manager may hold at most.
  abbrev pub IsWithin : (LaneName → Lane) → Type 0
  IsWithin lanes =
      (sum_of (λ n. (lanes n).limit) runtime_lanes ≤ 6)
      × (sum_of (λ n. (lanes n).limit) control_lanes ≤ 5)

  pub lanes_of_envelope :
      (loop_time : Json Float → ℕ) (config : Config fl is_finite) (lanes : LaneName → Lane)
      → lanes_of fl is_finite loop_time config ≡ some lanes
      → IsWithin lanes
  unfolding lanes_of validate_capacity_config
  lanes_of_envelope loop_time config lanes e =
      elim (Bool-cases (validate_capacity_config fl is_finite config)) [
        | inr f ↦ absurd (ground (arith, f, e))
        | inl v ↦
            let same : lane_of fl is_finite loop_time config ≡ lanes = ground (arith, v, e) in
            let (upto_times, sized) = and_both _ _ v in
            let (upto_waiting, timed) = and_both _ _ upto_times in
            let (upto_capped, waiting) = and_both _ _ upto_waiting in
            let (upto_control, capped) = and_both _ _ upto_capped in
            let (upto_runtime, control) = and_both _ _ upto_control in
            let (positive, runtime) = and_both _ _ upto_runtime in
            subst IsWithin same (leb→le _ 6 runtime, leb→le _ 5 control)
      ]
