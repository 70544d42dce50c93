-- ===== src/Capacity/Config/Connections.antt =====
-- The connections that the active operations of a manager take: one for each.
use odograph.Prelude.{ℕ, ◌+◌, ◌≤◌, ◌≡◌, Bool, some, arith, length}
use odograph.Floats.{Floats}
use odograph.Portable.Json.{Json}
use odograph.Capacity.{Lane, Manager}
use odograph.Capacity.Lanes.{
  LaneName, ingest, routine, navigation, foreground, background, ingest_identity, identity,
  lifecycle, mail,
}
use odograph.Capacity.Steps.{Reach, Reach-IsSafe}
use odograph.Capacity.Config.{Config, lanes_of}
use odograph.Capacity.Config.Envelope.{lanes_of_envelope}

abbrev pub active_in : Manager → LaneName → ℕ
active_in m n = length (m.active n)

module _ (fl : Floats) (is_finite : fl.Float → Bool) where
  open fl use {Float}

  -- However a configuration that is accepted sets the slots, and whatever arrives, gives up, ends
  -- and shuts down: at most six operations of accounts are active at once, over the lanes ingest,
  -- routine, navigation, foreground and background together, and at most five of control, over
  -- ingest_identity, identity, lifecycle and mail.
  pub lanes_of-connections :
      (loop_time : Json Float → ℕ) (config : Config fl is_finite) (lanes : LaneName → Lane)
      (m : Manager)
      → lanes_of fl is_finite loop_time config ≡ some lanes
      → Reach lanes m
      → (active_in m ingest
            + active_in m routine
            + active_in m navigation
            + active_in m foreground
            + active_in m background
          ≤ 6)
        × (active_in m ingest_identity
              + active_in m identity
              + active_in m lifecycle
              + active_in m mail
            ≤ 5)
  lanes_of-connections loop_time config lanes m e r =
      let (runtime, control) = lanes_of_envelope fl is_finite loop_time config lanes e in
      let safe = Reach-IsSafe lanes r in
      (
        omega (
          arith,
          runtime,
          safe.limited ingest,
          safe.limited routine,
          safe.limited navigation,
          safe.limited foreground,
          safe.limited background,
        ),
        omega (
          arith,
          control,
          safe.limited ingest_identity,
          safe.limited identity,
          safe.limited lifecycle,
          safe.limited mail,
        ),
      )
