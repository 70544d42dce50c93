-- ===== src/TripWarnings/Tests.antt =====
-- A trip with a recording gap and a predecessor far away.
use odograph.Prelude.{ℕ, ◌≡◌, refl, true, false, Option, none, some, [], ◌∷◌}
use odograph.TripWarnings.{
  recording_gap, WarnedTrip, Ack, current_fingerprints, acknowledge, acknowledged, any_listed,
  trip_warnings, with_acks, gap_fingerprint, missing_fingerprint, find_ack,
}
use odograph.TripWarnings.Acknowledged.{acknowledge_unlisted}

abbrev trip : WarnedTrip
trip = record {
  id = 7;
  has_gap = true;
  started_at = 100;
  ended_at = some 200;
  prev_trip_id = some 6;
  prev_trip_ended_at = some 50;
  gap_ack_trip_started_at = none;
  gap_ack_trip_ended_at = none;
  missing_ack_trip_started_at = none;
  missing_ack_prev_trip_id = none;
  missing_ack_prev_ended_at = none;
}

-- An older acknowledgement of the gap, when the trip started later.
abbrev stale : Ack
stale = record {
  account = 1;
  trip_id = 7;
  kind = recording_gap;
  fingerprint = record {
    trip_started_at = 120;
    trip_ended_at = some 200;
    prev_trip_id = none;
    prev_ended_at = none;
  };
  acknowledged_at = 3;
}

abbrev badge : Option ℕ
badge = some 5000

stale_test : any_listed (trip_warnings {B = ℕ} (with_acks 1 (stale ∷ []) trip) none) ≡ true
unfolding trip_warnings with_acks find_ack acknowledged gap_fingerprint missing_fingerprint
stale_test = refl

acknowledge_unlisted_example :
    any_listed (
      trip_warnings
        (with_acks 1 (acknowledge 9 1 7 (current_fingerprints trip true) (stale ∷ [])) trip)
        badge)
    ≡ false
acknowledge_unlisted_example = acknowledge_unlisted 9 1 6 50 trip badge (stale ∷ []) refl refl
