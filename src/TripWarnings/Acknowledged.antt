-- ===== src/TripWarnings/Acknowledged.antt =====
-- An acknowledged warning is listed no more, until it is a different one.
use odograph.Prelude.{
  ℕ, ◌≡◌, refl, ◌⊎◌, inl, inr, Bool, true, false, Option, some, List, arith, Bool-cases,
  Option-cases,
}
use odograph.TripWarnings.{
  WarningFingerprint, WarnedTrip, Ack, is_some, gap_fingerprint, missing_fingerprint,
  current_fingerprints, listed_gap, listed_missing, any_listed, trip_warnings, acknowledge,
  with_acks,
}
use odograph.TripWarnings.Stored.{
  gap-Stored, missing-Stored, gap_acknowledged_lem, missing_acknowledged_lem,
}

-- The columns of acknowledgements do not matter to the fingerprints.
gap_fingerprint-with_acks :
    (account : ℕ) (rows : List Ack) (trip : WarnedTrip)
    → gap_fingerprint (with_acks account rows trip) ≡ gap_fingerprint trip
unfolding gap_fingerprint with_acks
gap_fingerprint-with_acks account rows trip = refl

missing_fingerprint-with_acks :
    (account : ℕ) (rows : List Ack) (trip : WarnedTrip) (b : Bool)
    → missing_fingerprint (with_acks account rows trip) b ≡ missing_fingerprint trip b
unfolding missing_fingerprint with_acks
missing_fingerprint-with_acks account rows trip b = refl

has_gap-with_acks :
    (account : ℕ) (rows : List Ack) (trip : WarnedTrip)
    → (with_acks account rows trip).has_gap ≡ trip.has_gap
unfolding with_acks
has_gap-with_acks account rows trip = refl

gap_fingerprint_cases :
    (trip : WarnedTrip)
    → (trip.has_gap ≡ false) ⊎ ((f : WarningFingerprint) × (gap_fingerprint trip ≡ some f))
unfolding gap_fingerprint
gap_fingerprint_cases trip = elim (Option-cases (gap_fingerprint trip)) [
  | inl e ↦ inl (ground (arith, e))
  | inr e ↦ inr e
]

missing_fingerprint-some :
    (trip : WarnedTrip) (b : Bool) (prev_id prev_end : ℕ)
    → b ≡ true
    → trip.prev_trip_id ≡ some prev_id
    → trip.prev_trip_ended_at ≡ some prev_end
    → (f : WarningFingerprint) × (missing_fingerprint trip b ≡ some f)
unfolding missing_fingerprint
missing_fingerprint-some trip b prev_id prev_end h p e =
    elim (Option-cases (missing_fingerprint trip b)) [
      | inl n ↦ absurd (ground (arith, n))
      | inr f ↦ f
    ]

module _ {B : Type 0} (now account : ℕ) (trip : WarnedTrip) (missing : Option B)
    (acks : List Ack) where
  abbrev rows : List Ack
  rows = acknowledge now account trip.id (current_fingerprints trip (is_some missing)) acks

  -- The trip as it is read when all that it shows is acknowledged.
  abbrev again : WarnedTrip
  again = with_acks account rows trip

  gap_unlisted : listed_gap (trip_warnings again missing) ≡ false
  unfolding trip_warnings
  gap_unlisted = elim (gap_fingerprint_cases trip) [
    | inl no_gap ↦ rw (has_gap-with_acks account rows trip, no_gap) refl
    | inr (f, e) ↦
        let stored = gap-Stored now account trip (is_some missing) acks f e in
        rw
          (
            gap_fingerprint-with_acks account rows trip,
            e,
            gap_acknowledged_lem account trip rows f stored,
          )
          (ground arith)
  ]

  missing_unlisted :
      (prev_id prev_end : ℕ)
      → trip.prev_trip_id ≡ some prev_id
      → trip.prev_trip_ended_at ≡ some prev_end
      → is_some (listed_missing (trip_warnings again missing)) ≡ false
  unfolding trip_warnings
  missing_unlisted prev_id prev_end p e = elim (Bool-cases (is_some missing)) [
    | inr none_missing ↦ ground (arith, none_missing)
    | inl badge ↦
        let (f, m) = missing_fingerprint-some trip (is_some missing) prev_id prev_end badge p e in
        let stored = missing-Stored now account trip (is_some missing) acks f m in
        rw
          (
            missing_fingerprint-with_acks account rows trip (is_some missing),
            m,
            missing_acknowledged_lem account trip rows f stored,
          )
          refl
  ]

module _ {B : Type 0} where
  -- When all warnings that a trip shows are acknowledged and the trip is read again, it lists none,
  -- where the trip in front of it has an id and an end, and whatever was acknowledged before.
  pub acknowledge_unlisted :
      (now account prev_id prev_end : ℕ) (trip : WarnedTrip) (missing : Option B) (acks : List Ack)
      → trip.prev_trip_id ≡ some prev_id
      → trip.prev_trip_ended_at ≡ some prev_end
      → any_listed (
          trip_warnings
            (with_acks account
              (acknowledge now account trip.id (current_fingerprints trip (is_some missing)) acks)
              trip)
            missing)
        ≡ false
  acknowledge_unlisted now account prev_id prev_end trip missing acks p e =
      rw
        (
          gap_unlisted now account trip missing acks,
          missing_unlisted now account trip missing acks prev_id prev_end p e,
        )
        refl
