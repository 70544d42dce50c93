-- ===== src/TripWarnings/Stored.antt =====
-- What acknowledging stores is found again, and counts as acknowledged.
use odograph.Prelude.{
  ℕ, ◌≡◌, refl, inl, inr, Bool, true, false, Option, none, some, List, [], ◌∷◌, arith, ==_iff,
  Bool-cases, Option-cases,
}
use odograph.TripWarnings.{
  WarningKind, recording_gap, missing_trip, WarningFingerprint, WarnedTrip, Ack, same_option,
  same_kind, gap_fingerprint, missing_fingerprint, current_fingerprints, acknowledged, has_key,
  same_fingerprint, upsert, acknowledge, find_ack, with_acks,
}

same_option_refl : (o : Option ℕ) → same_option o o ≡ true
same_option_refl none = refl
same_option_refl (some a) = (==_iff a a).1 refl

same_fingerprint_refl : (f : WarningFingerprint) → same_fingerprint f f ≡ true
same_fingerprint_refl f =
    rw
      (
        (==_iff f.trip_started_at f.trip_started_at).1 refl,
        same_option_refl f.trip_ended_at,
        same_option_refl f.prev_trip_id,
        same_option_refl f.prev_ended_at,
      )
      refl

same_kind_refl : (k : WarningKind) → same_kind k k ≡ true
same_kind_refl recording_gap = refl
same_kind_refl missing_trip = refl

-- The table has such an acknowledgement.
abbrev Stored : ℕ → ℕ → WarningKind → WarningFingerprint → List Ack → Type 0
Stored account id kind f acks =
    (g : WarningFingerprint) × (find_ack account id kind acks ≡ some g)
    × (same_fingerprint g f ≡ true)

own_key : (new : Ack) → has_key new.account new.trip_id new.kind new ≡ true
own_key new =
    rw
      (
        (==_iff new.account new.account).1 refl,
        (==_iff new.trip_id new.trip_id).1 refl,
        same_kind_refl new.kind,
      )
      refl

upsert-Stored :
    (new : Ack) (acks : List Ack)
    → Stored new.account new.trip_id new.kind new.fingerprint (upsert new acks)
unfolding upsert find_ack
upsert-Stored new [] =
    rw (own_key new) (new.fingerprint, refl, same_fingerprint_refl new.fingerprint)
upsert-Stored new (r ∷ rs) = elim (Bool-cases (has_key new.account new.trip_id new.kind r)) [
  | inr e ↦ rw (e, e) (upsert-Stored new rs)
  | inl e ↦ elim (Bool-cases (same_fingerprint r.fingerprint new.fingerprint)) [
    | inl s ↦ rw (e, s, e) (r.fingerprint, refl, s)
    | inr d ↦ rw (e, d, own_key new) (new.fingerprint, refl, same_fingerprint_refl new.fingerprint)
  ]
]

other_kind :
    (j k l : WarningKind) → same_kind j k ≡ true → same_kind k l ≡ false → same_kind j l ≡ false
other_kind recording_gap recording_gap l e h = h
other_kind missing_trip missing_trip l e h = h
other_kind recording_gap missing_trip l e h = absurd (ground arith)
other_kind missing_trip recording_gap l e h = absurd (ground arith)

other_key :
    (account id : ℕ) (k l : WarningKind) (r : Ack)
    → has_key account id k r ≡ true
    → same_kind k l ≡ false
    → has_key account id l r ≡ false
other_key account id k l r e h = ground (arith, other_kind r.kind k l (ground arith) h)

-- What is stored of another kind stays.
find_ack-upsert :
    (new : Ack) (kind : WarningKind) (acks : List Ack)
    → same_kind new.kind kind ≡ false
    → find_ack new.account new.trip_id kind (upsert new acks)
      ≡ find_ack new.account new.trip_id kind acks
unfolding upsert find_ack
find_ack-upsert new kind [] h =
    rw (other_key new.account new.trip_id new.kind kind new (own_key new) h) refl
find_ack-upsert new kind (r ∷ rs) h =
    elim (Bool-cases (has_key new.account new.trip_id new.kind r)) [
      | inr e ↦ rw (e, find_ack-upsert new kind rs h) refl
      | inl e ↦
          let unlike = other_key new.account new.trip_id new.kind kind r e h in
          let own = other_key new.account new.trip_id new.kind kind new (own_key new) h in
          elim (Bool-cases (same_fingerprint r.fingerprint new.fingerprint)) [
            | inl s ↦ rw (e, s, unlike) refl
            | inr d ↦ rw (e, d, own, unlike) refl
          ]
    ]

module _ (now account : ℕ) (trip : WarnedTrip) (is_missing : Bool) (acks : List Ack) where
  abbrev after : List Ack
  after = acknowledge now account trip.id (current_fingerprints trip is_missing) acks

  pub gap-Stored :
      (f : WarningFingerprint)
      → gap_fingerprint trip ≡ some f
      → Stored account trip.id recording_gap f after
  unfolding acknowledge current_fingerprints
  gap-Stored f e =
      let first : Ack = record {
        account = account;
        trip_id = trip.id;
        kind = recording_gap;
        fingerprint = f;
        acknowledged_at = now;
      } in
      elim (Option-cases (missing_fingerprint trip is_missing)) [
        | inl m ↦ rw (e, m) (upsert-Stored first acks)
        | inr (g, m) ↦
            let second : Ack = record {
              account = account;
              trip_id = trip.id;
              kind = missing_trip;
              fingerprint = g;
              acknowledged_at = now;
            } in
            rw (e, m, find_ack-upsert second recording_gap (upsert first acks) refl)
              (upsert-Stored first acks)
      ]

  pub missing-Stored :
      (g : WarningFingerprint)
      → missing_fingerprint trip is_missing ≡ some g
      → Stored account trip.id missing_trip g after
  unfolding acknowledge current_fingerprints
  missing-Stored g m =
      let second : Ack = record {
        account = account;
        trip_id = trip.id;
        kind = missing_trip;
        fingerprint = g;
        acknowledged_at = now;
      } in
      elim (Option-cases (gap_fingerprint trip)) [
        | inl e ↦ rw (e, m) (upsert-Stored second acks)
        | inr (f, e) ↦
            let first : Ack = record {
              account = account;
              trip_id = trip.id;
              kind = recording_gap;
              fingerprint = f;
              acknowledged_at = now;
            } in
            rw (e, m) (upsert-Stored second (upsert first acks))
      ]

pub gap_acknowledged_lem :
    (account : ℕ) (trip : WarnedTrip) (acks : List Ack) (f : WarningFingerprint)
    → Stored account trip.id recording_gap f acks
    → acknowledged (with_acks account acks trip) recording_gap (some f) ≡ true
unfolding acknowledged with_acks
gap_acknowledged_lem account trip acks f (g, e, s) = rw e (ground (arith, s))

pub missing_acknowledged_lem :
    (account : ℕ) (trip : WarnedTrip) (acks : List Ack) (f : WarningFingerprint)
    → Stored account trip.id missing_trip f acks
    → acknowledged (with_acks account acks trip) missing_trip (some f) ≡ true
unfolding acknowledged with_acks
missing_acknowledged_lem account trip acks f (g, e, s) = rw e (ground (arith, s))
