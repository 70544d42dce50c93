-- ===== src/TripWarnings.antt =====
-- app/trip_warnings.py, with the columns of a trip that app/trip_queries.py reads from the table
-- of acknowledgements. An instant is a number of microseconds. What a badge of a missing trip is
-- does not matter here, so its type is a parameter.
pub mod Stored
pub mod Acknowledged
mod Tests
use odograph.Prelude.{
  ℕ, zero, suc, ◌+◌, ◌-◌, ◌*◌, ◌/◌, ◌%◌, ◌^◌, ◌≤◌, ◌<◌, min, max, ◌≡◌, refl, sym, ap, ◌∙◌, ◌≢◌, ◌↔◌,
  ◌⊎◌, inl, inr, Bool, true, false, ◌&&◌, ◌||◌, not, Option, none, some, List, [], ◌∷◌, ◌++◌, map,
  arith, ltb, leb, ◌==◌, if◌then◌else◌, ltb→lt, lt→ltb, leb→le, ==_iff, tests, Bool-cases,
  Option-cases, length, get_elem?, get_or, any, all, keep, elem, All, All-append, All-imp,
  length-append, any-append, All-keep, keep-passes, sorted, IsSorted, IsOrder, any-sorted,
  All-sorted, sorted-perm, sorted-IsSorted,
}

pub data WarningKind : Type 0 where
  recording_gap missing_trip : WarningKind

pub record WarningFingerprint : Type 0 where
  pub trip_started_at : ℕ
  pub trip_ended_at : Option ℕ
  pub prev_trip_id : Option ℕ
  pub prev_ended_at : Option ℕ

-- The columns of a trip that the warnings are made of.
pub record WarnedTrip : Type 0 where
  pub id : ℕ
  pub has_gap : Bool
  pub started_at : ℕ
  pub ended_at : Option ℕ
  pub prev_trip_id : Option ℕ
  pub prev_trip_ended_at : Option ℕ
  pub gap_ack_trip_started_at : Option ℕ
  pub gap_ack_trip_ended_at : Option ℕ
  pub missing_ack_trip_started_at : Option ℕ
  pub missing_ack_prev_trip_id : Option ℕ
  pub missing_ack_prev_ended_at : Option ℕ

-- A row of `trip_warning_acks`; its primary key is the account, the trip and the kind.
pub record Ack : Type 0 where
  pub account : ℕ
  pub trip_id : ℕ
  pub kind : WarningKind
  pub fingerprint : WarningFingerprint
  pub acknowledged_at : ℕ

abbrev pub same_option : Option ℕ → Option ℕ → Bool
same_option none none = true
same_option (some a) (some b) = a == b
same_option _ _ = false

abbrev pub same_kind : WarningKind → WarningKind → Bool
same_kind recording_gap recording_gap = true
same_kind missing_trip missing_trip = true
same_kind _ _ = false

abbrev pub is_some {ℓ} : {A : Type ℓ} → Option A → Bool
is_some none = false
is_some (some a) = true

-- `current_fingerprints`, by kind.
unfoldable pub gap_fingerprint : WarnedTrip → Option WarningFingerprint
gap_fingerprint trip =
    if trip.has_gap
    then some (record {
      trip_started_at = trip.started_at;
      trip_ended_at = trip.ended_at;
      prev_trip_id = none;
      prev_ended_at = none;
    })
    else none

unfoldable pub missing_fingerprint : WarnedTrip → Bool → Option WarningFingerprint
missing_fingerprint trip is_missing =
    if is_missing && is_some trip.prev_trip_id && is_some trip.prev_trip_ended_at
    then some (record {
      trip_started_at = trip.started_at;
      trip_ended_at = trip.ended_at;
      prev_trip_id = trip.prev_trip_id;
      prev_ended_at = trip.prev_trip_ended_at;
    })
    else none

abbrev entry : WarningKind → Option WarningFingerprint → List (WarningKind × WarningFingerprint)
entry kind none = []
entry kind (some f) = (kind, f) ∷ []

unfoldable pub current_fingerprints : WarnedTrip → Bool → List (WarningKind × WarningFingerprint)
unfolding gap_fingerprint missing_fingerprint
current_fingerprints trip is_missing =
    entry recording_gap (gap_fingerprint trip)
    ++ entry missing_trip (missing_fingerprint trip is_missing)

unfoldable pub acknowledged : WarnedTrip → WarningKind → Option WarningFingerprint → Bool
acknowledged trip kind none = false
acknowledged trip recording_gap (some current) =
    same_option trip.gap_ack_trip_started_at (some current.trip_started_at)
    && same_option trip.gap_ack_trip_ended_at current.trip_ended_at
acknowledged trip missing_trip (some current) =
    same_option trip.missing_ack_trip_started_at (some current.trip_started_at)
    && same_option trip.missing_ack_prev_trip_id current.prev_trip_id
    && same_option trip.missing_ack_prev_ended_at current.prev_ended_at

pub record TripWarnings (B : Type 0) : Type 0 where
  pub gap : Bool
  pub gap_acknowledged : Bool
  pub missing : Option B
  pub missing_acknowledged : Bool

module _ {B : Type 0} where
  abbrev pub listed_gap : TripWarnings B → Bool
  listed_gap w = w.gap && not w.gap_acknowledged

  abbrev pub listed_missing : TripWarnings B → Option B
  listed_missing w = if w.missing_acknowledged then none else w.missing

  abbrev pub any_listed : TripWarnings B → Bool
  any_listed w = listed_gap w || is_some (listed_missing w)

  unfoldable pub trip_warnings : WarnedTrip → Option B → TripWarnings B
  unfolding gap_fingerprint missing_fingerprint acknowledged
  trip_warnings trip missing = record {
    gap = trip.has_gap;
    gap_acknowledged = acknowledged trip recording_gap (gap_fingerprint trip);
    missing = missing;
    missing_acknowledged =
        acknowledged trip missing_trip (missing_fingerprint trip (is_some missing));
  }

abbrev pub has_key : ℕ → ℕ → WarningKind → Ack → Bool
has_key account trip_id kind r =
    r.account == account && (r.trip_id == trip_id && same_kind r.kind kind)

abbrev same_fingerprint : WarningFingerprint → WarningFingerprint → Bool
same_fingerprint f g =
    f.trip_started_at == g.trip_started_at
    && (same_option f.trip_ended_at g.trip_ended_at
        && (same_option f.prev_trip_id g.prev_trip_id
            && same_option f.prev_ended_at g.prev_ended_at))

-- INSERT ... ON CONFLICT (account_id, trip_id, kind) DO UPDATE ... WHERE ... IS DISTINCT FROM ...
-- The table's NOT NULL on `trip_ended_at` is not checked: `ended_at` of a trip is never null.
unfoldable pub upsert : Ack → List Ack → List Ack
upsert new [] = new ∷ []
upsert new (r ∷ rs) =
    let rest = upsert new rs in
    if has_key new.account new.trip_id new.kind r
    then (if same_fingerprint r.fingerprint new.fingerprint then r else new) ∷ rs
    else r ∷ rest

unfoldable pub acknowledge :
    ℕ → ℕ → ℕ → List (WarningKind × WarningFingerprint) → List Ack → List Ack
unfolding upsert
acknowledge now account trip_id [] acks = acks
acknowledge now account trip_id ((kind, f) ∷ fs) acks = acknowledge now account trip_id fs (
    upsert
      (record {
        account = account;
        trip_id = trip_id;
        kind = kind;
        fingerprint = f;
        acknowledged_at = now;
      })
      acks)

unfoldable pub unacknowledge : ℕ → ℕ → WarningKind → List Ack → List Ack
unacknowledge account trip_id kind acks = keep (λ r. not (has_key account trip_id kind r)) acks

-- The row with the key, as a subselect finds it.
unfoldable pub find_ack : ℕ → ℕ → WarningKind → List Ack → Option WarningFingerprint
find_ack account trip_id kind [] = none
find_ack account trip_id kind (r ∷ rs) =
    let rest = find_ack account trip_id kind rs in
    if has_key account trip_id kind r then some r.fingerprint else rest

abbrev started_of : Option WarningFingerprint → Option ℕ
started_of none = none
started_of (some f) = some f.trip_started_at

abbrev column : (WarningFingerprint → Option ℕ) → Option WarningFingerprint → Option ℕ
column get none = none
column get (some f) = get f

-- The trip as it is read, with the columns of its acknowledgements.
unfoldable pub with_acks : ℕ → List Ack → WarnedTrip → WarnedTrip
unfolding find_ack
with_acks account acks trip =
    let gap = find_ack account trip.id recording_gap acks in
    let missing = find_ack account trip.id missing_trip acks in
    record trip {
      gap_ack_trip_started_at = started_of gap;
      gap_ack_trip_ended_at = column (λ f. f.trip_ended_at) gap;
      missing_ack_trip_started_at = started_of missing;
      missing_ack_prev_trip_id = column (λ f. f.prev_trip_id) missing;
      missing_ack_prev_ended_at = column (λ f. f.prev_ended_at) missing;
    }
