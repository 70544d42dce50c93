-- ===== src/Capacity/Lanes.antt =====
-- app/capacity.py: the lanes by their names, and what belongs to one lane.
use odograph.Prelude.{
  ℕ, ◌≡◌, refl, sym, ap, ◌∙◌, Bool, true, false, List, [], ◌∷◌, arith, ◌==◌, if◌then◌else◌, ==_iff,
  all,
}

pub data LaneName : Type 0 where
  ingest routine navigation foreground background ingest_identity identity lifecycle mail
        auth_ingest auth_interactive :
      LaneName

abbrev pub lane_names : List LaneName
lane_names =
    ingest ∷ routine ∷ navigation ∷ foreground ∷ background ∷ ingest_identity ∷ identity ∷ lifecycle
    ∷ mail ∷ auth_ingest ∷ auth_interactive ∷ []

abbrev lane_no : LaneName → ℕ
lane_no ingest = 0
lane_no routine = 1
lane_no navigation = 2
lane_no foreground = 3
lane_no background = 4
lane_no ingest_identity = 5
lane_no identity = 6
lane_no lifecycle = 7
lane_no mail = 8
lane_no auth_ingest = 9
lane_no auth_interactive = 10

abbrev pub same_lane : LaneName → LaneName → Bool
same_lane a b = lane_no a == lane_no b

abbrev lane_at : ℕ → LaneName
lane_at n =
    if n == 0
    then ingest
    else if n == 1
    then routine
    else if n == 2
    then navigation
    else if n == 3
    then foreground
    else if n == 4
    then background
    else if n == 5
    then ingest_identity
    else if n == 6
    then identity
    else if n == 7
    then lifecycle
    else if n == 8
    then mail
    else if n == 9
    then auth_ingest
    else auth_interactive

lane_at-lane_no : (a : LaneName) → lane_at (lane_no a) ≡ a
lane_at-lane_no ingest = refl
lane_at-lane_no routine = refl
lane_at-lane_no navigation = refl
lane_at-lane_no foreground = refl
lane_at-lane_no background = refl
lane_at-lane_no ingest_identity = refl
lane_at-lane_no identity = refl
lane_at-lane_no lifecycle = refl
lane_at-lane_no mail = refl
lane_at-lane_no auth_ingest = refl
lane_at-lane_no auth_interactive = refl

pub same_lane→≡ : (a b : LaneName) → same_lane a b ≡ true → a ≡ b
same_lane→≡ a b h =
    sym (lane_at-lane_no a) ∙ ap lane_at ((==_iff (lane_no a) (lane_no b)).0 h) ∙ lane_at-lane_no b

pub same_lane_self : (a : LaneName) → same_lane a a ≡ true
same_lane_self a = (==_iff (lane_no a) (lane_no a)).1 refl

pub same_lane_sym : (a b : LaneName) → same_lane a b ≡ same_lane b a
same_lane_sym a b = ground arith

-- Every lane is in the list of all.
pub all-lane_names : (p : LaneName → Bool) (n : LaneName) → all p lane_names ≡ true → p n ≡ true
all-lane_names p ingest h = ground arith
all-lane_names p routine h = ground arith
all-lane_names p navigation h = ground arith
all-lane_names p foreground h = ground arith
all-lane_names p background h = ground arith
all-lane_names p ingest_identity h = ground arith
all-lane_names p identity h = ground arith
all-lane_names p lifecycle h = ground arith
all-lane_names p mail h = ground arith
all-lane_names p auth_ingest h = ground arith
all-lane_names p auth_interactive h = ground arith

-- A dict by lane, with one lane's value set.
abbrev pub put {ℓ} : {A : Type ℓ} → LaneName → A → (LaneName → A) → LaneName → A
put lane x f n = if same_lane n lane then x else f n

abbrev pub is_shared : LaneName → Bool
is_shared navigation = true
is_shared foreground = true
is_shared _ = false

-- The lanes of account work.
abbrev pub needs_account : LaneName → Bool
needs_account ingest = true
needs_account routine = true
needs_account navigation = true
needs_account foreground = true
needs_account background = true
needs_account _ = false
