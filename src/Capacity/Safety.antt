-- ===== src/Capacity/Safety.antt =====
-- The invariant of the manager, and that promotion keeps or restores it.
use odograph.Prelude.{
  ℕ, ◌+◌, ◌≤◌, ◌≡◌, refl, sym, ◌∙◌, ◌⊎◌, inl, inr, true, false, List, [], ◌∷◌, arith, leb,
  if◌then◌else◌, Bool-cases, length, all, keep,
}
use mathlib.Core.Path.{subst}
use odograph.Capacity.Lanes.{
  LaneName, navigation, foreground, same_lane, same_lane→≡, same_lane_self, put, is_shared,
  lane_names, all-lane_names,
}
use odograph.Capacity.{
  Lane, Manager, is_live, fill, promote, promote_all, update_drained, is_idle_in,
}
use odograph.Capacity.Promotion.{owners_of, tickets_of, tickets_of-keep, fill-IsFilled}

-- What an account has in a lane: its active operations and its waiting ones.
abbrev pub load : ℕ → LaneName → Manager → ℕ
load key n m = owners_of key (m.active n) + tickets_of key (m.pending n)

-- The same in all of the lanes that exclude each other.
abbrev pub held : ℕ → LaneName → Manager → ℕ
held key n m = if is_shared n then load key navigation m + load key foreground m else load key n m

abbrev pub IsIdle : Manager → LaneName → Type 0
IsIdle m n = (m.active n ≡ []) × (m.pending n ≡ [])

pub put_other {ℓ} :
    {A : Type ℓ} (lane n : LaneName) (x : A) (f : LaneName → A)
    → same_lane n lane ≡ false
    → put lane x f n ≡ f n
put_other lane n x f h = rw h refl

pub put_same {ℓ} : {A : Type ℓ} (lane : LaneName) (x : A) (f : LaneName → A) → put lane x f lane ≡ x
put_same lane x f = rw (same_lane_self lane) refl

-- A property of all lanes, from that of one and that of the others.
pub by_lane :
    (P : LaneName → Type 0) (lane : LaneName)
    → P lane
    → ((n : LaneName) → same_lane n lane ≡ false → P n)
    → (n : LaneName) → P n
by_lane P lane h others n = elim (Bool-cases (same_lane n lane)) [
  | inl e ↦ subst P (sym (same_lane→≡ n lane e)) h
  | inr e ↦ others n e
]

module _ (lanes : LaneName → Lane) where
  abbrev pub IsFull : Manager → LaneName → Type 0
  IsFull m n = (m.pending n ≡ []) ⊎ ((lanes n).limit ≤ length (m.active n))

  -- No lane is over its limit, nobody waits while a slot is free, no account has more than one
  -- operation in lanes that exclude each other, and a drained manager has none.
  pub record IsSafe (m : Manager) : Type 0 where
    pub limited : (n : LaneName) → length (m.active n) ≤ (lanes n).limit
    pub full : (n : LaneName) → IsFull m n
    pub exclusive : (key : ℕ) (n : LaneName) → held key n m ≤ 1
    pub idle : m.drained ≡ true → (n : LaneName) → IsIdle m n

  -- What promotion in a lane leaves there, of a lane within its limit, and in the others.
  promoted :
      (now : ℕ) (lane : LaneName) (m : Manager)
      → length (m.active lane) ≤ (lanes lane).limit
      → (length ((promote lanes now lane m).active lane) ≤ (lanes lane).limit)
        × IsFull (promote lanes now lane m) lane
        × ((key : ℕ) (n : LaneName) → load key n (promote lanes now lane m) ≤ load key n m)
  unfolding promote
  promoted now lane m h =
      let live = keep (is_live now m.closed) (m.pending lane) in
      let filled = fill-IsFilled (lanes lane).limit now m.closed (m.active lane) live h in
      (
        rw (same_lane_self lane) filled.limited,
        rw (same_lane_self lane) filled.full,
        λ key.
            by_lane (λ n. load key n (promote lanes now lane m) ≤ load key n m) lane
              (rw (same_lane_self lane) (
                omega (
                  arith,
                  filled.fewer key,
                  tickets_of-keep key (is_live now m.closed) (m.pending lane),
                )))
              (λ n e. rw e (omega arith)),
      )

  -- The same of all lanes, but that of one lane nothing is said of who waits.
  pub record IsSafeBut (lane : LaneName) (m : Manager) : Type 0 where
    pub limited : (n : LaneName) → length (m.active n) ≤ (lanes n).limit
    pub full : (n : LaneName) → same_lane n lane ≡ false → IsFull m n
    pub exclusive : (key : ℕ) (n : LaneName) → held key n m ≤ 1
    pub idle : m.drained ≡ true → (n : LaneName) → IsIdle m n

  promote-IsIdle :
      (now : ℕ) (lane n : LaneName) (m : Manager)
      → IsIdle m lane
      → IsIdle m n
      → IsIdle (promote lanes now lane m) n
  unfolding promote fill
  promote-IsIdle now lane n m (a, w) (b, x) = elim (Bool-cases (same_lane n lane)) [
    | inl e ↦ rw (e, w, a) (refl, refl)
    | inr e ↦ rw (e, b, x) (refl, refl)
  ]

  promote-drained :
      (now : ℕ) (lane : LaneName) (m : Manager) → (promote lanes now lane m).drained ≡ m.drained
  unfolding promote
  promote-drained now lane m = refl

  pub held_mono :
      (m m' : Manager) (key : ℕ) (n : LaneName)
      → ((k : LaneName) → load key k m' ≤ load key k m)
      → held key n m' ≤ held key n m
  held_mono m m' key n h = elim (Bool-cases (is_shared n)) [
    | inl e ↦ rw e (omega (arith, h navigation, h foreground))
    | inr e ↦ rw e (h n)
  ]

  promote_other :
      (now : ℕ) (lane n : LaneName) (m : Manager)
      → same_lane n lane ≡ false
      → ((promote lanes now lane m).active n ≡ m.active n)
        × ((promote lanes now lane m).pending n ≡ m.pending n)
  unfolding promote
  promote_other now lane n m e = rw e (refl, refl)

  -- Promotion in the lane makes it safe too.
  pub promote-IsSafe :
      (now : ℕ) (lane : LaneName) (m : Manager)
      → IsSafeBut lane m
      → IsSafe (promote lanes now lane m)
  promote-IsSafe now lane m s =
      let (limited, full, fewer) = promoted now lane m (s.limited lane) in
      record {
        limited =
            by_lane (λ n. length ((promote lanes now lane m).active n) ≤ (lanes n).limit) lane
              limited (λ n e. rw (promote_other now lane n m e).0 (s.limited n));
        full =
            by_lane (λ n. IsFull (promote lanes now lane m) n) lane full
              (λ n e. let (a, p) = promote_other now lane n m e in rw (a, p) (s.full n e));
        exclusive = λ key n.
            omega
              (arith, s.exclusive key n, held_mono m (promote lanes now lane m) key n (fewer key));
        idle = λ d n.
            let none_left = s.idle (sym (promote-drained now lane m) ∙ d) in
            promote-IsIdle now lane n m (none_left lane) (none_left n);
      }

  pub IsSafe→IsSafeBut : (lane : LaneName) (m : Manager) → IsSafe m → IsSafeBut lane m
  IsSafe→IsSafeBut lane m s = record {
    limited = s.limited;
    full = λ n e. s.full n;
    exclusive = s.exclusive;
    idle = s.idle;
  }

  pub promote_all-IsSafe :
      (now : ℕ) (lane : LaneName) (m : Manager) → IsSafe m → IsSafe (promote_all lanes now lane m)
  unfolding promote_all
  promote_all-IsSafe now lane m s =
      let once = λ (n : LaneName) (k : Manager) (t : IsSafe k).
        promote-IsSafe now n k (IsSafe→IsSafeBut n k t) in
      elim (Bool-cases (is_shared lane)) [
        | inl e ↦
            rw (promote_all, e)
              (once foreground (promote lanes now navigation m) (once navigation m s))
        | inr e ↦ rw (promote_all, e) (once lane m s)
      ]

  pub update_drained-IsSafe : (m : Manager) → IsSafe m → IsSafe (update_drained m)
  unfolding update_drained
  update_drained-IsSafe m s = elim (Bool-cases (all (is_idle_in m) lane_names)) [
    | inr e ↦ rw (update_drained, e) s
    | inl e ↦
        rw (update_drained, e)
          (record {
            limited = s.limited;
            full = s.full;
            exclusive = s.exclusive;
            idle = λ d n. empty_lane n (all-lane_names (is_idle_in m) n e);
          })
  ]
    where
      nil : {A : Type 0} (xs : List A) → leb (length xs) 0 ≡ true → xs ≡ []
      nil [] h = refl
      nil (x ∷ xs) h = absurd (ground arith)

      empty_lane : (n : LaneName) → is_idle_in m n ≡ true → IsIdle m n
      empty_lane n h = (nil (m.active n) (ground arith), nil (m.pending n) (ground arith))
