-- ===== src/Capacity/Admit.antt =====
-- A new operation, admitted or waiting, keeps the manager safe.
use odograph.Prelude.{
  ℕ, ◌+◌, ◌≤◌, ◌≡◌, refl, ap, ◌⊎◌, inl, inr, Bool, true, false, ◌&&◌, ◌||◌, List, [], ◌∷◌, ◌++◌,
  arith, ltb, leb, if◌then◌else◌, ==_iff, Bool-cases, length, any,
}
use mathlib.Core.Path.{subst}
use odograph.Capacity.Lanes.{
  LaneName, navigation, foreground, same_lane, same_lane→≡, same_lane_self, put, is_shared,
}
use odograph.Capacity.{
  Lane, nobody, account, other_object, Identity, Owner, Ticket, Manager, has_key, add, is_held,
  is_excluded, admit,
}
use odograph.Capacity.Promotion.{
  owners_of, tickets_of, owners_of-add, length-add, tickets_of-append,
}
use odograph.Capacity.Safety.{load, held, by_lane, IsFull, IsSafe, held_mono}

owners_of-none :
    (key : ℕ) (os : List Owner)
    → any (λ o. has_key key o.principal) os ≡ false
    → owners_of key os ≡ 0
owners_of-none key [] h = refl
owners_of-none key (o ∷ os) h = ground (arith, owners_of-none key os)

tickets_of-none :
    (key : ℕ) (ts : List Ticket)
    → any (λ t. has_key key t.owner.principal) ts ≡ false
    → tickets_of key ts ≡ 0
tickets_of-none key [] h = refl
tickets_of-none key (t ∷ ts) h = ground (arith, tickets_of-none key ts)

abbrev one_if : Bool → ℕ
one_if b = if b then 1 else 0

load-none :
    (key : ℕ) (n : LaneName) (m : Manager)
    → any (λ o. has_key key o.principal) (m.active n) ≡ false
    → any (λ t. has_key key t.owner.principal) (m.pending n) ≡ false
    → load key n m ≡ 0
load-none key n m h w =
    omega (arith, owners_of-none key (m.active n) h, tickets_of-none key (m.pending n) w)

held-none :
    (key : ℕ) (lane : LaneName) (m : Manager) → is_held lane key m ≡ false → held key lane m ≡ 0
unfolding is_held
held-none key lane m h = elim (Bool-cases (is_shared lane)) [
  | inl e ↦ rw e (
      omega (
        arith,
        load-none key navigation m (ground arith) (ground arith),
        load-none key foreground m (ground arith) (ground arith),
      ))
  | inr e ↦ rw e (load-none key lane m (ground arith) (ground arith))
]

-- An account's key, of an owner that is not excluded, is held nowhere.
free_lem :
    (key : ℕ) (lane : LaneName) (who : Identity) (m : Manager)
    → is_excluded lane who m ≡ false
    → has_key key who ≡ true
    → held key lane m ≡ 0
free_lem key lane nobody m x h = absurd (ground arith)
free_lem key lane other_object m x h = absurd (ground arith)
free_lem key lane (account p) m x h =
    held-none key lane m (subst (λ k. is_held lane k m ≡ false) ((==_iff p.account_id key).0 h) x)

not_shared :
    (n lane : LaneName) → is_shared n ≡ true → is_shared lane ≡ false → same_lane n lane ≡ false
not_shared n lane s u = elim (Bool-cases (same_lane n lane)) [
  | inr e ↦ e
  | inl e ↦ absurd (ground (arith, ap is_shared (same_lane→≡ n lane e)))
]

not_shared' :
    (n lane : LaneName) → is_shared n ≡ false → is_shared lane ≡ true → same_lane n lane ≡ false
not_shared' n lane s u = elim (Bool-cases (same_lane n lane)) [
  | inr e ↦ e
  | inl e ↦ absurd (ground (arith, ap is_shared (same_lane→≡ n lane e)))
]

-- One more of an account in one lane, where it had none that exclude it, is one at most.
held-one :
    (key : ℕ) (lane n : LaneName) (m m' : Manager)
    → held key lane m ≡ 0
    → held key n m ≤ 1
    → ((k : LaneName) → load key k m' ≤ load key k m + one_if (same_lane k lane))
    → held key n m' ≤ 1
held-one key lane n m m' z o h = elim (Bool-cases (is_shared n)) [
  | inl e ↦ elim (Bool-cases (is_shared lane)) [
    | inl l ↦ rw e (ground (arith, h navigation, h foreground, z, l, e))
    | inr l ↦ rw e (
        ground (
          arith,
          h navigation,
          h foreground,
          o,
          e,
          not_shared navigation lane refl l,
          not_shared foreground lane refl l,
        ))
  ]
  | inr e ↦ elim (Bool-cases (is_shared lane)) [
    | inl l ↦ rw e (ground (arith, h n, o, e, not_shared' n lane e l))
    | inr l ↦ elim (Bool-cases (same_lane n lane)) [
      | inr d ↦ rw e (ground (arith, h n, o, e, d))
      | inl d ↦ rw e (ground (arith, h n, z, l, d, ap (λ k. load key k m) (same_lane→≡ n lane d)))
    ]
  ]
]

-- A manager that has one more of the owner's account, in the lane, and of no other account.
exclusive_lem :
    (lanes : LaneName → Lane) (lane : LaneName) (o : Owner) (m m' : Manager)
    → IsSafe lanes m
    → is_excluded lane o.principal m ≡ false
    → ((key : ℕ) (k : LaneName)
        → load key k m' ≤ load key k m + one_if (has_key key o.principal && same_lane k lane))
    → (key : ℕ) (n : LaneName) → held key n m' ≤ 1
exclusive_lem lanes lane o m m' s x h key n = elim (Bool-cases (has_key key o.principal)) [
  | inl e ↦
      held-one key lane n m m' (free_lem key lane o.principal m x e) (s.exclusive key n)
        (λ k. rw e at (h key k))
  | inr e ↦
      let fewer : (k : LaneName) → load key k m' ≤ load key k m =
        λ k. omega (arith, rw e at (h key k)) in
      omega (arith, s.exclusive key n, held_mono lanes m m' key n fewer)
]

module _ (lanes : LaneName → Lane) (now : ℕ) (lane : LaneName) (o : Owner) (m : Manager)
    (s : IsSafe lanes m) (x : is_excluded lane o.principal m ≡ false) where
  admitted_lem :
      (leb (length (m.pending lane)) 0 && ltb (length (m.active lane)) (lanes lane).limit) ≡ true
      → IsSafe lanes
          (record m { active = put lane (add o (m.active lane)) m.active; drained = false })
  admitted_lem free =
      let next : Manager = record m {
        active = put lane (add o (m.active lane)) m.active;
        drained = false;
      } in
      record {
        limited =
            by_lane (λ n. length (next.active n) ≤ (lanes n).limit) lane
              (rw (same_lane_self lane) (ground (arith, length-add o (m.active lane), free)))
              (λ n e. rw e (s.limited n));
        full =
            by_lane (IsFull lanes next) lane (inl (nil (m.pending lane) (ground arith)))
              (λ n e. rw e (s.full n));
        exclusive = exclusive_lem lanes lane o m next s x (λ key.
            by_lane
              (λ k.
                load key k next
                ≤ load key k m + one_if (has_key key o.principal && same_lane k lane))
              lane (rw (same_lane_self lane) (ground (arith, owners_of-add key o (m.active lane))))
              (λ k e. rw e (omega arith)));
        idle = λ d n. absurd (ground arith);
      }
    where
      nil : (ts : List Ticket) → leb (length ts) 0 ≡ true → ts ≡ []
      nil [] h = refl
      nil (t ∷ ts) h = absurd (ground arith)

  waiting_lem :
      (leb (length (m.pending lane)) 0 && ltb (length (m.active lane)) (lanes lane).limit) ≡ false
      → IsSafe lanes (record m {
        pending =
            put lane
              (m.pending lane
                ++ record { owner = o; done = false; deadline = now + (lanes lane).wait } ∷ [])
              m.pending;
        drained = false;
      })
  waiting_lem no_slot =
      let ticket : Ticket = record {
        owner = o;
        done = false;
        deadline = now + (lanes lane).wait;
      } in
      let next : Manager = record m {
        pending = put lane (m.pending lane ++ ticket ∷ []) m.pending;
        drained = false;
      } in
      record {
        limited = s.limited;
        full =
            by_lane (IsFull lanes next) lane (inr (taken (m.pending lane) (s.full lane) no_slot))
              (λ n e. rw e (s.full n));
        exclusive = exclusive_lem lanes lane o m next s x (λ key.
            by_lane
              (λ k.
                load key k next
                ≤ load key k m + one_if (has_key key o.principal && same_lane k lane))
              lane
              (rw (same_lane_self lane)
                (ground (arith, tickets_of-append key (m.pending lane) (ticket ∷ []))))
              (λ k e. rw e (omega arith)));
        idle = λ d n. absurd (ground arith);
      }
    where
      taken :
          (ts : List Ticket)
          → (ts ≡ []) ⊎ ((lanes lane).limit ≤ length (m.active lane))
          → (leb (length ts) 0 && ltb (length (m.active lane)) (lanes lane).limit) ≡ false
          → (lanes lane).limit ≤ length (m.active lane)
      taken [] f h = ground arith
      taken (t ∷ ts) f h = ground arith

module _ (lanes : LaneName → Lane) where
  pub admit-IsSafe :
      (now : ℕ) (lane : LaneName) (o : Owner) (m : Manager)
      → IsSafe lanes m
      → IsSafe lanes (admit lanes now lane o m).0
  unfolding admit
  admit-IsSafe now lane o m s = elim (Bool-cases (is_excluded lane o.principal m)) [
    | inl e ↦ rw (admit, e) s
    | inr x ↦
        elim (Bool-cases
          (leb (length (m.pending lane)) 0 && ltb (length (m.active lane)) (lanes lane).limit)) [
            | inl free ↦ rw (admit, x, free) (admitted_lem lanes now lane o m s x free)
            | inr full ↦
                elim (Bool-cases
                  (leb (lanes lane).pending (length (m.pending lane)) || leb (lanes lane).wait 0)) [
                    | inl e ↦ rw (admit, x, full, e) s
                    | inr e ↦ rw (admit, x, full, e) (waiting_lem lanes now lane o m s x full)
                  ]
          ]
  ]
