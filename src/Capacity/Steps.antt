-- ===== src/Capacity/Steps.antt =====
-- Whatever arrives, gives up, ends or shuts down, the manager stays safe.
use odograph.Prelude.{
  ℕ, ◌≤◌, ◌≡◌, refl, inl, inr, Bool, true, false, ◌&&◌, ◌||◌, not, Option, List, [], ◌∷◌, arith,
  ◌==◌, if◌then◌else◌, Bool-cases, length,
}
use odograph.Capacity.Lanes.{LaneName, same_lane, same_lane_self, put, needs_account}
use odograph.Capacity.{
  Lane, Owner, Ticket, Manager, new_manager, discard, acquire, is_enabled, is_other, is_nested,
  without, leave, end_operation, close, shutdown, promote_all,
}
use odograph.Capacity.Promotion.{owners_of, tickets_of}
use odograph.Capacity.Safety.{
  load, IsIdle, by_lane, IsSafe, IsSafeBut, held_mono, promote-IsSafe, promote_all-IsSafe,
  update_drained-IsSafe,
}
use odograph.Capacity.Admit.{admit-IsSafe}

-- What happens to a manager, at some time of the event loop.
pub data Step (lanes : LaneName → Lane) (m : Manager) : Manager → Type 0 where
  acquires :
      (now : ℕ) (parent : Option LaneName) (lane : LaneName) (o : Owner)
      → Step lanes m (acquire lanes now parent lane o m).0
  leaves : (now : ℕ) (lane : LaneName) (o : Owner) → Step lanes m (leave lanes now lane o m)
  finishes :
      (now : ℕ) (lane : LaneName) (o : Owner) → Step lanes m (end_operation lanes now lane o m)
  shuts_down : Step lanes m (shutdown m)

pub data Reach (lanes : LaneName → Lane) : Manager → Type 0 where
  starts : Reach lanes new_manager
  next : {m n : Manager} → Reach lanes m → Step lanes m n → Reach lanes n

length-discard : (o : Owner) (os : List Owner) → length (discard o os) ≤ length os
length-discard o [] = omega arith
length-discard o (p ∷ os) = ground (arith, length-discard o os)

owners_of-discard :
    (key : ℕ) (o : Owner) (os : List Owner) → owners_of key (discard o os) ≤ owners_of key os
owners_of-discard key o [] = omega arith
owners_of-discard key o (p ∷ os) = elim (Bool-cases (p.id == o.id)) [
  | inl e ↦ rw e (omega arith)
  | inr e ↦ rw e (omega (arith, owners_of-discard key o os))
]

tickets_of-without :
    (key : ℕ) (o : Owner) (ts : List Ticket) → tickets_of key (without o ts) ≤ tickets_of key ts
tickets_of-without key o [] = omega arith
tickets_of-without key o (t ∷ ts) = elim (Bool-cases (t.owner.id == o.id)) [
  | inl e ↦ rw e (omega arith)
  | inr e ↦ rw e (omega (arith, tickets_of-without key o ts))
]

module _ (lanes : LaneName → Lane) where
  -- Whichever way a test goes.
  either-IsSafe :
      {A : Type 0} (b : Bool) (x y : Manager × A)
      → IsSafe lanes x.0
      → IsSafe lanes y.0
      → IsSafe lanes (if b then x else y).0
  either-IsSafe true x y h k = h
  either-IsSafe false x y h k = k

  acquire-IsSafe :
      (now : ℕ) (parent : Option LaneName) (lane : LaneName) (o : Owner) (m : Manager)
      → IsSafe lanes m
      → IsSafe lanes (acquire lanes now parent lane o m).0
  unfolding acquire
  acquire-IsSafe now parent lane o m s =
      let later : Manager = promote_all lanes now lane m in
      either-IsSafe m.closed _ _ s (
        either-IsSafe (is_nested parent lane || is_other o.principal) _ _ s (
          either-IsSafe (needs_account lane && not (is_enabled o.principal)) _ _ s
            (admit-IsSafe lanes now lane o later (promote_all-IsSafe lanes now lane m s))))

  -- An owner is taken out of the lane, and its ticket perhaps.
  removed-IsSafeBut :
      (lane : LaneName) (o : Owner) (m : Manager) (left : LaneName → List Ticket)
      → IsSafe lanes m
      → ((n : LaneName) → same_lane n lane ≡ false → left n ≡ m.pending n)
      → ((key : ℕ) → tickets_of key (left lane) ≤ tickets_of key (m.pending lane))
      → (m.pending lane ≡ [] → left lane ≡ [])
      → IsSafeBut lanes lane
          (record m { active = put lane (discard o (m.active lane)) m.active; pending = left })
  removed-IsSafeBut lane o m left s others fewer none_left =
      let next : Manager = record m {
        active = put lane (discard o (m.active lane)) m.active;
        pending = left;
      } in
      record {
        limited =
            by_lane (λ n. length (next.active n) ≤ (lanes n).limit) lane
              (rw (same_lane_self lane)
                (omega (arith, s.limited lane, length-discard o (m.active lane))))
              (λ n e. rw e (s.limited n));
        full = λ n e. rw (e, others n e) (s.full n);
        exclusive = λ key n. omega (
          arith,
          s.exclusive key n,
          held_mono lanes m next key n (
              by_lane (λ k. load key k next ≤ load key k m) lane
                (rw (same_lane_self lane)
                  (omega (arith, fewer key, owners_of-discard key o (m.active lane))))
                (λ k e. rw (e, others k e) (omega arith))),
        );
        idle = λ d.
            by_lane (IsIdle next) lane
              (let (a, w) = s.idle d lane in rw (same_lane_self lane, a) (refl, none_left w))
              (λ n e. rw (e, others n e) (s.idle d n));
      }

  leave-IsSafe :
      (now : ℕ) (lane : LaneName) (o : Owner) (m : Manager)
      → IsSafe lanes m
      → IsSafe lanes (leave lanes now lane o m)
  unfolding leave
  leave-IsSafe now lane o m s =
      let rest = without o (m.pending lane) in
      let but =
        removed-IsSafeBut lane o m (put lane rest m.pending) s (λ n e. rw e refl)
          (λ key. rw (same_lane_self lane) (tickets_of-without key o (m.pending lane)))
          (λ w. rw (same_lane_self lane, w) refl) in
      update_drained-IsSafe lanes _ (promote-IsSafe lanes now lane _ but)

  end_operation-IsSafe :
      (now : ℕ) (lane : LaneName) (o : Owner) (m : Manager)
      → IsSafe lanes m
      → IsSafe lanes (end_operation lanes now lane o m)
  unfolding end_operation
  end_operation-IsSafe now lane o m s =
      let but =
        removed-IsSafeBut lane o m m.pending s (λ n e. refl) (λ key. omega arith) (λ w. w) in
      update_drained-IsSafe lanes _ (promote-IsSafe lanes now lane _ but)

  shutdown-IsSafe : (m : Manager) → IsSafe lanes m → IsSafe lanes (shutdown m)
  unfolding shutdown close
  shutdown-IsSafe m s = update_drained-IsSafe lanes (close m) (record {
    limited = s.limited;
    full = λ n. inl refl;
    exclusive = λ key n.
        omega (arith, s.exclusive key n, held_mono lanes m (close m) key n (λ k. omega arith));
    idle = λ d n. ((s.idle d n).0, refl);
  })

  Step-IsSafe : {m n : Manager} → Step lanes m n → IsSafe lanes m → IsSafe lanes n
  Step-IsSafe {m} (acquires now parent lane o) s = acquire-IsSafe now parent lane o m s
  Step-IsSafe {m} (leaves now lane o) s = leave-IsSafe now lane o m s
  Step-IsSafe {m} (finishes now lane o) s = end_operation-IsSafe now lane o m s
  Step-IsSafe {m} shuts_down s = shutdown-IsSafe m s

  -- Whatever arrives, gives up, ends and shuts down, at whatever times: no lane is over its limit;
  -- nobody waits in a lane that has a free slot; no account has more than one operation, active or
  -- waiting, in lanes that exclude each other; and the manager counts as drained only when
  -- nothing is active or waiting.
  pub Reach-IsSafe : {m : Manager} → Reach lanes m → IsSafe lanes m
  unfolding new_manager
  Reach-IsSafe starts = record {
    limited = λ n. omega arith;
    full = λ n. inl refl;
    exclusive = λ key n. ground arith;
    idle = λ d n. (refl, refl);
  }
  Reach-IsSafe (next r st) = Step-IsSafe st (Reach-IsSafe r)
