-- ===== src/Capacity/Progress.antt =====
-- The end of an operation gives its slot to whoever has waited longest.
use odograph.Prelude.{
  ℕ, ◌+◌, ◌<◌, ◌≡◌, refl, inl, inr, Bool, true, false, ◌||◌, List, [], ◌∷◌, arith, ltb, leb, ◌==◌,
  lt→ltb, Bool-cases, length, any, keep, any-append,
}
use odograph.Capacity.Lanes.{LaneName, same_lane_self}
use odograph.Capacity.{
  Lane, Owner, Ticket, Manager, add, discard, is_live, fill, promote, update_drained, end_operation,
}
use odograph.Capacity.Steps.{Reach, Reach-IsSafe}

abbrev pub is_among : ℕ → List Owner → Bool
is_among id os = any (λ p. p.id == id) os

among-add : (o : Owner) (os : List Owner) → is_among o.id (add o os) ≡ true
among-add o os = elim (Bool-cases (is_among o.id os)) [
  | inl e ↦ rw (e, e) refl
  | inr e ↦ rw e (ground (arith, any-append (λ p. p.id == o.id) os (o ∷ [])))
]

among-add_other :
    (id : ℕ) (o : Owner) (os : List Owner) → is_among id os ≡ true → is_among id (add o os) ≡ true
among-add_other id o os h = elim (Bool-cases (is_among o.id os)) [
  | inl e ↦ rw e h
  | inr e ↦ rw e (ground (arith, h, any-append (λ p. p.id == id) os (o ∷ [])))
]

fill-keeps :
    (limit now : ℕ) (closed : Bool) (id : ℕ) (os : List Owner) (ts : List Ticket)
    → is_among id os ≡ true
    → is_among id (fill limit now closed os ts).0 ≡ true
unfolding fill
fill-keeps limit now closed id os [] h = h
fill-keeps limit now closed id os (t ∷ ts) h = elim (Bool-cases (ltb (length os) limit)) [
  | inr e ↦ rw (fill, e) h
  | inl e ↦ elim (Bool-cases t.done) [
    | inl d ↦ rw (fill, e, d) (fill-keeps limit now closed id os ts h)
    | inr d ↦ elim (Bool-cases (leb t.deadline now || closed)) [
      | inl x ↦ rw (fill, e, d, x) (fill-keeps limit now closed id os ts h)
      | inr x ↦
          rw (fill, e, d, x)
            (fill-keeps limit now closed id (add t.owner os) ts (among-add_other id t.owner os h))
    ]
  ]
]

fill_first :
    (limit now : ℕ) (closed : Bool) (os : List Owner) (t : Ticket) (ts : List Ticket)
    → length os < limit
    → is_live now closed t ≡ true
    → is_among t.owner.id (fill limit now closed os (t ∷ ts)).0 ≡ true
unfolding fill
fill_first limit now closed os t ts h l =
    let room : ltb (length os) limit ≡ true = lt→ltb (length os) limit h in
    let open_future : t.done ≡ false = ground arith in
    let in_time : (leb t.deadline now || closed) ≡ false = ground arith in
    rw (fill, room, open_future, in_time)
      (fill-keeps limit now closed t.owner.id (add t.owner os) ts (among-add t.owner os))

length-discard_one :
    (o : Owner) (os : List Owner) → is_among o.id os ≡ true → length (discard o os) + 1 ≡ length os
length-discard_one o [] h = absurd (ground arith)
length-discard_one o (p ∷ os) h = elim (Bool-cases (p.id == o.id)) [
  | inl e ↦ rw e (omega arith)
  | inr e ↦ rw e (omega (arith, length-discard_one o os (ground arith)))
]

update_drained-active : (m : Manager) (n : LaneName) → (update_drained m).active n ≡ m.active n
unfolding update_drained
update_drained-active m n = ground arith

module _ (lanes : LaneName → Lane) where
  -- When an active operation of a manager, as any calls left it, ends, and the one that has waited
  -- longest in its lane is still waiting, in time and before a shutdown, then that one is active at
  -- once.
  pub end_operation_admits :
      (now : ℕ) (lane : LaneName) (o : Owner) (m : Manager) (t : Ticket) (ts : List Ticket)
      → Reach lanes m
      → is_among o.id (m.active lane) ≡ true
      → m.pending lane ≡ t ∷ ts
      → is_live now m.closed t ≡ true
      → is_among t.owner.id ((end_operation lanes now lane o m).active lane) ≡ true
  unfolding end_operation promote
  end_operation_admits now lane o m t ts r h w l =
      let s = Reach-IsSafe lanes r in
      let room = length-discard_one o (m.active lane) h in
      rw (update_drained-active _ lane, same_lane_self lane, w, l)
        (fill_first (lanes lane).limit now m.closed (discard o (m.active lane)) t
          (keep (is_live now m.closed) ts) (omega (arith, s.limited lane, room)) l)
