-- ===== src/Preparation/Writes.antt =====
-- A charged write ends and keeps the budget, and so does a truncation.
use odograph.Prelude.{
  ℕ, zero, suc, ◌+◌, ◌-◌, ◌≤◌, max, ◌≡◌, refl, inl, inr, true, Option, none, some, arith, ltb,
  ltb→lt, Bool-cases, Option-cases,
}
use Prim.Native.String.{String}
use odograph.Preparation.{
  operation_bytes, FileResult, returned, raised, Inode, Spool, Handle, inode_of, resize, round_up,
  grown, write_bytes, write_charged, write, truncate,
}
use odograph.Preparation.Budget.{
  IsCovered, IsBudgeted, cost, round_up_mono, charged-resize, All-inode_of, IsCovered-resize,
  change-up, Writes, write_loop_all,
}

module _ (os_write : ℕ → ℕ) (writes : Writes os_write) where
  -- The write itself, the charge being known to cover it.
  pub write_bytes_lem :
      (s : Spool) (h : Handle) (i : Inode) (charge size : ℕ)
      → write_bytes os_write s h i charge size
        ≡ some (
          record s { inodes = resize h.inode (grown i.size h.offset size) charge s.inodes },
          record h { offset = h.offset + size },
          returned size,
        )
  unfolding write_bytes
  write_bytes_lem s h i charge size =
      rw (write_bytes, write_loop_all os_write size size 0 writes (omega arith) (omega arith)) refl

cost-raise :
    (name : Option String) (charge more : ℕ)
    → charge ≤ more
    → cost name more ≤ cost name charge + (more - charge)
cost-raise none charge more h = omega arith
cost-raise (some n) charge more h = omega arith

grown_covered :
    (size offset n charge : ℕ)
    → round_up size ≤ charge
    → round_up (offset + n) ≤ charge
    → round_up (grown size offset n) ≤ charge
unfolding round_up
grown_covered size offset zero charge h l = h
grown_covered size offset (suc n) charge h l = omega arith

resize-IsBudgeted :
    (s : Spool) (id size charge live peak : ℕ) (i : Inode)
    → IsBudgeted s
    → inode_of id s.inodes ≡ some i
    → i.charge ≤ charge
    → s.live + (charge - i.charge) ≤ live
    → live ≤ peak
    → peak ≤ operation_bytes
    → round_up size ≤ charge
    → IsBudgeted (record { live = live; peak = peak; inodes = resize id size charge s.inodes })
resize-IsBudgeted s id size charge live peak i b found h l p m c = record {
  paid = omega (
    arith,
    b.paid,
    charged-resize id size charge s.inodes i found,
    cost-raise i.name i.charge charge h,
  );
  counted = p;
  bounded = m;
  covered = IsCovered-resize id size charge s.inodes c b.covered;
}

-- The call ends, and what it leaves is within the budget.
abbrev pub EndsBudgeted : Option (Spool × Handle × FileResult ℕ) → Type 0
EndsBudgeted r = (t : Spool × Handle × FileResult ℕ) × (r ≡ some t) × IsBudgeted t.0

module _ (os_write : ℕ → ℕ) (writes : Writes os_write) where
  pub write_charged_lem :
      (s : Spool) (h : Handle) (i : Inode) (size : ℕ)
      → IsBudgeted s
      → inode_of h.inode s.inodes ≡ some i
      → EndsBudgeted (write_charged os_write s h i size)
  unfolding write_charged
  write_charged_lem s h i size b found =
      let final = round_up (h.offset + size) in
      let old = All-inode_of IsCovered h.inode s.inodes i b.covered found in
      let size' = grown i.size h.offset size in
      elim (Bool-cases (ltb i.charge final)) [
        | inr fits ↦
            rw (fits, write_bytes_lem os_write writes s h i i.charge size)
              (
                _,
                refl,
                resize-IsBudgeted s h.inode size' i.charge s.live s.peak i b found (omega arith)
                    (omega arith) b.counted b.bounded
                    (grown_covered i.size h.offset size i.charge old (ground arith)),
              )
        | inl more ↦ elim (change-up (final - i.charge) s) [
          | inl (e, same) ↦ rw (more, same) (_, refl, b)
          | inr (most, next) ↦
              let live = s.live + (final - i.charge) in
              let s' : Spool = record s { live = live; peak = max live s.peak } in
              rw (more, next, next, write_bytes_lem os_write writes s' h i final size)
                (
                  _,
                  refl,
                  resize-IsBudgeted s h.inode size' final live (max live s.peak) i b found
                      (ground arith) (omega arith) (omega arith) (omega (arith, b.bounded, most))
                      (grown_covered i.size h.offset size final
                        (omega (arith, old, ltb→lt i.charge final more)) (omega arith)),
                )
        ]
      ]

  pub write-EndsBudgeted :
      (s : Spool) (h : Handle) (size : ℕ) → IsBudgeted s → EndsBudgeted (write os_write s h size)
  unfolding write
  write-EndsBudgeted s h size b = elim (Option-cases (inode_of h.inode s.inodes)) [
    | inl gone ↦ rw (write, gone) (_, refl, b)
    | inr (i, found) ↦ rw (write, found) (write_charged_lem s h i size b found)
  ]

  truncate_grown :
      (s : Spool) (h : Handle) (i : Inode) (size : ℕ)
      → IsBudgeted s
      → inode_of h.inode s.inodes ≡ some i
      → ltb i.size size ≡ true
      → EndsBudgeted (truncate os_write s h size)
  unfolding truncate
  truncate_grown s h i size b found more =
      let ((s', h', o), ends, within) =
        write_charged_lem s (record h { offset = size - 1 }) i 1 b found in
      by_outcome s' h' o ends within
    where
      by_outcome :
          (s' : Spool) (h' : Handle) (o : FileResult ℕ)
          → write_charged os_write s (record h { offset = size - 1 }) i 1 ≡ some (s', h', o)
          → IsBudgeted s'
          → EndsBudgeted (truncate os_write s h size)
      by_outcome s' h' (raised e) ends within = rw (truncate, found, more, ends) (_, refl, within)
      by_outcome s' h' (returned n) ends within = rw (truncate, found, more, ends) (_, refl, within)

  pub truncate-EndsBudgeted :
      (s : Spool) (h : Handle) (size : ℕ) → IsBudgeted s → EndsBudgeted (truncate os_write s h size)
  unfolding truncate
  truncate-EndsBudgeted s h size b = elim (Option-cases (inode_of h.inode s.inodes)) [
    | inl gone ↦ rw (truncate, gone) (_, refl, b)
    | inr (i, found) ↦ elim (Bool-cases (ltb i.size size)) [
      | inl more ↦ truncate_grown s h i size b found more
      | inr less ↦
          let old = All-inode_of IsCovered h.inode s.inodes i b.covered found in
          rw (truncate, found, less)
            (
              _,
              refl,
              resize-IsBudgeted s h.inode size i.charge s.live s.peak i b found (omega arith)
                  (omega arith) b.counted b.bounded
                  (round_up_mono size i.size i.charge (ground arith) old),
            )
    ]
  ]
