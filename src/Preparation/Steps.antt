-- ===== src/Preparation/Steps.antt =====
-- Whatever is opened, written, truncated and removed, and in any order, the budget holds.
use odograph.Prelude.{
  ℕ, ◌+◌, ◌-◌, ◌≤◌, ◌<◌, max, ◌≡◌, refl, ap, ◌⊎◌, inl, inr, true, false, Option, some, arith, ltb,
  Bool-cases,
}
use mathlib.Core.Path.{subst}
use Prim.Native.String.{String}
use odograph.Preparation.{
  operation_bytes, metadata_bytes, exhausted, FileResult, returned, raised, Inode, Spool, Handle,
  initialize, grown, resize, is_path, change, lookup, inode_of, open_file, remove, round_up, verify,
  write_charged, write, truncate,
}
use odograph.Preparation.Budget.{IsCovered, IsBudgeted, All-lookup, Writes}
use odograph.Preparation.Files.{open_file-IsBudgeted, remove_lem, remove-IsBudgeted}
use odograph.Preparation.Writes.{write_bytes_lem, write-EndsBudgeted, truncate-EndsBudgeted}

-- One call of a preparation process, with whatever handle it has; what it raises is caught.
pub data Step (os_write : ℕ → ℕ) (s : Spool) : Spool → Type 0 where
  opens : (name mode : String) → Step os_write s (open_file s name mode).0
  removes : (name : String) → Step os_write s (remove s name).0
  writes :
      (h : Handle) (size : ℕ) (t : Spool × Handle × FileResult ℕ)
      → write os_write s h size ≡ some t
      → Step os_write s t.0
  truncates :
      (h : Handle) (size : ℕ) (t : Spool × Handle × FileResult ℕ)
      → truncate os_write s h size ≡ some t
      → Step os_write s t.0

pub data Reach (os_write : ℕ → ℕ) : Spool → Type 0 where
  starts : Reach os_write initialize
  next : {s t : Spool} → Reach os_write s → Step os_write s t → Reach os_write t

ended :
    {r : Option (Spool × Handle × FileResult ℕ)} {t : Spool × Handle × FileResult ℕ}
    → (u : Spool × Handle × FileResult ℕ) × (r ≡ some u) × IsBudgeted u.0
    → r ≡ some t
    → IsBudgeted t.0
ended {t = t} (u, e, b) h =
    let same : u ≡ t = ground (arith, e, h) in subst (λ x. IsBudgeted x.0) same b

module _ (os_write : ℕ → ℕ) (w : Writes os_write) where
  Step-IsBudgeted : {s t : Spool} → Step os_write s t → IsBudgeted s → IsBudgeted t
  Step-IsBudgeted {s} (opens name mode) b = open_file-IsBudgeted s name mode b
  Step-IsBudgeted {s} (removes name) b = remove-IsBudgeted s name b
  Step-IsBudgeted {s} (writes h size t e) b = ended (write-EndsBudgeted os_write w s h size b) e
  Step-IsBudgeted {s} (truncates h size t e) b =
      ended (truncate-EndsBudgeted os_write w s h size b) e

  -- Where `os.write` takes some of the bytes that it is given, then whatever calls are made, the
  -- counter covers the charges of the files that have a name, with a block for each; neither it nor
  -- its peak goes over what an operation may use; and each file's blocks are charged.
  pub Reach-IsBudgeted : {s : Spool} → Reach os_write s → IsBudgeted s
  unfolding initialize
  Reach-IsBudgeted starts = record {
    paid = omega arith;
    counted = omega arith;
    bounded = omega arith;
    covered = tt;
  }
  Reach-IsBudgeted (next r st) = Step-IsBudgeted st (Reach-IsBudgeted r)

  -- Where `os.write` takes some of the bytes that it is given: of a file that has a name, as any
  -- calls left it, the check of a prepared output passes with its size, and its removal succeeds.
  pub verify-remove :
      {s : Spool} (name : String) (i : Inode)
      → Reach os_write s
      → is_path name ≡ true
      → lookup name s.inodes ≡ some i
      → (verify s name ≡ returned i.size) × ((remove s name).1 ≡ returned tt)
  unfolding verify
  verify-remove {s} name i r v found =
      let b = Reach-IsBudgeted r in
      let covered = All-lookup IsCovered name s.inodes i b.covered found in
      (
        rw (verify, v, found) (ground (arith, covered)),
        ap (λ x. x.1) (remove_lem s name i b v found),
      )

  -- The two ways in which a write ends.
  abbrev pub WriteEnds : Spool → Handle → ℕ → Inode → Type 0
  WriteEnds s h size i =
      ((s' : Spool) × (write os_write s h size
          ≡ some (s', record h { offset = h.offset + size }, returned size))
        × (s'.live ≡ s.live + (round_up (h.offset + size) - i.charge))
        × (s'.live ≤ operation_bytes))
      ⊎ ((operation_bytes < s.live + (round_up (h.offset + size) - i.charge))
          × (write os_write s h size ≡ some (s, h, raised exhausted)))

  -- Where `os.write` takes some of the bytes that it is given: a write to an inode, in a spool as
  -- any calls left it, ends. It returns the size with the offset moved behind all of the bytes, and
  -- the counter up by the blocks that were not charged before; or those do not fit, and it raises
  -- and leaves everything as it was.
  pub write_ends :
      {s : Spool} (h : Handle) (size : ℕ) (i : Inode)
      → Reach os_write s
      → inode_of h.inode s.inodes ≡ some i
      → WriteEnds s h size i
  unfolding write write_charged change
  write_ends {s} h size i r found =
      let b = Reach-IsBudgeted r in
      let final = round_up (h.offset + size) in
      elim (Bool-cases (ltb i.charge final)) [
        | inr fits ↦ inl (
          record s { inodes = resize h.inode (grown i.size h.offset size) i.charge s.inodes },
          rw (write, found, fits, write_bytes_lem os_write w s h i i.charge size) refl,
          ground (arith, fits),
          omega (arith, b.counted, b.bounded),
        )
        | inl more ↦ elim (Bool-cases (ltb operation_bytes (s.live + (final - i.charge)))) [
          | inl over ↦ inr (ground arith, rw (write, found, more, over) refl)
          | inr under ↦
              let live = s.live + (final - i.charge) in
              let s' : Spool = record s { live = live; peak = max live s.peak } in
              let enough : ltb live metadata_bytes ≡ false = ground (arith, b.paid) in
              inl (
                record s' { inodes = resize h.inode (grown i.size h.offset size) final s.inodes },
                rw
                    (
                      write,
                      found,
                      more,
                      under,
                      enough,
                      under,
                      enough,
                      write_bytes_lem os_write w s' h i final size,
                    )
                    refl,
                refl,
                ground (arith, under),
              )
        ]
      ]
