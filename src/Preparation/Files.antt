-- ===== src/Preparation/Files.antt =====
-- Opening and removing files keeps the counter above what the files were charged.
use odograph.Prelude.{
  ◌+◌, ◌-◌, max, ◌≡◌, refl, sym, inl, inr, true, some, [], ◌∷◌, arith, Bool-cases, Option-cases,
  length, All-append,
}
use mathlib.Core.Path.{subst}
use Prim.Native.String.{String}
use odograph.Preparation.{
  block_bytes, returned, Inode, Spool, is_path, lookup, unlink, create, reopen, open_file, remove,
}
use odograph.Preparation.Budget.{
  IsCovered, IsBudgeted, charged-append, charged-unlink, round_up_zero, IsCovered-unlink, change-up,
  change-down,
}

pub create-IsBudgeted : (s : Spool) (name : String) → IsBudgeted s → IsBudgeted (create s name).0
unfolding create
create-IsBudgeted s name b = elim (change-up block_bytes s) [
  | inl (e, same) ↦ rw (create, same) b
  | inr (most, next) ↦ elim (Option-cases (lookup name s.inodes)) [
    | inr (i, found) ↦
        rw (create, next, found, next)
          (record {
            paid = omega (arith, b.paid);
            counted = omega arith;
            bounded = omega (arith, b.bounded, most);
            covered = b.covered;
          })
    | inl free ↦
        let fresh : Inode = record {
          id = length s.inodes;
          name = some name;
          size = 0;
          charge = 0;
        } in
        rw (create, next, free, next)
          (record {
            paid = omega (arith, b.paid, charged-append s.inodes (fresh ∷ []));
            counted = omega arith;
            bounded = omega (arith, b.bounded, most);
            covered = All-append IsCovered s.inodes (fresh ∷ []) b.covered (round_up_zero, tt);
          })
  ]
]

pub open_file-IsBudgeted :
    (s : Spool) (name mode : String) → IsBudgeted s → IsBudgeted (open_file s name mode).0
unfolding open_file reopen
open_file-IsBudgeted s name mode b = ground (arith, create-IsBudgeted s name b)

-- A file that has its name is removed: what it was charged comes back.
pub remove_lem :
    (s : Spool) (name : String) (i : Inode)
    → IsBudgeted s
    → is_path name ≡ true
    → lookup name s.inodes ≡ some i
    → remove s name ≡ (
      record {
        live = s.live - (i.charge + block_bytes);
        peak = s.peak;
        inodes = unlink name s.inodes;
      },
      returned tt,
    )
unfolding remove
remove_lem s name i b v found =
    let back = charged-unlink name s.inodes i found in
    let after : Spool = record s { inodes = unlink name s.inodes } in
    let n = i.charge + block_bytes - 1 in
    let down =
      change-down n after (omega (arith, b.counted, b.bounded)) (omega (arith, b.paid, back)) in
    let live : s.live - (n + 1) ≡ s.live - (i.charge + block_bytes) = omega arith in
    let peak : max (s.live - (n + 1)) s.peak ≡ s.peak = omega (arith, b.counted) in
    rw (v, found, down, peak, live) refl

pub remove-IsBudgeted : (s : Spool) (name : String) → IsBudgeted s → IsBudgeted (remove s name).0
unfolding remove
remove-IsBudgeted s name b = elim (Bool-cases (is_path name)) [
  | inr v ↦ rw v b
  | inl v ↦ elim (Option-cases (lookup name s.inodes)) [
    | inl gone ↦ rw (v, gone) b
    | inr (i, found) ↦
        let back = charged-unlink name s.inodes i found in
        subst (λ r. IsBudgeted r.0) (sym (remove_lem s name i b v found))
          (record {
            paid = omega (arith, b.paid, back);
            counted = omega (arith, b.counted);
            bounded = b.bounded;
            covered = IsCovered-unlink name s.inodes b.covered;
          })
  ]
]
