-- ===== src/Preparation/Budget.antt =====
-- The counter covers what the directory's files were charged, and the charges cover their bytes.
use odograph.Prelude.{
  ℕ, zero, suc, ◌+◌, ◌-◌, ◌≤◌, ◌<◌, max, ◌≡◌, refl, sym, ◌⊎◌, inl, inr, Option, none, some, List,
  [], ◌∷◌, ◌++◌, arith, ltb, ◌==◌, Bool-cases, Option-cases, All,
}
use mathlib.Core.Path.{subst}
use Prim.Native.String.{String}
use odograph.Prelude.Int.{pos, negsuc}
use odograph.Preparation.{
  operation_bytes, metadata_bytes, block_bytes, Exception, exhausted, invalid_accounting, returned,
  raised, Inode, Spool, change, is_named, lookup, unlink, inode_of, resize, round_up, write_loop,
}

abbrev pub cost : Option String → ℕ → ℕ
cost none charge = 0
cost (some name) charge = charge + block_bytes

-- The charges of the files that have a name, each with the block that its charge file takes.
abbrev pub charged : List Inode → ℕ
charged [] = 0
charged (i ∷ is) = cost i.name i.charge + charged is

abbrev pub IsCovered : Inode → Type 0
IsCovered i = round_up i.size ≤ i.charge

pub record IsBudgeted (s : Spool) : Type 0 where
  pub paid : metadata_bytes + charged s.inodes ≤ s.live
  pub counted : s.live ≤ s.peak
  pub bounded : s.peak ≤ operation_bytes
  pub covered : All IsCovered s.inodes

pub round_up_mono : (a b c : ℕ) → a ≤ b → round_up b ≤ c → round_up a ≤ c
unfolding round_up
round_up_mono a b c h e = omega arith

pub round_up_zero : round_up 0 ≤ 0
unfolding round_up
round_up_zero = omega arith

pub charged-append : (is js : List Inode) → charged (is ++ js) ≡ charged is + charged js
charged-append [] js = omega arith
charged-append (i ∷ is) js = omega (arith, charged-append is js)

pub charged-resize :
    (id size charge : ℕ) (is : List Inode) (i : Inode)
    → inode_of id is ≡ some i
    → charged (resize id size charge is) + cost i.name i.charge ≡ charged is + cost i.name charge
unfolding inode_of resize
charged-resize id size charge [] i e = absurd (ground arith)
charged-resize id size charge (j ∷ is) i e = elim (Bool-cases (j.id == id)) [
  | inl h ↦ let same : j ≡ i = ground arith in rw (h, same) (omega arith)
  | inr h ↦ let deeper = charged-resize id size charge is i (ground arith) in rw h (omega arith)
]

pub charged-unlink :
    (name : String) (is : List Inode) (i : Inode)
    → lookup name is ≡ some i
    → charged (unlink name is) + (i.charge + block_bytes) ≡ charged is
unfolding lookup unlink
charged-unlink name [] i e = absurd (ground arith)
charged-unlink name (j ∷ is) i e = elim (Bool-cases (is_named name j.name)) [
  | inl h ↦ elim (Option-cases j.name) [
    | inl n ↦ absurd (ground (arith, n))
    | inr (m, n) ↦ let same : j ≡ i = ground arith in rw (h, n, sym same) (omega arith)
  ]
  | inr h ↦ let deeper = charged-unlink name is i (ground arith) in rw h (omega arith)
]

module _ (P : Inode → Type 0) where
  pub All-lookup :
      (name : String) (is : List Inode) (i : Inode) → All P is → lookup name is ≡ some i → P i
  unfolding lookup
  All-lookup name [] i a e = absurd (ground arith)
  All-lookup name (j ∷ is) i a e = elim (Bool-cases (is_named name j.name)) [
    | inl h ↦ let same : j ≡ i = ground arith in subst P same a.0
    | inr h ↦ All-lookup name is i a.1 (ground arith)
  ]

  pub All-inode_of :
      (id : ℕ) (is : List Inode) (i : Inode) → All P is → inode_of id is ≡ some i → P i
  unfolding inode_of
  All-inode_of id [] i a e = absurd (ground arith)
  All-inode_of id (j ∷ is) i a e = elim (Bool-cases (j.id == id)) [
    | inl h ↦ let same : j ≡ i = ground arith in subst P same a.0
    | inr h ↦ All-inode_of id is i a.1 (ground arith)
  ]

pub IsCovered-resize :
    (id size charge : ℕ) (is : List Inode)
    → round_up size ≤ charge
    → All IsCovered is
    → All IsCovered (resize id size charge is)
unfolding resize
IsCovered-resize id size charge [] h a = a
IsCovered-resize id size charge (i ∷ is) h a = elim (Bool-cases (i.id == id)) [
  | inl e ↦ rw e (h, a.1)
  | inr e ↦ rw e (a.0, IsCovered-resize id size charge is h a.1)
]

pub IsCovered-unlink :
    (name : String) (is : List Inode) → All IsCovered is → All IsCovered (unlink name is)
unfolding unlink
IsCovered-unlink name [] a = a
IsCovered-unlink name (i ∷ is) a = elim (Bool-cases (is_named name i.name)) [
  | inl e ↦ rw e (a.0, a.1)
  | inr e ↦ rw e (a.0, IsCovered-unlink name is a.1)
]

-- More is refused, and then nothing changes, or it is added within the limit.
pub change-up :
    (d : ℕ) (s : Spool)
    → ((e : Exception) × (change (pos d) s ≡ (s, raised e)))
      ⊎ ((s.live + d ≤ operation_bytes)
          × (change (pos d) s
              ≡ (record s { live = s.live + d; peak = max (s.live + d) s.peak }, returned tt)))
unfolding change
change-up d s = elim (Bool-cases (ltb operation_bytes (s.live + d))) [
  | inl h ↦ rw h (inl (exhausted, refl))
  | inr h ↦ elim (Bool-cases (ltb (s.live + d) metadata_bytes)) [
    | inl l ↦ rw (h, l) (inl (invalid_accounting, refl))
    | inr l ↦ rw (h, l) (inr (ground arith, refl))
  ]
]

-- What can be taken back is taken back.
pub change-down :
    (n : ℕ) (s : Spool)
    → s.live ≤ operation_bytes
    → metadata_bytes + (n + 1) ≤ s.live
    → change (negsuc n) s
      ≡ (record s { live = s.live - (n + 1); peak = max (s.live - (n + 1)) s.peak }, returned tt)
unfolding change
change-down n s h l = ground arith

-- Of a call that writes, what `os.write` promises: some of the bytes that it is given, and no
-- more than those.
abbrev pub Writes : (ℕ → ℕ) → Type 0
Writes os_write = (left : ℕ) → 0 < left → (0 < os_write left) × (os_write left ≤ left)

pub write_loop_all :
    (os_write : ℕ → ℕ) (fuel size written : ℕ)
    → Writes os_write
    → written ≤ size
    → size ≤ fuel + written
    → write_loop os_write fuel size written ≡ some size
unfolding write_loop
write_loop_all os_write zero size written w l f = ground arith
write_loop_all os_write (suc fuel) size written w l f = elim (Bool-cases (ltb written size)) [
  | inl h ↦
      let (some_of, no_more) = w (size - written) (ground arith) in
      rw h (
        write_loop_all os_write fuel size (written + os_write (size - written)) w (omega arith)
          (omega arith))
  | inr h ↦ ground arith
]
