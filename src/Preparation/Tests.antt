-- ===== src/Preparation/Tests.antt =====
-- A file is opened, ten bytes are written to it, and it is truncated.
use odograph.Prelude.{ℕ, ◌≤◌, min, ◌≡◌, refl, true, false, some, [], ◌∷◌, arith}
use mathlib.Core.Path.{subst}
use odograph.Preparation.{
  Inode, Spool, Handle, returned, initialize, is_path, change, lookup, inode_of, resize, create,
  open_file, verify, remove, round_up, write_loop, write_bytes, write_charged, write,
}
use odograph.Preparation.Budget.{IsBudgeted, Writes}
use odograph.Preparation.Steps.{
  opens, writes, Reach, starts, next, WriteEnds, Reach-IsBudgeted, write_ends, verify-remove,
}
use odograph.Preparation.Registry.{Root, op, made, acquire}
use odograph.Preparation.Registry.Limit.{here, next as later, acquires, reserved, Reach-reserved}

abbrev os_write : ℕ → ℕ
os_write left = min left 4

os_write-Writes : Writes os_write
os_write-Writes left h = (omega arith, omega arith)

abbrev file : Inode
file = record { id = 0; name = some "rows.csv"; size = 0; charge = 0 }

abbrev handle : Handle
handle = record { inode = 0; offset = 0 }

abbrev opened : Spool
opened = record { live = 69632; peak = 69632; inodes = file ∷ [] }

open_file_test : (open_file initialize "rows.csv" "w+b").0 ≡ opened
unfolding initialize open_file create change lookup is_path
open_file_test = refl

opened-Reach : Reach os_write opened
opened-Reach = subst (Reach os_write) open_file_test (next starts (opens "rows.csv" "w+b"))

abbrev written : Spool
written = record {
  live = 73728;
  peak = 73728;
  inodes = record file { size = 10; charge = 4096 } ∷ [];
}

write_test :
    write os_write opened handle 10 ≡ some (written, record { inode = 0; offset = 10 }, returned 10)
unfolding write write_charged write_bytes write_loop change inode_of resize round_up
write_test = refl

Reach-IsBudgeted_example : IsBudgeted written
Reach-IsBudgeted_example = Reach-IsBudgeted os_write os_write-Writes (
    next opened-Reach
      (writes handle 10 (written, record { inode = 0; offset = 10 }, returned 10) write_test))

found_test : lookup "rows.csv" written.inodes ≡ some (record file { size = 10; charge = 4096 })
unfolding lookup
found_test = refl

path_test : is_path "rows.csv" ≡ true
unfolding is_path
path_test = refl

verify-remove_example :
    (verify written "rows.csv" ≡ returned 10) × ((remove written "rows.csv").1 ≡ returned tt)
verify-remove_example =
    verify-remove os_write os_write-Writes "rows.csv" (record file { size = 10; charge = 4096 })
      (next opened-Reach
        (writes handle 10 (written, record { inode = 0; offset = 10 }, returned 10) write_test))
      path_test found_test

inode_of_test : inode_of 0 (file ∷ []) ≡ some file
unfolding inode_of
inode_of_test = refl

write_ends_example : WriteEnds os_write os_write-Writes opened handle 10 file
write_ends_example = write_ends os_write os_write-Writes handle 10 file opened-Reach inode_of_test

abbrev root : Root
root = record { entries = op 1 true true ∷ op 2 false true ∷ []; unconfirmed = false }

Reach-reserved_example : reserved (acquire root false 3 made).0.entries ≤ 2147483648
Reach-reserved_example =
    Reach-reserved {r = root} (omega arith) (later here (acquires false 3 made))
