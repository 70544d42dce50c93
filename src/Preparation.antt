-- ===== src/Preparation.antt =====
-- app/preparation_resources.py, the budget of one spool directory: the counter file, the files with
-- their charges, and charged writes. A file is an inode, which keeps its number when its name is
-- unlinked; a handle is the number of its inode and its offset. Each call is one step. What the
-- operating system refuses beside a name that is taken or missing is not in the model.
pub mod Budget
pub mod Files
pub mod Writes
pub mod Steps
pub mod Registry
mod Tests
use odograph.Prelude.{
  ℕ, zero, suc, ◌+◌, ◌-◌, ◌*◌, ◌/◌, ◌%◌, ◌^◌, ◌≤◌, ◌<◌, min, max, ◌≡◌, refl, sym, ap, ◌∙◌, ◌≢◌, ◌↔◌,
  ◌⊎◌, inl, inr, Bool, true, false, ◌&&◌, ◌||◌, not, Option, none, some, List, [], ◌∷◌, ◌++◌, map,
  arith, ltb, leb, ◌==◌, if◌then◌else◌, ltb→lt, lt→ltb, leb→le, ==_iff, tests, Bool-cases,
  Option-cases, length, get_elem?, get_or, any, all, keep, elem, All, All-append, All-imp,
  length-append, any-append, All-keep, keep-passes, sorted, IsSorted, IsOrder, any-sorted,
  All-sorted, sorted-perm, sorted-IsSorted,
}
use text.Mathlib.Text.{◌==◌ as str_eq}
use Prim.Native.String.{String, [] as no_text, ◌∷◌ as char_cons}
use Prim.Native.Char.{Char, code}
use odograph.Prelude.Int.{ℤ, pos, negsuc}

abbrev pub operation_bytes : ℕ
operation_bytes = 512 * 1024 * 1024

abbrev pub metadata_bytes : ℕ
metadata_bytes = 65536

abbrev pub block_bytes : ℕ
block_bytes = 4096

pub data Exception : Type 0 where
  exhausted invalid_accounting invalid_name file_exists missing unsupported_mode uncharged_bytes :
      Exception

pub data FileResult (A : Type 0) : Type 0 where
  returned : A → FileResult A
  raised : Exception → FileResult A

pub record Inode : Type 0 where
  pub id : ℕ
  pub name : Option String
  pub size : ℕ
  pub charge : ℕ

pub record Spool : Type 0 where
  pub live : ℕ
  pub peak : ℕ
  pub inodes : List Inode

-- `ChargedFile`
pub record Handle : Type 0 where
  pub inode : ℕ
  pub offset : ℕ

unfoldable pub initialize : Spool
initialize = record { live = metadata_bytes; peak = metadata_bytes; inodes = [] }

pub is_alnum : Char → Bool
is_alnum c =
    (leb 48 (code c) && leb (code c) 57)
    || (leb 65 (code c) && leb (code c) 90)
    || (leb 97 (code c) && leb (code c) 122)

-- `[A-Za-z0-9_.-]{0,left}\Z`
pub tail_matches : ℕ → String → Bool
unfolding is_alnum
tail_matches left no_text = true
tail_matches zero (char_cons c s) = false
tail_matches (suc left) (char_cons c s) =
    let rest = tail_matches left s in
    (is_alnum c || code c == 95 || code c == 46 || code c == 45) && rest

-- `_NAME.fullmatch(name)`
pub name_matches : String → Bool
unfolding is_alnum tail_matches
name_matches no_text = false
name_matches (char_cons c s) = is_alnum c && tail_matches 95 s

abbrev starts_with : String → String → Bool
starts_with no_text s = true
starts_with (char_cons c p) no_text = false
starts_with (char_cons c p) (char_cons d s) =
    let rest = starts_with p s in (code c == code d) && rest

-- Whether `path` returns.
unfoldable pub is_path : String → Bool
unfolding name_matches
is_path name =
    name_matches name
    && not (str_eq name "budget" || str_eq name "owner.lock")
    && not (starts_with "charge-" name)

-- `_change`
unfoldable pub change : ℤ → Spool → Spool × FileResult Unit
change (pos d) s =
    if ltb operation_bytes (s.live + d)
    then (s, raised exhausted)
    else if ltb (s.live + d) metadata_bytes
    then (s, raised invalid_accounting)
    else (record s { live = s.live + d; peak = max (s.live + d) s.peak }, returned tt)
change (negsuc n) s =
    if ltb (operation_bytes + (n + 1)) s.live
    then (s, raised exhausted)
    else if ltb s.live (metadata_bytes + (n + 1))
    then (s, raised invalid_accounting)
    else (record s { live = s.live - (n + 1); peak = max (s.live - (n + 1)) s.peak }, returned tt)

abbrev pub is_named : String → Option String → Bool
is_named name none = false
is_named name (some n) = str_eq n name

-- The inode that the directory has under the name.
unfoldable pub lookup : String → List Inode → Option Inode
lookup name [] = none
lookup name (i ∷ is) = let rest = lookup name is in if is_named name i.name then some i else rest

unfoldable pub unlink : String → List Inode → List Inode
unlink name [] = []
unlink name (i ∷ is) =
    let rest = unlink name is in
    if is_named name i.name then record i { name = none } ∷ is else i ∷ rest

unfoldable pub inode_of : ℕ → List Inode → Option Inode
inode_of id [] = none
inode_of id (i ∷ is) = let rest = inode_of id is in if i.id == id then some i else rest

unfoldable pub resize : ℕ → ℕ → ℕ → List Inode → List Inode
resize id size charge [] = []
resize id size charge (i ∷ is) =
    let rest = resize id size charge is in
    if i.id == id then record i { size = size; charge = charge } ∷ is else i ∷ rest

-- `open` in the modes `wb` and `w+b`, behind the check of the name.
unfoldable pub create : Spool → String → Spool × FileResult Handle
unfolding change lookup
create s name = elim (change (pos block_bytes) s).1 [
  | raised e ↦ (s, raised e)
  | returned _ ↦
      let charged = (change (pos block_bytes) s).0 in
      elim (lookup name s.inodes) [
        | some i ↦ (charged, raised file_exists)
        | none ↦
            let id = length s.inodes in
            (
              record charged {
                inodes =
                    s.inodes ++ record { id = id; name = some name; size = 0; charge = 0 } ∷ [];
              },
              returned (record { inode = id; offset = 0 }),
            )
      ]
]

unfoldable pub reopen : Spool → String → Spool × FileResult Handle
unfolding lookup
reopen s name = elim (lookup name s.inodes) [
  | none ↦ (s, raised missing)
  | some i ↦ (s, returned (record { inode = i.id; offset = 0 }))
]

unfoldable pub open_file : Spool → String → String → Spool × FileResult Handle
unfolding is_path create reopen
open_file s name mode =
    if not (is_path name)
    then (s, raised invalid_name)
    else if str_eq mode "rb" || str_eq mode "r+b"
    then reopen s name
    else if str_eq mode "wb" || str_eq mode "w+b"
    then create s name
    else (s, raised unsupported_mode)

unfoldable pub remove : Spool → String → Spool × FileResult Unit
unfolding is_path lookup unlink change
remove s name =
    if not (is_path name) then (s, raised invalid_name) else elim (lookup name s.inodes) [
      | none ↦ (s, raised missing)
      | some i ↦
          change (negsuc (i.charge + block_bytes - 1)) (record s { inodes = unlink name s.inodes })
    ]

-- `(size + BLOCK_BYTES - 1) // BLOCK_BYTES * BLOCK_BYTES`
unfoldable pub round_up : ℕ → ℕ
round_up size = (size + block_bytes - 1) / block_bytes * block_bytes

unfoldable pub verify : Spool → String → FileResult ℕ
unfolding is_path lookup round_up
verify s name = if not (is_path name) then raised invalid_name else elim (lookup name s.inodes) [
  | none ↦ raised missing
  | some i ↦ if ltb i.charge (round_up i.size) then raised uncharged_bytes else returned i.size
]

-- The loop of `write`: how many bytes are written when it ends. `os_write` takes the bytes that
-- are left and returns how many of them it wrote.
unfoldable pub write_loop : (ℕ → ℕ) → ℕ → ℕ → ℕ → Option ℕ
write_loop os_write zero size written = if ltb written size then none else some written
write_loop os_write (suc fuel) size written =
    let rest = write_loop os_write fuel size (written + os_write (size - written)) in
    if ltb written size then rest else some written

-- The file's size with the bytes in it.
abbrev pub grown : ℕ → ℕ → ℕ → ℕ
grown size offset zero = size
grown size offset (suc n) = max size (offset + suc n)

module _ (os_write : ℕ → ℕ) where
  -- The bytes go into the file. `none` is a loop that does not end.
  unfoldable pub write_bytes :
      Spool → Handle → Inode → ℕ → ℕ → Option (Spool × Handle × FileResult ℕ)
  unfolding write_loop resize
  write_bytes s h i charge size = elim (write_loop os_write size size 0) [
    | none ↦ none
    | some n ↦ some (
      record s { inodes = resize h.inode (grown i.size h.offset n) charge s.inodes },
      record h { offset = h.offset + n },
      returned n,
    )
  ]

  -- The part of `write` behind the two sizes.
  unfoldable pub write_charged : Spool → Handle → Inode → ℕ → Option (Spool × Handle × FileResult ℕ)
  unfolding change round_up write_bytes
  write_charged s h i size =
      let final = round_up (h.offset + size) in
      if ltb i.charge final
      then (elim (change (pos (final - i.charge)) s).1 [
        | raised e ↦ some (s, h, raised e)
        | returned _ ↦ write_bytes (change (pos (final - i.charge)) s).0 h i final size
      ])
      else write_bytes s h i i.charge size

  unfoldable pub write : Spool → Handle → ℕ → Option (Spool × Handle × FileResult ℕ)
  unfolding inode_of write_charged
  write s h size = elim (inode_of h.inode s.inodes) [
    | none ↦ some (s, h, raised missing)
    | some i ↦ write_charged s h i size
  ]

  -- `truncate(size)`; without an argument it is given `tell()`.
  unfoldable pub truncate : Spool → Handle → ℕ → Option (Spool × Handle × FileResult ℕ)
  unfolding inode_of resize write_charged
  truncate s h size = elim (inode_of h.inode s.inodes) [
    | none ↦ some (s, h, raised missing)
    | some i ↦
        if ltb i.size size
        then (elim (write_charged s (record h { offset = size - 1 }) i 1) [
          | none ↦ none
          | some (s', h', raised e) ↦ some (s', h', raised e)
          | some (s', h', returned n) ↦ some (s', h, returned size)
        ])
        else some (record s { inodes = resize h.inode size i.charge s.inodes }, h, returned size)
  ]
