-- ===== src/Preparation/Registry/Limit.antt =====
-- However operations start, end and die, what the live ones may use stays within the instance.
use odograph.Prelude.{
  ℕ, ◌+◌, ◌≤◌, ◌≡◌, inl, inr, Bool, true, false, ◌||◌, some, List, [], ◌∷◌, arith, ◌==◌,
  if◌then◌else◌, Bool-cases, Option-cases,
}
use odograph.Preparation.{operation_bytes}
use odograph.Preparation.Registry.{
  instance_bytes, Entry, unknown, op, Root, scan, Making, made, undone, left_behind, make_directory,
  acquire, drop, release,
}

-- What the operations that hold their locks may use.
abbrev pub reserved : List Entry → ℕ
reserved [] = 0
reserved (unknown ∷ es) = reserved es
reserved (op n true flat ∷ es) = reserved es + operation_bytes
reserved (op n false flat ∷ es) = reserved es

-- A process that ends drops its locks.
abbrev pub die : ℕ → List Entry → List Entry
die name [] = []
die name (unknown ∷ es) = unknown ∷ die name es
die name (op n held flat ∷ es) =
    let rest = die name es in if n == name then op n false flat ∷ es else op n held flat ∷ rest

-- What happens at the root: calls, a process that dies (with the failure lock, if it was the one
-- that held it), and files that are put where they do not belong.
pub data Step (r : Root) : Root → Type 0 where
  acquires :
      (expired : Bool) (name : ℕ) (making : Making) → Step r (acquire r expired name making).0
  releases : (name : ℕ) → Step r (release r name).0
  dies :
      (name : ℕ) (left : Bool)
      → Step r (record { entries = die name r.entries; unconfirmed = left })
  intrudes :
      (es : List Entry) → reserved es ≤ reserved r.entries → Step r (record r { entries = es })

pub data Reach (r : Root) : Root → Type 0 where
  here : Reach r r
  next : {s t : Root} → Reach r s → Step s t → Reach r t

reserved-scan : (es : List Entry) → reserved (scan es).0 ≤ reserved es
unfolding scan
reserved-scan [] = omega arith
reserved-scan (unknown ∷ es) = omega arith
reserved-scan (op n true flat ∷ es) = omega (arith, reserved-scan es)
reserved-scan (op n false true ∷ es) = reserved-scan es
reserved-scan (op n false false ∷ es) = omega arith

scan_live : (es : List Entry) (live : ℕ) → (scan es).1 ≡ some live → reserved (scan es).0 ≡ live
unfolding scan
scan_live [] live h = ground arith
scan_live (unknown ∷ es) live h = absurd (ground arith)
scan_live (op n true flat ∷ es) live h = elim (Option-cases (scan es).1) [
  | inl refused ↦ absurd (ground (arith, refused, h))
  | inr (l, some_live) ↦ ground (arith, some_live, scan_live es l some_live, h)
]
scan_live (op n false true ∷ es) live h = scan_live es live h
scan_live (op n false false ∷ es) live h = absurd (ground arith)

reserved-make_directory :
    (r : Root) (es : List Entry) (name : ℕ) (making : Making)
    → reserved (make_directory r es name making).0.entries ≤ reserved es + operation_bytes
unfolding make_directory
reserved-make_directory r es name made = omega arith
reserved-make_directory r es name undone = omega arith
reserved-make_directory r es name (left_behind true flat) = omega arith
reserved-make_directory r es name (left_behind false flat) = omega arith

reserved-acquire :
    (r : Root) (expired : Bool) (name : ℕ) (making : Making)
    → reserved r.entries ≤ instance_bytes
    → reserved (acquire r expired name making).0.entries ≤ instance_bytes
unfolding acquire
reserved-acquire r expired name making h = elim (Bool-cases (expired || r.unconfirmed)) [
  | inl refused ↦ rw (acquire, refused) h
  | inr free ↦
      let fewer = reserved-scan r.entries in
      elim (Option-cases (scan r.entries).1) [
        | inl refused ↦ ground (arith, free, refused, fewer)
        | inr (live, e) ↦
            let exact = scan_live r.entries live e in
            let more = reserved-make_directory r (scan r.entries).0 name making in
            ground (arith, free, e, fewer, exact, more)
      ]
]

reserved-drop : (name : ℕ) (es : List Entry) → reserved (drop name es) ≤ reserved es
reserved-drop name [] = omega arith
reserved-drop name (unknown ∷ es) = reserved-drop name es
reserved-drop name (op n true flat ∷ es) = ground (arith, reserved-drop name es)
reserved-drop name (op n false flat ∷ es) = ground (arith, reserved-drop name es)

reserved-die : (name : ℕ) (es : List Entry) → reserved (die name es) ≤ reserved es
reserved-die name [] = omega arith
reserved-die name (unknown ∷ es) = reserved-die name es
reserved-die name (op n true flat ∷ es) = ground (arith, reserved-die name es)
reserved-die name (op n false flat ∷ es) = ground (arith, reserved-die name es)

Step-reserved :
    {r s : Root}
    → Step r s
    → reserved r.entries ≤ instance_bytes
    → reserved s.entries ≤ instance_bytes
unfolding release
Step-reserved {r} (acquires expired name making) h = reserved-acquire r expired name making h
Step-reserved {r} (releases name) h = ground (arith, reserved-drop name r.entries)
Step-reserved {r} (dies name left) h = omega (arith, reserved-die name r.entries)
Step-reserved (intrudes es fewer) h = omega arith

-- From a root whose live operations fit, and whatever starts, ends, fails to be cleaned up or dies,
-- the operations that are live at a time never reserve more than the instance has.
pub Reach-reserved :
    {r s : Root}
    → reserved r.entries ≤ instance_bytes
    → Reach r s
    → reserved s.entries ≤ instance_bytes
Reach-reserved h here = h
Reach-reserved h (next p st) = Step-reserved st (Reach-reserved h p)
