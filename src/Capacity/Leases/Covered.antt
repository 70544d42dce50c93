-- ===== src/Capacity/Leases/Covered.antt =====
-- Leases are few, and the flag of an owner says whether it has one.
use odograph.Prelude.{
  ℕ, ◌≤◌, ◌≡◌, Bool, false, not, Option, none, some, List, [], ◌∷◌, arith, ◌==◌, if◌then◌else◌,
  length, keep, elem,
}
use odograph.Capacity.Leases.{
  Holder, Role, Leases, for_runtime, for_control, begin_borrow, end_borrow, begin_lease, end_lease,
}

pub data Step (m : Leases) : Leases → Type 0 where
  borrows : (id : ℕ) (role : Role) (n : Leases) → begin_borrow id role m ≡ some n → Step m n
  returns : (id : ℕ) (role : Role) → Step m (end_borrow id role m)
  leases_out :
      (h : Option Holder) (account_ids : List ℕ) (n : Leases)
      → begin_lease h account_ids m ≡ some n
      → Step m n
  gives_back : (id : ℕ) → Step m (end_lease id m)

pub data Reach (m : Leases) : Leases → Type 0 where
  here : Reach m m
  next : {n k : Leases} → Reach m n → Step n k → Reach m k

abbrev pub IsKept : Leases → Type 0
IsKept m = (length m.leases ≤ 5) × ((id : ℕ) → (m.lifetime id).lease ≡ elem id m.leases)

length-keep : (p : ℕ → Bool) (ids : List ℕ) → length (keep p ids) ≤ length ids
length-keep p [] = omega arith
length-keep p (id ∷ ids) = ground (arith, length-keep p ids)

elem-keep :
    (id n : ℕ) (ids : List ℕ)
    → elem n (keep (λ k. not (k == id)) ids) ≡ (if n == id then false else elem n ids)
elem-keep id n [] = ground arith
elem-keep id n (k ∷ ids) = ground (arith, elem-keep id n ids)

begin_borrow-IsKept :
    (id : ℕ) (role : Role) (m n : Leases) → IsKept m → begin_borrow id role m ≡ some n → IsKept n
unfolding begin_borrow
begin_borrow-IsKept id for_runtime m n h e = (ground (arith, e, h.0), λ k. ground (arith, e, h.1 k))
begin_borrow-IsKept id for_control m n h e = (ground (arith, e, h.0), λ k. ground (arith, e, h.1 k))

end_borrow-IsKept : (id : ℕ) (role : Role) (m : Leases) → IsKept m → IsKept (end_borrow id role m)
unfolding end_borrow
end_borrow-IsKept id for_runtime m h = (h.0, λ k. ground (arith, h.1 k))
end_borrow-IsKept id for_control m h = (h.0, λ k. ground (arith, h.1 k))

begin_lease-IsKept :
    (h : Option Holder) (account_ids : List ℕ) (m n : Leases)
    → IsKept m
    → begin_lease h account_ids m ≡ some n
    → IsKept n
unfolding begin_lease
begin_lease-IsKept none account_ids m n k e = absurd (ground arith)
begin_lease-IsKept (some h) account_ids m n k e =
    let flag = k.1 h.owner.id in
    (ground (arith, e, k.0, flag), λ id. ground (arith, e, k.1 id, flag))

end_lease-IsKept : (id : ℕ) (m : Leases) → IsKept m → IsKept (end_lease id m)
unfolding end_lease
end_lease-IsKept id m h = (
  omega (arith, h.0, length-keep (λ n. not (n == id)) m.leases),
  λ k. ground (arith, h.1 k, elem-keep id k m.leases),
)

Step-IsKept : {m n : Leases} → Step m n → IsKept m → IsKept n
Step-IsKept {m} {n} (borrows id role _ e) h = begin_borrow-IsKept id role m n h e
Step-IsKept {m} (returns id role) h = end_borrow-IsKept id role m h
Step-IsKept {m} {n} (leases_out o account_ids _ e) h = begin_lease-IsKept o account_ids m n h e
Step-IsKept {m} (gives_back id) h = end_lease-IsKept id m h

-- If there are five leases at most and they are those of the owners whose flag is set, then this
-- stays so, whatever is borrowed, leased and given back.
pub Reach-IsKept : {m n : Leases} → IsKept m → Reach m n → IsKept n
Reach-IsKept h here = h
Reach-IsKept h (next r st) = Step-IsKept st (Reach-IsKept h r)
