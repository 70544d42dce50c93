-- ===== src/Capacity/Promotion.antt =====
-- What promotion keeps: the limit, who has which key, and no free slot while someone waits.
use odograph.Prelude.{
  ℕ, ◌+◌, ◌≤◌, ◌≡◌, refl, ◌⊎◌, inl, inr, Bool, ◌||◌, List, [], ◌∷◌, ◌++◌, arith, ltb, leb, ◌==◌,
  if◌then◌else◌, ltb→lt, Bool-cases, length, any, keep, length-append,
}
use odograph.Capacity.{Owner, Ticket, has_key, add, fill}

-- How many of the owners, and of the tickets, belong to an account.
abbrev pub owners_of : ℕ → List Owner → ℕ
owners_of key [] = 0
owners_of key (o ∷ os) = (if has_key key o.principal then 1 else 0) + owners_of key os

abbrev pub tickets_of : ℕ → List Ticket → ℕ
tickets_of key [] = 0
tickets_of key (t ∷ ts) = (if has_key key t.owner.principal then 1 else 0) + tickets_of key ts

pub owners_of-append :
    (key : ℕ) (os ps : List Owner) → owners_of key (os ++ ps) ≡ owners_of key os + owners_of key ps
owners_of-append key [] ps = omega arith
owners_of-append key (o ∷ os) ps = omega (arith, owners_of-append key os ps)

pub tickets_of-append :
    (key : ℕ) (ts us : List Ticket)
    → tickets_of key (ts ++ us) ≡ tickets_of key ts + tickets_of key us
tickets_of-append key [] us = omega arith
tickets_of-append key (t ∷ ts) us = omega (arith, tickets_of-append key ts us)

pub owners_of-add :
    (key : ℕ) (o : Owner) (os : List Owner)
    → owners_of key (add o os) ≤ (if has_key key o.principal then 1 else 0) + owners_of key os
owners_of-add key o os = elim (Bool-cases (any (λ p. p.id == o.id) os)) [
  | inl e ↦ rw e (omega arith)
  | inr e ↦ rw e (omega (arith, owners_of-append key os (o ∷ [])))
]

pub length-add : (o : Owner) (os : List Owner) → length (add o os) ≤ length os + 1
length-add o os = elim (Bool-cases (any (λ p. p.id == o.id) os)) [
  | inl e ↦ rw e (omega arith)
  | inr e ↦ rw e (omega (arith, length-append os (o ∷ [])))
]

pub tickets_of-keep :
    (key : ℕ) (p : Ticket → Bool) (ts : List Ticket)
    → tickets_of key (keep p ts) ≤ tickets_of key ts
tickets_of-keep key p [] = omega arith
tickets_of-keep key p (t ∷ ts) = elim (Bool-cases (p t)) [
  | inl e ↦ rw e (omega (arith, tickets_of-keep key p ts))
  | inr e ↦ rw e (omega (arith, tickets_of-keep key p ts))
]

module _ (limit now : ℕ) (closed : Bool) where
  -- What the second loop leaves: nobody over the limit; nobody waiting unless the lane is full; and
  -- of no account more than it had.
  pub record IsFilled (os : List Owner) (ts : List Ticket)
      (r : List Owner × List Ticket × List (ℕ × Bool)) : Type 0 where
    pub limited : length r.0 ≤ limit
    pub full : (r.1 ≡ []) ⊎ (limit ≤ length r.0)
    pub fewer :
        (key : ℕ) → owners_of key r.0 + tickets_of key r.1 ≤ owners_of key os + tickets_of key ts

  pub fill-IsFilled :
      (os : List Owner) (ts : List Ticket)
      → length os ≤ limit
      → IsFilled os ts (fill limit now closed os ts)
  unfolding fill
  fill-IsFilled os [] h = record { limited = h; full = inl refl; fewer = λ key. omega arith }
  fill-IsFilled os (t ∷ ts) h = elim (Bool-cases (ltb (length os) limit)) [
    | inr e ↦
        rw (fill, e) (record { limited = h; full = inr (ground arith); fewer = λ key. omega arith })
    | inl e ↦ elim (Bool-cases t.done) [
      | inl d ↦
          let f = fill-IsFilled os ts h in
          rw (fill, e, d)
            (record {
              limited = f.limited;
              full = f.full;
              fewer = λ key. omega (arith, f.fewer key);
            })
      | inr d ↦ elim (Bool-cases (leb t.deadline now || closed)) [
        | inl x ↦
            let f = fill-IsFilled os ts h in
            rw (fill, e, d, x)
              (record {
                limited = f.limited;
                full = f.full;
                fewer = λ key. omega (arith, f.fewer key);
              })
        | inr x ↦
            let f =
              fill-IsFilled (add t.owner os) ts
                (omega (arith, length-add t.owner os, ltb→lt (length os) limit e)) in
            rw (fill, e, d, x)
              (record {
                limited = f.limited;
                full = f.full;
                fewer = λ key. omega (arith, f.fewer key, owners_of-add key t.owner os);
              })
      ]
    ]
  ]
