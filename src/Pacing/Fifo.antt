-- ===== src/Pacing/Fifo.antt =====
-- Requests start one interval apart and in the order in which their tickets were made.
use odograph.Prelude.{
  ℕ, ◌+◌, ◌≤◌, ◌<◌, ◌≡◌, refl, ◌∙◌, inl, inr, true, false, List, [], ◌∷◌, ◌++◌, arith, ltb, ◌==◌,
  ==_iff, Bool-cases, elem,
}
use mathlib.Core.Path.{subst}
use odograph.Pacing.{ProviderPacer, new_pacer, enqueue, is_first, remove, close, try_start}
use odograph.Prelude.Int.{ℤ}

-- The pacer with the requests that it has started, the latest one first: ticket and time.
pub record Run : Type 0 where
  pub pacer : ProviderPacer
  pub started : List (ℕ × ℕ)

-- What callers do, in any order: wait, start, give up or finish.
pub data Step (r : Run) : Run → Type 0 where
  waits : Step r (record r { pacer = (enqueue r.pacer).0 })
  starts :
      (now ticket : ℕ)
      → (try_start r.pacer now ticket).1 ≡ true
      → Step r
          (record { pacer = (try_start r.pacer now ticket).0; started = (ticket, now) ∷ r.started })
  closes : (ticket : ℕ) → Step r (record r { pacer = close r.pacer ticket })

pub data Reach (r : Run) : Run → Type 0 where
  here : Reach r r
  next : {s t : Run} → Reach r s → Step s t → Reach r t

-- Each request starts an interval behind the one before it, and has a later ticket.
abbrev pub ArePaced : ℕ → List (ℕ × ℕ) → Type 0
ArePaced interval [] = Unit
ArePaced interval (a ∷ []) = Unit
ArePaced interval (a ∷ b ∷ rs) = (b.1 + interval ≤ a.1) × (b.0 < a.0) × ArePaced interval (b ∷ rs)

-- The tickets wait in the order of their numbers, from `lo` on and below `hi`.
abbrev Ascends : ℕ → ℕ → List ℕ → Type 0
Ascends lo hi [] = lo ≤ hi
Ascends lo hi (t ∷ ts) = (lo ≤ t) × Ascends (t + 1) hi ts

-- The ticket behind the latest started one, and the time behind which the next may start.
abbrev next_ticket : List (ℕ × ℕ) → ℕ
next_ticket [] = 0
next_ticket (a ∷ rs) = a.0 + 1

abbrev Opens : ℕ → ℕ → List (ℕ × ℕ) → Type 0
Opens next_start interval [] = Unit
Opens next_start interval (a ∷ rs) = next_start ≡ a.1 + interval

record IsFair (interval : ℕ) (r : Run) : Type 0 where
  same : r.pacer.interval_s ≡ interval
  paced : ArePaced interval r.started
  queued : Ascends (next_ticket r.started) r.pacer.created r.pacer.tickets
  opens : Opens r.pacer.next_start r.pacer.interval_s r.started

Ascends-mono : (lo lo' hi : ℕ) (ts : List ℕ) → lo' ≤ lo → Ascends lo hi ts → Ascends lo' hi ts
Ascends-mono lo lo' hi [] h a = omega arith
Ascends-mono lo lo' hi (t ∷ ts) h a = (omega arith, a.1)

Ascends-append : (lo hi : ℕ) (ts : List ℕ) → Ascends lo hi ts → Ascends lo (hi + 1) (ts ++ hi ∷ [])
Ascends-append lo hi [] a = (a, omega arith)
Ascends-append lo hi (t ∷ ts) a = (a.0, Ascends-append (t + 1) hi ts a.1)

Ascends-remove :
    (lo hi ticket : ℕ) (ts : List ℕ) → Ascends lo hi ts → Ascends lo hi (remove ticket ts)
unfolding remove
Ascends-remove lo hi ticket [] a = a
Ascends-remove lo hi ticket (t ∷ ts) a = elim (Bool-cases (t == ticket)) [
  | inl e ↦ rw e (Ascends-mono (t + 1) lo hi ts (omega arith) a.1)
  | inr e ↦ rw e (a.0, Ascends-remove (t + 1) hi ticket ts a.1)
]

first_lem :
    (ticket lo hi : ℕ) (ts : List ℕ)
    → is_first ticket ts ≡ true
    → Ascends lo hi ts
    → (lo ≤ ticket) × Ascends (ticket + 1) hi (remove ticket ts)
unfolding remove
first_lem ticket lo hi [] h a = absurd (ground arith)
first_lem ticket lo hi (t ∷ ts) h a =
    let same = (==_iff t ticket).0 h in
    rw h (omega (arith, same, a.0), subst (λ x. Ascends (x + 1) hi ts) same a.1)

start_lem :
    (p : ProviderPacer) (now ticket : ℕ) (lo : ℕ)
    → (try_start p now ticket).1 ≡ true
    → Ascends lo p.created p.tickets
    → (lo ≤ ticket)
      × (p.next_start ≤ now)
      × Ascends (ticket + 1) (try_start p now ticket).0.created (try_start p now ticket).0.tickets
      × ((try_start p now ticket).0.next_start ≡ now + p.interval_s)
      × ((try_start p now ticket).0.interval_s ≡ p.interval_s)
unfolding try_start close
start_lem p now ticket lo h a =
    let first : is_first ticket p.tickets ≡ true = ground arith in
    let member : elem ticket p.tickets ≡ true = ground arith in
    let late : ltb now p.next_start ≡ false = ground arith in
    let queue = first_lem ticket lo p.created p.tickets first a in
    rw (first, member, late) (queue.0, ground arith, queue.1, refl, refl)

ArePaced-cons :
    (interval ticket now : ℕ) (p : ProviderPacer) (rs : List (ℕ × ℕ))
    → p.interval_s ≡ interval
    → next_ticket rs ≤ ticket
    → p.next_start ≤ now
    → Opens p.next_start p.interval_s rs
    → ArePaced interval rs
    → ArePaced interval ((ticket, now) ∷ rs)
ArePaced-cons interval ticket now p [] s h n o a = tt
ArePaced-cons interval ticket now p (b ∷ rs) s h n o a = (omega arith, omega arith, a)

Step-IsFair : {interval : ℕ} {r s : Run} → Step r s → IsFair interval r → IsFair interval s
unfolding enqueue close
Step-IsFair {r = r} waits f = record {
  same = f.same;
  paced = f.paced;
  queued = Ascends-append (next_ticket r.started) r.pacer.created r.pacer.tickets f.queued;
  opens = f.opens;
}
Step-IsFair {interval} {r} (starts now ticket h) f =
    let (first, late, rest, opened, same) =
      start_lem r.pacer now ticket (next_ticket r.started) h f.queued in
    record {
      same = same ∙ f.same;
      paced = ArePaced-cons interval ticket now r.pacer r.started f.same first late f.opens f.paced;
      queued = rest;
      opens = omega (arith, opened, same);
    }
Step-IsFair {r = r} (closes ticket) f = record {
  same = f.same;
  paced = f.paced;
  queued = Ascends-remove (next_ticket r.started) r.pacer.created ticket r.pacer.tickets f.queued;
  opens = f.opens;
}

Reach-IsFair : {interval : ℕ} {r s : Run} → IsFair interval r → Reach r s → IsFair interval s
Reach-IsFair f here = f
Reach-IsFair f (next p st) = Step-IsFair st (Reach-IsFair f p)

abbrev pub fresh_run : ℤ → Run
fresh_run interval_s = record { pacer = new_pacer interval_s; started = [] }

-- Whatever callers do and whenever, requests start at least an interval apart, and in the order
-- in which their tickets were made.
pub Reach-ArePaced :
    (interval_s : ℤ) {r : Run}
    → Reach (fresh_run interval_s) r
    → ArePaced (new_pacer interval_s).interval_s r.started
unfolding new_pacer
Reach-ArePaced interval_s p =
    (Reach-IsFair (record { same = refl; paced = tt; queued = omega arith; opens = tt }) p).paced
