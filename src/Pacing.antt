-- ===== src/Pacing.antt =====
-- app/provider_pacing.py: the FIFO queue of tickets in front of a provider. Times of the event
-- loop and the interval are exact numbers, where the source has floats that round their sum; a
-- ticket is the number of its creation. A ticket is closed when it is in the queue no more.
pub mod Fifo
mod Tests
use odograph.Prelude.{
  ℕ, zero, suc, ◌+◌, ◌-◌, ◌*◌, ◌/◌, ◌%◌, ◌^◌, ◌≤◌, ◌<◌, min, max, ◌≡◌, refl, sym, ap, ◌∙◌, ◌≢◌, ◌↔◌,
  ◌⊎◌, inl, inr, Bool, true, false, ◌&&◌, ◌||◌, not, Option, none, some, List, [], ◌∷◌, ◌++◌, map,
  arith, ltb, leb, ◌==◌, if◌then◌else◌, ltb→lt, lt→ltb, leb→le, ==_iff, tests, Bool-cases,
  Option-cases, length, get_elem?, get_or, any, all, keep, elem, All, All-append, All-imp,
  length-append, any-append, All-keep, keep-passes, sorted, IsSorted, IsOrder, any-sorted,
  All-sorted, sorted-perm, sorted-IsSorted,
}
use odograph.Prelude.Int.{ℤ, pos, negsuc}

pub record ProviderPacer : Type 0 where
  pub interval_s : ℕ
  pub next_start : ℕ
  pub tickets : List ℕ
  pub created : ℕ

-- `max(0.0, interval_s)`
abbrev interval_from : ℤ → ℕ
interval_from (pos n) = n
interval_from (negsuc n) = 0

unfoldable pub new_pacer : ℤ → ProviderPacer
new_pacer interval_s = record {
  interval_s = interval_from interval_s;
  next_start = 0;
  tickets = [];
  created = 0;
}

-- The start of `wait_ready`: a new ticket at the end of the queue.
unfoldable pub enqueue : ProviderPacer → ProviderPacer × ℕ
enqueue p = (record p { tickets = p.tickets ++ p.created ∷ []; created = p.created + 1 }, p.created)

abbrev pub is_first : ℕ → List ℕ → Bool
is_first ticket [] = false
is_first ticket (t ∷ ts) = t == ticket

-- The test that ends the loop of `wait_ready`.
unfoldable pub is_ready : ProviderPacer → ℕ → ℕ → Bool
is_ready p now ticket = is_first ticket p.tickets && leb p.next_start now

-- `PacingTicket.close`: `deque.remove` takes the first such ticket out.
unfoldable pub remove : ℕ → List ℕ → List ℕ
remove ticket [] = []
remove ticket (t ∷ ts) = let rest = remove ticket ts in if t == ticket then ts else t ∷ rest

unfoldable pub close : ProviderPacer → ℕ → ProviderPacer
unfolding remove
close p ticket = record p { tickets = remove ticket p.tickets }

unfoldable pub try_start : ProviderPacer → ℕ → ℕ → ProviderPacer × Bool
unfolding close
try_start p now ticket =
    if not (elem ticket p.tickets) || not (is_first ticket p.tickets) || ltb now p.next_start
    then (p, false)
    else (close (record p { next_start = now + p.interval_s }) ticket, true)
