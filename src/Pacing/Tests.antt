-- ===== src/Pacing/Tests.antt =====
-- Two tickets at an interval of ten: the first starts at 5 and the second at 15.
use odograph.Prelude.{◌≡◌, refl, false, [], ◌∷◌}
use odograph.Prelude.Int.{pos}
use odograph.Pacing.{new_pacer, enqueue, remove, close, try_start}
use odograph.Pacing.Fifo.{
  Run, waits, starts, Reach, here, next, ArePaced, fresh_run, Reach-ArePaced,
}

abbrev waiting : Run
waiting = record {
  pacer = record { interval_s = 10; next_start = 0; tickets = 0 ∷ 1 ∷ []; created = 2 };
  started = [];
}

abbrev one_started : Run
one_started = record {
  pacer = record { interval_s = 10; next_start = 15; tickets = 1 ∷ []; created = 2 };
  started = (0, 5) ∷ [];
}

abbrev both_started : Run
both_started = record {
  pacer = record { interval_s = 10; next_start = 25; tickets = []; created = 2 };
  started = (1, 15) ∷ (0, 5) ∷ [];
}

waiting-Reach : Reach (fresh_run (pos 10)) waiting
unfolding new_pacer enqueue
waiting-Reach = next (next here waits) waits

too_early_test : (try_start one_started.pacer 14 1).1 ≡ false
unfolding try_start close remove
too_early_test = refl

both-Reach : Reach (fresh_run (pos 10)) both_started
unfolding try_start close remove
both-Reach = next (next waiting-Reach (starts 5 0 refl)) (starts 15 1 refl)

Reach-ArePaced_example : ArePaced (new_pacer (pos 10)).interval_s both_started.started
Reach-ArePaced_example = Reach-ArePaced (pos 10) both-Reach
