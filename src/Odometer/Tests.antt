-- ===== src/Odometer/Tests.antt =====
-- Two readings a thousand apart with a trip between them, and one reading behind.
use odograph.Prelude.{ℕ, ◌+◌, ◌-◌, ◌*◌, ◌/◌, ◌≡◌, refl, List, [], ◌∷◌, map, ltb, leb, sorted}
use odograph.Floats.{Floats}
use odograph.Odometer.{
  OdometerReading, ReconInterval, reconcile, intervals_of, interval_of, detected_between, is_within,
  recorded_first,
}
use odograph.Odometer.Attribution.{IsAttributed, reconcile-IsAttributed}

abbrev sum_up : List ℕ → ℕ
sum_up [] = 0
sum_up (x ∷ xs) = x + sum_up xs

abbrev numbers : Floats
numbers = record {
  Float = ℕ;
  of_nat = λ n. n;
  add = λ a b. a + b;
  sub = λ a b. a - b;
  mul = λ a b. a * b;
  div = λ a b. a / b;
  le = leb;
  lt = ltb;
  sum = sum_up;
  sin = λ x. x;
  cos = λ x. 1;
  asin = λ x. x;
  sqrt = λ x. x;
  radians = λ x. x;
  seconds = λ a b. b - a;
}

abbrev reading : ℕ → ℕ → OdometerReading ℕ
reading t m = record { recorded_at = t; odometer_m = m }

abbrev readings : List (OdometerReading ℕ)
readings = reading 20 2000 ∷ reading 10 1000 ∷ reading 30 2500 ∷ []

abbrev trips : List (ℕ × ℕ)
trips = (12, 600) ∷ (20, 300) ∷ []

reconcile-IsAttributed_example :
    IsAttributed numbers trips readings (reconcile numbers trips readings).intervals
reconcile-IsAttributed_example = reconcile-IsAttributed numbers trips readings

-- The trip at the second reading counts for the interval behind it only.
detected_test :
    map (λ (i : ReconInterval ℕ). i.detected_m) (reconcile numbers trips readings).intervals
    ≡ 600 ∷ 300 ∷ []
unfolding reconcile intervals_of interval_of detected_between is_within sorted recorded_first
detected_test = refl
