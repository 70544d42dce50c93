-- ===== src/Rates/Tests.antt =====
-- Rates of two years, the later one with a second half, asked for two years behind it.
use odograph.Prelude.{ℕ, ◌≡◌, refl, none, some, List, [], ◌∷◌, arith}
use odograph.Rates.{YearRate, rate, rates_get, rate_for}
use odograph.Rates.Latest.{IsLatest, rate_for_latest}

abbrev first : YearRate ℕ
first = record { rate_per_mi = 655; rate_h2_per_mi = none; h2_start_month = none }

abbrev second : YearRate ℕ
second = record { rate_per_mi = 670; rate_h2_per_mi = some 700; h2_start_month = some 7 }

abbrev rates : List (ℕ × YearRate ℕ)
rates = (2023, first) ∷ (2024, second) ∷ []

known : rates_get rates 2024 ≡ some second
unfolding rates_get
known = refl

none_later : IsLatest rates 2024 2026
unfolding rates_get
none_later = (omega arith, λ k h l. ground arith)

rate_for_latest_example : rate_for rates 2026 3 ≡ some (rate second 12)
rate_for_latest_example = rate_for_latest rates 2024 2026 3 second known none_later
