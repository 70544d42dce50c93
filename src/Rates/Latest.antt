-- ===== src/Rates/Latest.antt =====
-- The rate is the one of the latest published year that is not after the asked one.
use odograph.Prelude.{
  ℕ, ◌≤◌, ◌<◌, ◌≡◌, inl, inr, false, ◌&&◌, none, some, List, [], ◌∷◌, arith, ltb, ◌==◌,
  if◌then◌else◌, lt→ltb, ==_iff, Bool-cases, Option-cases,
}
use mathlib.Core.Path.{subst}
use odograph.Rates.{YearRate, rate, rates_get, latest_before, rate_of_earlier, rate_for}

module _ {F : Type 0} where
  -- No year of the dict lies strictly between the two.
  abbrev pub IsLatest : List (ℕ × YearRate F) → ℕ → ℕ → Type 0
  IsLatest rates known year =
      (known ≤ year) × ((k : ℕ) → known < k → k ≤ year → rates_get rates k ≡ none)

  rest_none :
      (y k : ℕ) (r : YearRate F) (rates : List (ℕ × YearRate F))
      → rates_get ((y, r) ∷ rates) k ≡ none
      → (rates_get rates k ≡ none) × ((y == k) ≡ false)
  unfolding rates_get
  rest_none y k r rates h = ground arith

  latest_before_bound :
      (rates : List (ℕ × YearRate F)) (known year b : ℕ)
      → ((k : ℕ) → known < k → k < year → rates_get rates k ≡ none)
      → latest_before rates year ≡ some b
      → b ≤ known
  unfolding latest_before
  latest_before_bound [] known year b h e = absurd (ground arith)
  latest_before_bound ((y, r) ∷ rates) known year b h e =
      elim (Bool-cases (ltb known y && ltb y year)) [
        | inl between ↦
            let none_there = rest_none y y r rates (h y (ground arith) (ground arith)) in
            absurd (ground (arith, none_there.1))
        | inr outside ↦
            let deeper = latest_before_bound rates known year in
            let rest : (k : ℕ) → known < k → k < year → rates_get rates k ≡ none =
              λ k l m. (rest_none y k r rates (h k l m)).0 in
            elim (Option-cases (latest_before rates year)) [
              | inl n ↦ ground (arith, n)
              | inr (best, f) ↦ ground (arith, f, deeper best rest f)
            ]
      ]

  latest_before-some :
      (rates : List (ℕ × YearRate F)) (known year : ℕ) (yr : YearRate F)
      → known < year
      → rates_get rates known ≡ some yr
      → ((k : ℕ) → known < k → k < year → rates_get rates k ≡ none)
      → latest_before rates year ≡ some known
  unfolding latest_before rates_get
  latest_before-some [] known year yr l e h = absurd (ground arith)
  latest_before-some ((y, r) ∷ rates) known year yr l e h =
      let rest : (k : ℕ) → known < k → k < year → rates_get rates k ≡ none =
        λ k a b. (rest_none y k r rates (h k a b)).0 in
      elim (Bool-cases (y == known)) [
        | inl same ↦ elim (Option-cases (latest_before rates year)) [
          | inl n ↦ ground (arith, n, (==_iff y known).0 same, lt→ltb known year l)
          | inr (best, f) ↦
              let bound = latest_before_bound rates known year best rest f in
              ground (arith, f, (==_iff y known).0 same, bound)
        ]
        | inr other ↦
            let deeper = latest_before-some rates known year yr l (ground arith) rest in
            elim (Bool-cases (ltb known y && ltb y year)) [
              | inl between ↦
                  absurd
                    (ground (arith, (rest_none y y r rates (h y (ground arith) (ground arith))).1))
              | inr outside ↦ ground (arith, deeper)
            ]
      ]

  -- Of the years that have a rate, the latest one that is not after the asked year gives it: by
  -- the month in that year itself, and by its last month in a later one.
  pub rate_for_latest :
      (rates : List (ℕ × YearRate F)) (known year month : ℕ) (yr : YearRate F)
      → rates_get rates known ≡ some yr
      → IsLatest rates known year
      → rate_for rates year month ≡ some (rate yr (if known == year then month else 12))
  unfolding rate_for rate_of_earlier
  rate_for_latest rates known year month yr e (l, h) = elim (Bool-cases (known == year)) [
    | inl same ↦
        let here : rates_get rates year ≡ some yr =
          subst (λ y. rates_get rates y ≡ some yr) ((==_iff known year).0 same) e in
        ground (arith, here, same)
    | inr other ↦
        let before : known < year = ground arith in
        let gone = h year before (omega arith) in
        let latest =
          latest_before-some rates known year yr before e (λ k a b. h k a (omega arith)) in
        ground (arith, other, gone, latest, e)
  ]
