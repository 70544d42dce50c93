-- ===== src/Rates.antt =====
-- app/rates.py: the mileage rate in force. `load_rates` makes the dict from rows of the database.
pub mod Latest
mod Tests
use odograph.Prelude.{
  ℕ, zero, suc, ◌+◌, ◌-◌, ◌*◌, ◌/◌, ◌%◌, ◌^◌, ◌≤◌, ◌<◌, min, max, ◌≡◌, refl, sym, ap, ◌∙◌, ◌≢◌, ◌↔◌,
  ◌⊎◌, inl, inr, Bool, true, false, ◌&&◌, ◌||◌, not, Option, none, some, List, [], ◌∷◌, ◌++◌, map,
  arith, ltb, leb, ◌==◌, if◌then◌else◌, ltb→lt, lt→ltb, leb→le, ==_iff, tests, Bool-cases,
  Option-cases, length, get_elem?, get_or, any, all, keep, elem, All, All-append, All-imp,
  length-append, any-append, All-keep, keep-passes, sorted, IsSorted, IsOrder, any-sorted,
  All-sorted, sorted-perm, sorted-IsSorted,
}
use odograph.Floats.{Floats}

pub record YearRate (F : Type 0) : Type 0 where
  pub rate_per_mi : F
  pub rate_h2_per_mi : Option F
  pub h2_start_month : Option ℕ

module _ {F : Type 0} where
  rate_in : F → Option F → Option ℕ → ℕ → F
  rate_in flat (some h2) (some start) month = if leb start month then h2 else flat
  rate_in flat _ _ month = flat

  -- `YearRate.rate`
  unfoldable pub rate : YearRate F → ℕ → F
  unfolding rate_in
  rate yr month = rate_in yr.rate_per_mi yr.rate_h2_per_mi yr.h2_start_month month

  -- The dict is a list of its items; each year stands in it once.
  unfoldable pub rates_get : List (ℕ × YearRate F) → ℕ → Option (YearRate F)
  rates_get [] year = none
  rates_get ((y, r) ∷ rates) year =
      let rest = rates_get rates year in if y == year then some r else rest

  -- `max(y for y in rates if y < year)`
  unfoldable pub latest_before : List (ℕ × YearRate F) → ℕ → Option ℕ
  latest_before [] year = none
  latest_before ((y, r) ∷ rates) year = elim (latest_before rates year) [
    | none ↦ if ltb y year then some y else none
    | some best ↦ if ltb y year then some (max y best) else some best
  ]

  unfoldable pub rate_of_earlier : List (ℕ × YearRate F) → Option ℕ → Option F
  unfolding rate rates_get
  rate_of_earlier rates none = none
  rate_of_earlier rates (some year) = elim (rates_get rates year) [
    | none ↦ none
    | some yr ↦ some (rate yr 12)
  ]

  unfoldable pub rate_for : List (ℕ × YearRate F) → ℕ → ℕ → Option F
  unfolding rate rates_get latest_before rate_of_earlier
  rate_for rates year month = elim (rates_get rates year) [
    | none ↦ rate_of_earlier rates (latest_before rates year)
    | some yr ↦ some (rate yr month)
  ]

module _ (fl : Floats) (meters_per_mile : fl.Float) where
  open fl use {Float, mul, div}

  unfoldable pub deduction : Float → ℕ → List (ℕ × YearRate Float) → ℕ → Option Float
  unfolding rate_for
  deduction distance_m year rates month = elim (rate_for rates year month) [
    | none ↦ none
    | some r ↦ some (mul (div distance_m meters_per_mile) r)
  ]
