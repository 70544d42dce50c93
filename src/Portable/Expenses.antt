-- ===== src/Portable/Expenses.antt =====
-- `_normalize_expenses` and `_normalize_odometer_readings` of app/portable/normalize.py.
pub mod Accepted
use odograph.Prelude.{
  ℕ, ◌==◌, ◌&&◌, Bool, true, false, not, Option, none, some, List, [], ◌∷◌, map, any,
}
use Prim.Native.String.{String}
use odograph.Portable.Json.{ℤ, pos, eq_int, Json, Fields, get}
use odograph.Portable.Platform.{Platform}
use odograph.Portable.Rows.{
  Issue, Outcome, accept, refuse, raise, ◌>>=◌, ◌>>◌, refuse_if, Progress, each_row,
}
use odograph.Portable.Values.{
  optional_str, choice, reference, optional_reference, number, parse_datetime, parse_date,
  parse_amount,
}

-- The constants of app/expenses.py.
abbrev pub expense_categories : List String
expense_categories =
    "fuel" ∷ "maintenance_repairs" ∷ "tires" ∷ "insurance" ∷ "registration_taxes" ∷ "lease_payments"
    ∷ "depreciation" ∷ "parking" ∷ "tolls" ∷ "other" ∷ []

abbrev pub expense_treatments : List String
expense_treatments = "business_use_allocated" ∷ "fully_business" ∷ []

pub record ExpenseRow (Date Decimal : Type 0) : Type 0 where
  pub vehicle : ℤ
  pub incurred_on : Date
  pub category : String
  pub amount : Decimal
  pub treatment : String
  pub notes : Option String
  pub trip : Option ℤ

pub record OdometerReading (F : Type 0) : Type 0 where
  pub vehicle : ℤ
  pub recorded_at : ℕ
  pub odometer_m : F
  pub note : Option String

-- `pair in seen_pairs`
unfoldable pub is_seen : {F : Type 0} → List (OdometerReading F) → ℤ → ℕ → Bool
is_seen out vehicle t = any (λ r. eq_int vehicle r.vehicle && (t == r.recorded_at)) out

module _ (lib : Platform) (known_vehicles : List ℤ) where
  open lib use {Float, Date, Decimal}

  -- The body of the loop over the expenses.
  unfoldable pub expense_row :
      List ℤ → List (ExpenseRow Date Decimal) → Fields Float → Outcome (ExpenseRow Date Decimal)
  expense_row known_trips out row = do
    vehicle ← reference known_vehicles ".vehicle references unknown vehicle $id" (get row "vehicle")
    incurred_on ← parse_date lib ".incurred_on must be an ISO 8601 date" (get row "incurred_on")
    category ←
        choice expense_categories ".category must be one of EXPENSE_CATEGORIES" (get row "category")
    treatment ←
        choice expense_treatments ".treatment must be one of EXPENSE_TREATMENTS"
          (get row "treatment")
    amount ← parse_amount lib ".amount must be a positive decimal string" (get row "amount")
    notes ← optional_str ".notes must be a string or null" (get row "notes")
    trip ← optional_reference known_trips ".trip references unknown trip $id" (get row "trip")
    accept (record {
      vehicle = vehicle;
      incurred_on = incurred_on;
      category = category;
      amount = amount;
      treatment = treatment;
      notes = notes;
      trip = trip;
    })

  unfoldable pub normalize_expenses :
      List ℤ → Json Float → List Issue → Option (Progress (ExpenseRow Date Decimal))
  unfolding expense_row
  normalize_expenses known_trips raw issues =
      each_row "expenses" (expense_row known_trips) raw issues

  -- The body of the loop over the odometer readings.
  unfoldable pub reading_row :
      List (OdometerReading Float) → Fields Float → Outcome (OdometerReading Float)
  unfolding is_seen
  reading_row out row = do
    vehicle ← reference known_vehicles ".vehicle references unknown vehicle $id" (get row "vehicle")
    recorded_at ←
        parse_datetime lib ".recorded_at must be an ISO 8601 timestamp with a UTC offset"
          (get row "recorded_at")
    refuse_if (is_seen out vehicle recorded_at)
        " duplicates an existing (vehicle, recorded_at) pair for vehicle $id"
    odometer_m ←
        number lib (some (lib.literal (pos 0))) none ".odometer_m must be a non-negative number"
          (get row "odometer_m")
    note ← optional_str ".note must be a string or null" (get row "note")
    accept (record {
      vehicle = vehicle;
      recorded_at = recorded_at;
      odometer_m = odometer_m;
      note = note;
    })

  unfoldable pub normalize_odometer_readings :
      Json Float → List Issue → Option (Progress (OdometerReading Float))
  unfolding reading_row
  normalize_odometer_readings raw issues = each_row "odometer_readings" reading_row raw issues
