-- ===== src/Portable/Expenses/Accepted.antt =====
-- What the accepted expenses and odometer readings satisfy.
use odograph.Prelude.{◌≡◌, true, false, some, List, [], ◌∷◌, arith, All, All-append}
use odograph.Portable.Json.{ℤ, Json, Fields, get}
use odograph.Portable.Platform.{Platform}
use odograph.Portable.Rows.{Issue, accept, Progress}
use odograph.Portable.Rows.Counts.{each_row-Inv}
use odograph.Portable.Values.{is_known, reference, optional_reference}
use odograph.Portable.Values.Ids.{Resolves}
use odograph.Portable.Values.Accepted.{reference-known, optional_reference-Resolves}
use odograph.Portable.Expenses.{
  ExpenseRow, expense_row, normalize_expenses, OdometerReading, is_seen, reading_row,
  normalize_odometer_readings,
}

module _ (lib : Platform) (known_vehicles : List ℤ) where
  open lib use {Float, Date, Decimal}

  module _ (known_trips : List ℤ) where
    expense_row_references :
        (out : List (ExpenseRow Date Decimal)) (row : Fields Float) (e : ExpenseRow Date Decimal)
        → expense_row lib known_vehicles known_trips out row ≡ accept e
        → (reference known_vehicles ".vehicle references unknown vehicle $id" (get row "vehicle")
            ≡ accept e.vehicle)
          × (optional_reference known_trips ".trip references unknown trip $id" (get row "trip")
              ≡ accept e.trip)
    unfolding expense_row
    expense_row_references out row e h = ground arith

    -- An expense belongs to a known vehicle, and to no trip or a known one.
    abbrev pub IsExpense : ExpenseRow Date Decimal → Type 0
    IsExpense e = (is_known known_vehicles e.vehicle ≡ true) × Resolves known_trips e.trip

    -- The accepted expenses refer to known vehicles and trips only.
    pub normalize_expenses-AllExpenses :
        (raw : Json Float) (issues : List Issue) (p : Progress (ExpenseRow Date Decimal))
        → normalize_expenses lib known_vehicles known_trips raw issues ≡ some p
        → All IsExpense p.out
    unfolding normalize_expenses
    normalize_expenses-AllExpenses raw issues p h =
        each_row-Inv "expenses" (expense_row lib known_vehicles known_trips) (All IsExpense)
          (λ out row e r a.
            let references = expense_row_references out row e r in
            All-append IsExpense out (e ∷ []) a (
              (
                reference-known known_vehicles _ _ e.vehicle references.0,
                optional_reference-Resolves known_trips _ _ e.trip references.1,
              ),
              tt,
            ))
          raw issues p h tt

  reading_row_checks :
      (out : List (OdometerReading Float)) (row : Fields Float) (r : OdometerReading Float)
      → reading_row lib known_vehicles out row ≡ accept r
      → (reference known_vehicles ".vehicle references unknown vehicle $id" (get row "vehicle")
          ≡ accept r.vehicle)
        × (is_seen out r.vehicle r.recorded_at ≡ false)
  unfolding reading_row
  reading_row_checks out row r h = ground arith

  -- Each reading is of a known vehicle.
  abbrev pub AreKnown : List (OdometerReading Float) → Type 0
  AreKnown = All {_, 0} (λ r. is_known known_vehicles r.vehicle ≡ true)

  -- The accepted readings are of known vehicles.
  pub normalize_odometer_readings-AreKnown :
      (raw : Json Float) (issues : List Issue) (p : Progress (OdometerReading Float))
      → normalize_odometer_readings lib known_vehicles raw issues ≡ some p
      → AreKnown p.out
  unfolding normalize_odometer_readings
  normalize_odometer_readings-AreKnown raw issues p h =
      each_row-Inv "odometer_readings" (reading_row lib known_vehicles) AreKnown
        (λ out row r e a.
          All-append _ out (r ∷ []) a
            (reference-known known_vehicles _ _ r.vehicle (reading_row_checks out row r e).0, tt))
        raw issues p h tt
