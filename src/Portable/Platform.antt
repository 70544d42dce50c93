-- ===== src/Portable/Platform.antt =====
-- What app/portable/normalize.py uses of Python's standard library beyond strings and integers:
-- floats, decimals, dates and time zones, as the operations of a record.
use odograph.Prelude.{ℕ, Bool, Option}
use odograph.Portable.Json.{ℤ}
use Prim.Native.String.{String}

-- `ZoneInfo(key)` returns, raises one of the two exceptions that are caught, or another one.
pub data ZoneLookup : Type 0 where
  zone_found zone_refused zone_failed : ZoneLookup

pub record Platform : Type 1 where
  pub Float : Type 0
  -- `float(n)`, which overflows for an integer that is too large.
  pub float_of_int : ℤ → Option Float
  -- The float of a small literal.
  pub literal : ℤ → Float
  pub is_finite : Float → Bool
  pub lt_float : Float → Float → Bool
  pub le_float : Float → Float → Bool
  -- `datetime.fromisoformat`: the instant in microseconds, and whether it has an offset.
  pub datetime_fromisoformat : String → Option (ℕ × Bool)
  pub Date : Type 0
  pub date_fromisoformat : String → Option Date
  pub Decimal : Type 0
  pub decimal : String → Option Decimal
  pub is_finite_decimal : Decimal → Bool
  pub le_decimal : Decimal → Decimal → Bool
  pub eq_decimal : Decimal → Decimal → Bool
  -- `Decimal("0")` and `Decimal("9999999999.99")`.
  pub decimal_0 : Decimal
  pub decimal_max : Decimal
  -- `raw.quantize(Decimal("0.01"))`
  pub quantize : Decimal → Decimal
  pub zone_info : String → ZoneLookup
