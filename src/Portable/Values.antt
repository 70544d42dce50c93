-- ===== src/Portable/Values.antt =====
-- The checks of single values in app/portable/normalize.py, and `parse_finite_number` of
-- app/validation.py.
pub mod Accepted
pub mod Ids
use odograph.Prelude.{
  ℕ, ◌+◌, leb, ltb, ◌==◌, Bool, true, false, not, ◌&&◌, ◌||◌, Option, none, some, List, [], ◌∷◌,
  any, if◌then◌else◌, elem,
}
use Prim.Native.String.{String, [] as no_text, ◌∷◌ as char_cons, count}
use Prim.Native.Char.{Char, code}
use odograph.Portable.Json.{
  ℤ, pos, negsuc, eq_int, Json, Fields, null, boolean, int, real, str, array, object, get,
  is_one_of,
}
use odograph.Portable.Platform.{Platform}
use odograph.Portable.Rows.{Outcome, accept, refuse, raise}

-- `c.isspace()`
is_space : Char → Bool
is_space c =
    let n = code c in
    (leb 9 n && leb n 13)
    || (leb 28 n && leb n 32)
    || (leb 8192 n && leb n 8202)
    || elem n (133 ∷ 160 ∷ 5760 ∷ 8232 ∷ 8233 ∷ 8239 ∷ 8287 ∷ 12288 ∷ [])

lstrip : String → String
unfolding is_space
lstrip no_text = no_text
lstrip (char_cons c s) = let rest = lstrip s in if is_space c then rest else char_cons c s

-- A character in front of a stripped text: it goes when it is white and nothing is left behind it.
before_stripped : Char → String → String
unfolding is_space
before_stripped c no_text = if is_space c then no_text else char_cons c no_text
before_stripped c (char_cons d s) = char_cons c (char_cons d s)

rstrip : String → String
unfolding before_stripped
rstrip no_text = no_text
rstrip (char_cons c s) = before_stripped c (rstrip s)

unfoldable pub strip : String → String
unfolding lstrip rstrip
strip s = rstrip (lstrip s)

abbrev pub is_blank : String → Bool
is_blank no_text = true
is_blank (char_cons c s) = false

-- `value in known_ids`
unfoldable pub is_known : List ℤ → ℤ → Bool
unfolding eq_int
is_known ids i = any (eq_int i) ids

module _ {F : Type 0} where
  -- `_plain_int(value)`, with the integer.
  unfoldable pub plain_int : String → Json F → Outcome ℤ
  plain_int text (int i) = accept i
  plain_int text _ = refuse text

  -- `isinstance(value, bool)`
  unfoldable pub plain_bool : String → Json F → Outcome Bool
  plain_bool text (boolean b) = accept b
  plain_bool text _ = refuse text

  -- `isinstance(value, str)`
  unfoldable pub plain_str : String → Json F → Outcome String
  plain_str text (str s) = accept s
  plain_str text _ = refuse text

  -- `_is_optional_str(value)`
  unfoldable pub optional_str : String → Json F → Outcome (Option String)
  optional_str text null = accept none
  optional_str text (str s) = accept (some s)
  optional_str text _ = refuse text

  -- A value of a tuple of strings.
  unfoldable pub choice : List String → String → Json F → Outcome String
  unfolding is_one_of
  choice choices text (str s) = if is_one_of {F = F} choices (str s) then accept s else refuse text
  choice choices text _ = refuse text

  unfoldable pub optional_choice : List String → String → Json F → Outcome (Option String)
  unfolding is_one_of
  optional_choice choices text null = accept none
  optional_choice choices text (str s) =
      if is_one_of {F = F} choices (str s) then accept (some s) else refuse text
  optional_choice choices text _ = refuse text

  -- `_references_known_id(value, known_ids)`
  unfoldable pub reference : List ℤ → String → Json F → Outcome ℤ
  unfolding is_known
  reference ids text (int i) = if is_known ids i then accept i else refuse text
  reference ids text _ = refuse text

  -- `value is not None and not _references_known_id(value, known_ids)`
  unfoldable pub optional_reference : List ℤ → String → Json F → Outcome (Option ℤ)
  unfolding is_known
  optional_reference ids text null = accept none
  optional_reference ids text (int i) = if is_known ids i then accept (some i) else refuse text
  optional_reference ids text _ = refuse text

module _ (lib : Platform) where
  open lib use {Float}

  -- `value < minimum` for a bound that is given.
  unfoldable pub below : Float → Option Float → Bool
  below value none = false
  below value (some minimum) = lib.lt_float value minimum

  unfoldable pub above : Float → Option Float → Bool
  above value none = false
  above value (some maximum) = lib.lt_float maximum value

  -- `parse_finite_number` for a float.
  unfoldable pub in_bounds : Option Float → Option Float → Float → Option Float
  unfolding below above
  in_bounds minimum maximum value =
      if not (lib.is_finite value)
      then none
      else if below value minimum
      then none
      else if above value maximum
      then none
      else some value

  -- `none` is the `OverflowError` of `float(value)`.
  unfoldable pub parse_finite_number :
      Option Float → Option Float → Json Float → Option (Option Float)
  unfolding in_bounds
  parse_finite_number minimum maximum (int i) = elim (lib.float_of_int i) [
    | none ↦ none
    | some value ↦ some (in_bounds minimum maximum value)
  ]
  parse_finite_number minimum maximum (real value) = some (in_bounds minimum maximum value)
  parse_finite_number minimum maximum _ = some none

  -- A number that is refused when the parser returns `None`.
  unfoldable pub number : Option Float → Option Float → String → Json Float → Outcome Float
  unfolding parse_finite_number
  number minimum maximum text value = elim (parse_finite_number minimum maximum value) [
    | none ↦ raise
    | some none ↦ refuse text
    | some (some x) ↦ accept x
  ]

  -- `rate is None or rate <= 0`
  unfoldable pub positive : String → Json Float → Outcome Float
  unfolding number
  positive text value = elim (number none none text value) [
    | raise ↦ raise
    | refuse t ↦ refuse t
    | accept x ↦ if lib.le_float x (lib.literal (pos 0)) then refuse text else accept x
  ]

  -- `_parse_datetime(value)`: the instant.
  unfoldable pub parse_datetime : String → Json Float → Outcome ℕ
  parse_datetime text (str s) = elim (lib.datetime_fromisoformat s) [
    | none ↦ refuse text
    | some (t, aware) ↦ if aware then accept t else refuse text
  ]
  parse_datetime text _ = refuse text

  -- `_parse_date(value)`
  unfoldable pub parse_date : String → Json Float → Outcome lib.Date
  parse_date text (str s) = elim (lib.date_fromisoformat s) [
    | none ↦ refuse text
    | some d ↦ accept d
  ]
  parse_date text _ = refuse text

  -- `_parse_amount(value)`
  unfoldable pub parse_amount : String → Json Float → Outcome lib.Decimal
  parse_amount text (str s) = elim (lib.decimal s) [
    | none ↦ refuse text
    | some raw ↦
        if not (lib.is_finite_decimal raw)
          || lib.le_decimal raw lib.decimal_0
          || not (lib.le_decimal raw lib.decimal_max)
        then refuse text
        else if lib.eq_decimal (lib.quantize raw) raw
        then accept (lib.quantize raw)
        else refuse text
  ]
  parse_amount text _ = refuse text
