-- ===== src/Portable/Json.antt =====
-- What `json.loads` returns, and the look-ups of app/portable/normalize.py in it.
pub use odograph.Prelude.Int.{ℤ, pos, negsuc}
unfoldable pub use odograph.Prelude.Int.{eq_int}
use odograph.Prelude.{Bool, true, false, List, if◌then◌else◌, any}
use text.Mathlib.Text.{◌==◌ as str_eq}
use Prim.Native.String.{String}

-- A dict keeps each key once; its fields are in order.
mutual
  pub data Json (F : Type 0) : Type 0 where
    null : Json F
    boolean : Bool → Json F
    int : ℤ → Json F
    real : F → Json F
    str : String → Json F
    array : Items F → Json F
    object : Fields F → Json F

  pub data Items (F : Type 0) : Type 0 where
    nil : Items F
    cons : Json F → Items F → Items F

  pub data Fields (F : Type 0) : Type 0 where
    empty : Fields F
    field : String → Json F → Fields F → Fields F

module _ {F : Type 0} where
  -- `row.get(key, default)`
  unfoldable pub get_default : Fields F → String → Json F → Json F
  get_default empty key default = default
  get_default (field k v fs) key default =
      let rest = get_default fs key default in if str_eq k key then v else rest

  -- `row.get(key)`
  unfoldable pub get : Fields F → String → Json F
  unfolding get_default
  get row key = get_default row key null

  -- `value is None`
  abbrev pub is_none : Json F → Bool
  is_none null = true
  is_none _ = false

  -- `value in choices`, for a tuple of strings.
  unfoldable pub is_one_of : List String → Json F → Bool
  is_one_of choices (str s) = any (λ c. str_eq s c) choices
  is_one_of choices _ = false
