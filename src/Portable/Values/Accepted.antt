-- ===== src/Portable/Values/Accepted.antt =====
-- What the checks of single values accept.
use odograph.Prelude.{Option-cases, inl, inr, ◌≡◌, true, false, Option, none, some, List, arith}
use Prim.Native.String.{String}
use odograph.Portable.Json.{ℤ, Json, null, int, real}
use odograph.Portable.Platform.{Platform}
use odograph.Portable.Rows.{accept}
use odograph.Portable.Values.{
  reference, optional_reference, is_known, in_bounds, below, parse_finite_number, number,
}
use odograph.Portable.Values.Ids.{Resolves}

module _ {F : Type 0} (ids : List ℤ) (text : String) where
  pub reference-known :
      (value : Json F) (i : ℤ) → reference ids text value ≡ accept i → is_known ids i ≡ true
  unfolding reference
  reference-known (int j) i h = ground arith
  reference-known value i h = absurd (ground arith)

  pub optional_reference-Resolves :
      (value : Json F) (r : Option ℤ)
      → optional_reference ids text value ≡ accept r
      → Resolves ids r
  unfolding optional_reference
  optional_reference-Resolves value none h = tt
  optional_reference-Resolves null (some i) h = absurd (ground arith)
  optional_reference-Resolves (int j) (some i) h = ground arith
  optional_reference-Resolves value (some i) h = absurd (ground arith)

module _ (lib : Platform) where
  open lib use {Float}

  -- A number is finite and within the bounds.
  abbrev pub IsBounded : Option Float → Option Float → Float → Type 0
  IsBounded minimum maximum x = in_bounds lib minimum maximum x ≡ some x

  pub in_bounds-finite :
      (minimum maximum : Option Float) (y x : Float)
      → in_bounds lib minimum maximum y ≡ some x
      → (lib.is_finite x ≡ true) × (below lib x minimum ≡ false)
  unfolding in_bounds
  in_bounds-finite minimum maximum y x h = ground arith

  parsed_number :
      (minimum maximum : Option Float) (text : String) (value : Json Float) (x : Float)
      → number lib minimum maximum text value ≡ accept x
      → parse_finite_number lib minimum maximum value ≡ some (some x)
  unfolding number
  parsed_number minimum maximum text value x h = ground arith

  parsed-finite :
      (minimum maximum : Option Float) (value : Json Float) (x : Float)
      → parse_finite_number lib minimum maximum value ≡ some (some x)
      → (lib.is_finite x ≡ true) × (below lib x minimum ≡ false)
  unfolding parse_finite_number
  parsed-finite minimum maximum (int i) x h = elim (Option-cases (lib.float_of_int i)) [
    | inl e ↦ absurd (ground arith)
    | inr (y, e) ↦ in_bounds-finite minimum maximum y x (ground arith)
  ]
  parsed-finite minimum maximum (real y) x h = in_bounds-finite minimum maximum y x (ground arith)
  parsed-finite minimum maximum value x h = absurd (ground arith)

  -- An accepted number is finite and not below the bound.
  pub number-finite :
      (minimum maximum : Option Float) (text : String) (value : Json Float) (x : Float)
      → number lib minimum maximum text value ≡ accept x
      → (lib.is_finite x ≡ true) × (below lib x minimum ≡ false)
  number-finite minimum maximum text value x h =
      parsed-finite minimum maximum value x (parsed_number minimum maximum text value x h)
