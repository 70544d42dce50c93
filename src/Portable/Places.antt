-- ===== src/Portable/Places.antt =====
-- `_normalize_places` and `_normalize_tag_rules` of app/portable/normalize.py.
pub mod Accepted
use odograph.Prelude.{
  ℕ, Bool, true, false, not, ◌&&◌, ◌||◌, Option, none, some, List, [], ◌∷◌, map, any,
}
use text.Mathlib.Text.{◌==◌ as str_eq}
use Prim.Native.String.{String}
use odograph.Portable.Json.{ℤ, pos, negsuc, Json, Fields, int, get, get_default, is_none}
use odograph.Portable.Platform.{Platform}
use odograph.Portable.Rows.{
  Issue, Outcome, accept, refuse, raise, ◌>>=◌, ◌>>◌, refuse_if, Progress, each_row,
}
use odograph.Portable.Values.{
  strip, is_blank, is_known, plain_int, plain_str, choice, optional_choice, optional_reference,
  number, positive,
}

-- `PLACE_KINDS` of app/places_desc.py and `TAG_RULE_CATEGORIES` of app/portable/format.py.
abbrev pub place_kinds : List String
place_kinds = "home" ∷ "work" ∷ "other" ∷ []

abbrev pub tag_rule_categories : List String
tag_rule_categories = "business" ∷ "personal" ∷ []

abbrev pub is_some {ℓ} : {A : Type ℓ} → Option A → Bool
is_some none = false
is_some (some a) = true

pub record PlaceRow (F : Type 0) : Type 0 where
  pub id : ℤ
  pub name : String
  pub kind : String
  pub lat : F
  pub lon : F
  pub radius_m : F

unfoldable pub place_ids : {F : Type 0} → List (PlaceRow F) → List ℤ
place_ids = map (λ p. p.id)

module _ (lib : Platform) where
  open lib use {Float}

  -- The body of the loop over the places.
  unfoldable pub place_row : List (PlaceRow Float) → Fields Float → Outcome (PlaceRow Float)
  unfolding place_ids
  place_row out row = do
    rid ← plain_int ".$id must be an integer" (get row "$id")
    refuse_if (is_known (place_ids out) rid) ".$id is a duplicate"
    name ← plain_str ".name must be a non-empty string" (get row "name")
    refuse_if (is_blank (strip name)) ".name must be a non-empty string"
    refuse_if (any (λ p. str_eq name p.name) out) ".name is a duplicate"
    kind ← choice place_kinds ".kind must be one of PLACE_KINDS" (get row "kind")
    _ ← number lib none none ".lat/lon must be finite numbers" (get row "lat")
    _ ← number lib none none ".lat/lon must be finite numbers" (get row "lon")
    lat ←
        number lib (some (lib.literal (negsuc 89))) (some (lib.literal (pos 90)))
          ".lat must be between -90 and 90" (get row "lat")
    lon ←
        number lib (some (lib.literal (negsuc 179))) (some (lib.literal (pos 180)))
          ".lon must be between -180 and 180" (get row "lon")
    radius_m ←
        positive lib ".radius_m must be a positive number"
          (get_default row "radius_m" (int (pos 150)))
    accept
        (record { id = rid; name = name; kind = kind; lat = lat; lon = lon; radius_m = radius_m })

  unfoldable pub normalize_places : Json Float → List Issue → Option (Progress (PlaceRow Float))
  unfolding place_row
  normalize_places raw issues = each_row "places" place_row raw issues

pub record TagRule : Type 0 where
  pub a_place : Option ℤ
  pub a_kind : Option String
  pub b_place : Option ℤ
  pub b_kind : Option String
  pub category : String

module _ {F : Type 0} (known_places : List ℤ) where
  -- The body of the loop over the tag rules.
  unfoldable pub tag_rule_row : List TagRule → Fields F → Outcome TagRule
  tag_rule_row out row = do
    a_place ←
        optional_reference known_places ".a_place references unknown place $id" (get row "a_place")
    b_place ←
        optional_reference known_places ".b_place references unknown place $id" (get row "b_place")
    refuse_if (is_some a_place && not (is_none (get row "a_kind")))
        " cannot set both a_place and a_kind"
    refuse_if (is_some b_place && not (is_none (get row "b_kind")))
        " cannot set both b_place and b_kind"
    a_kind ←
        optional_choice place_kinds ".a_kind must be one of PLACE_KINDS or null" (get row "a_kind")
    b_kind ←
        optional_choice place_kinds ".b_kind must be one of PLACE_KINDS or null" (get row "b_kind")
    refuse_if (not (is_some a_place || is_some a_kind || is_some b_place || is_some b_kind))
        " must constrain at least one side"
    category ←
        choice tag_rule_categories ".category must be one of TAG_RULE_CATEGORIES"
          (get row "category")
    accept (record {
      a_place = a_place;
      a_kind = a_kind;
      b_place = b_place;
      b_kind = b_kind;
      category = category;
    })

  unfoldable pub normalize_tag_rules : Json F → List Issue → Option (Progress TagRule)
  unfolding tag_rule_row
  normalize_tag_rules raw issues = each_row "tag_rules" tag_rule_row raw issues
