-- ===== src/Portable/Places/Accepted.antt =====
-- What the accepted places and tag rules satisfy.
use odograph.Prelude.{
  ◌≡◌, refl, ap, true, false, ◌||◌, some, List, [], ◌∷◌, ◌++◌, arith, any, All, All-append,
}
use text.Mathlib.Text.{◌==◌ as str_eq}
use odograph.Portable.Json.{ℤ, Json, Fields, get}
use odograph.Portable.Platform.{Platform}
use odograph.Portable.Rows.{Issue, accept, Progress}
use odograph.Portable.Rows.Counts.{each_row-Inv}
use odograph.Portable.Values.{is_known, optional_reference}
use odograph.Portable.Values.Ids.{AreDistinct, AreDistinct-append, Resolves}
use odograph.Portable.Values.Accepted.{optional_reference-Resolves}
use odograph.Portable.Places.{
  is_some, PlaceRow, place_ids, place_row, normalize_places, TagRule, tag_rule_row,
  normalize_tag_rules,
}

module _ (lib : Platform) where
  open lib use {Float}

  place_row-accept :
      (out : List (PlaceRow Float)) (row : Fields Float) (q : PlaceRow Float)
      → place_row lib out row ≡ accept q
      → (is_known (place_ids out) q.id ≡ false) × (any (λ p. str_eq q.name p.name) out ≡ false)
  unfolding place_row
  place_row-accept out row q h = ground arith

  ids-append :
      (xs : List (PlaceRow Float)) (t : PlaceRow Float)
      → place_ids (xs ++ t ∷ []) ≡ place_ids xs ++ t.id ∷ []
  unfolding place_ids
  ids-append [] t = refl
  ids-append (x ∷ xs) t = ap (◌∷◌ x.id) (ids-append xs t)

  -- The accepted places have distinct ids.
  pub normalize_places-AreDistinct :
      (raw : Json Float) (issues : List Issue) (p : Progress (PlaceRow Float))
      → normalize_places lib raw issues ≡ some p
      → AreDistinct (place_ids p.out)
  unfolding normalize_places place_ids
  normalize_places-AreDistinct raw issues p h =
      each_row-Inv "places" (place_row lib) (λ out. AreDistinct (place_ids out))
        (λ out row q e d.
          rw ids-append
            (AreDistinct-append (place_ids out) q.id d (place_row-accept out row q e).0))
        raw issues p h tt

module _ (known_places : List ℤ) where
  -- A tag rule refers to known places, sets at most one of place and kind on a side, and
  -- constrains a side.
  pub record IsTagRule (r : TagRule) : Type 0 where
    pub a_place : Resolves known_places r.a_place
    pub b_place : Resolves known_places r.b_place
    pub constrains :
        (is_some r.a_place || is_some r.a_kind || is_some r.b_place || is_some r.b_kind) ≡ true

module _ {F : Type 0} (known_places : List ℤ) where
  tag_rule_row-accept :
      (out : List TagRule) (row : Fields F) (r : TagRule)
      → tag_rule_row known_places out row ≡ accept r
      → (optional_reference known_places ".a_place references unknown place $id" (get row "a_place")
          ≡ accept r.a_place)
        × (optional_reference known_places ".b_place references unknown place $id"
              (get row "b_place")
            ≡ accept r.b_place)
        × ((is_some r.a_place || is_some r.a_kind || is_some r.b_place || is_some r.b_kind) ≡ true)
  unfolding tag_rule_row
  tag_rule_row-accept out row r h = ground arith

  -- The accepted tag rules refer to known places and constrain a side.
  pub normalize_tag_rules-AllTagRules :
      (raw : Json F) (issues : List Issue) (p : Progress TagRule)
      → normalize_tag_rules known_places raw issues ≡ some p
      → All (IsTagRule known_places) p.out
  unfolding normalize_tag_rules
  normalize_tag_rules-AllTagRules raw issues p h =
      each_row-Inv "tag_rules" (tag_rule_row known_places) (All (IsTagRule known_places))
        (λ out row r e a.
          let (a_ref, b_ref, some_side) = tag_rule_row-accept out row r e in
          All-append (IsTagRule known_places) out (r ∷ []) a (
            record {
              a_place = optional_reference-Resolves known_places _ _ r.a_place a_ref;
              b_place = optional_reference-Resolves known_places _ _ r.b_place b_ref;
              constrains = some_side;
            },
            tt,
          ))
        raw issues p h tt
