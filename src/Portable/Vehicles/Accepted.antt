-- ===== src/Portable/Vehicles/Accepted.antt =====
-- What the accepted vehicles satisfy.
use odograph.Prelude.{
  ◌<◌, Option-cases, length-append, ltb, ◌≤◌, ◌≡◌, refl, sym, ap, ◌∙◌, inl, inr, true, false, none,
  some, List, [], ◌∷◌, ◌++◌, arith, Bool-cases, All, All-append, length,
}
use mathlib.Core.Path.{subst}
use odograph.Portable.Json.{Json, Fields, array, nil, cons}
use odograph.Portable.Rows.{Issue, bundle_issue, accept, Progress, each_row}
use odograph.Portable.Rows.Counts.{each_row-Inv, each_row_clean, count_rows, items_of}
use odograph.Portable.Values.{strip, is_blank, is_known}
use odograph.Portable.Values.Ids.{AreDistinct, AreDistinct-append}
use odograph.Portable.Vehicles.{
  VehicleRow, vehicle_ids, vehicle_row, default_count, check_defaults, normalize_vehicles,
}

module _ {F : Type 0} where
  vehicle_row-accept :
      (out : List VehicleRow) (row : Fields F) (v : VehicleRow)
      → vehicle_row out row ≡ accept v
      → (is_known (vehicle_ids out) v.id ≡ false) × (is_blank (strip v.name) ≡ false)
  unfolding vehicle_row
  vehicle_row-accept out row v h = ground arith

-- The vehicles have distinct ids and names that are not blank.
pub record AreVehicles (out : List VehicleRow) : Type 0 where
  pub distinct : AreDistinct (vehicle_ids out)
  pub named : All {_, 0} (λ v. is_blank (strip v.name) ≡ false) out

map-append :
    (xs : List VehicleRow) (v : VehicleRow)
    → vehicle_ids (xs ++ v ∷ []) ≡ vehicle_ids xs ++ v.id ∷ []
unfolding vehicle_ids
map-append [] v = refl
map-append (x ∷ xs) v = ap (◌∷◌ x.id) (map-append xs v)

AreVehicles-append :
    (out : List VehicleRow) (v : VehicleRow)
    → is_known (vehicle_ids out) v.id ≡ false
    → is_blank (strip v.name) ≡ false
    → AreVehicles out
    → AreVehicles (out ++ v ∷ [])
AreVehicles-append out v fresh named a = record {
  distinct = rw map-append (AreDistinct-append (vehicle_ids out) v.id a.distinct fresh);
  named = All-append _ out (v ∷ []) a.named (named, tt);
}

check_defaults_out : (p : Progress VehicleRow) → (check_defaults p).out ≡ p.out
unfolding check_defaults
check_defaults_out p = ground arith

check_defaults_bound :
    (p : Progress VehicleRow)
    → length (check_defaults p).issues ≡ 0
    → (default_count p.out ≤ 1) × (length p.issues ≡ 0)
unfolding check_defaults
check_defaults_bound p h = elim (Bool-cases (ltb 1 (default_count p.out))) [
  | inl many ↦ absurd (
      let more =
        length-append p.issues
          (bundle_issue "vehicles: at most one vehicle may have is_default true" ∷ []) in
      omega (arith, more, the_issues many))
  | inr few ↦ (ground arith, ground arith)
]
  where
    the_issues :
        ltb 1 (default_count p.out) ≡ true
        → length
            (p.issues ++ bundle_issue "vehicles: at most one vehicle may have is_default true" ∷ [])
          ≡ 0
    the_issues many = ground arith

module _ {F : Type 0} where
  -- The list is read before the defaults are counted.
  checked_rows :
      (raw : Json F) (issues : List Issue) (p : Progress VehicleRow)
      → elim (each_row "vehicles" vehicle_row raw issues) [
        | none ↦ none
        | some q ↦ some (check_defaults q)
      ]
        ≡ some p
      → (q : Progress VehicleRow) × (each_row "vehicles" vehicle_row raw issues ≡ some q)
        × (check_defaults q ≡ p)
  checked_rows raw issues p h = elim (Option-cases (each_row "vehicles" vehicle_row raw issues)) [
    | inl e ↦ absurd (ground arith)
    | inr (q, e) ↦ (q, e, ground arith)
  ]

  rows-AreVehicles :
      (raw : Json F) (issues : List Issue) (p : Progress VehicleRow)
      → each_row "vehicles" vehicle_row raw issues ≡ some p
      → AreVehicles p.out
  unfolding vehicle_ids
  rows-AreVehicles raw issues p h =
      each_row-Inv "vehicles" vehicle_row AreVehicles
        (λ out row v e a.
          AreVehicles-append out v (vehicle_row-accept out row v e).0
            (vehicle_row-accept out row v e).1 a)
        raw issues p h (record { distinct = tt; named = tt })

  -- The vehicles that are accepted have distinct ids and names that are not blank.
  pub normalize_vehicles-AreVehicles :
      (raw : Json F) (issues : List Issue) (p : Progress VehicleRow)
      → normalize_vehicles raw issues ≡ some p
      → AreVehicles p.out
  unfolding normalize_vehicles vehicle_ids
  normalize_vehicles-AreVehicles (array nil) issues p h =
      let same : record {
        out = [];
        issues = issues ++ bundle_issue "vehicles must contain at least one vehicle" ∷ [];
      }
          ≡ p =
        ground arith in
      subst (λ (q : Progress VehicleRow). AreVehicles q.out) same
        (record { distinct = tt; named = tt })
  normalize_vehicles-AreVehicles raw issues p h =
      let (q, e, same) = checked_rows _ issues p h in
      subst (λ (q : Progress VehicleRow). AreVehicles q.out) same
        (rw check_defaults_out (rows-AreVehicles _ issues q e))

  checked_clean :
      (raw : Json F) (issues : List Issue) (p q : Progress VehicleRow)
      → each_row "vehicles" vehicle_row raw issues ≡ some q
      → check_defaults q ≡ p
      → length p.issues ≡ 0
      → (length p.out ≡ count_rows (items_of raw)) × (default_count p.out ≤ 1) × (length issues ≡ 0)
  checked_clean raw issues p q e same c =
      let bound =
        check_defaults_bound q
          (subst (λ (r : Progress VehicleRow). length r.issues ≡ 0) (sym same) c) in
      let rows = each_row_clean "vehicles" vehicle_row raw issues q e bound.1 in
      let out : q.out ≡ p.out =
        sym (check_defaults_out q) ∙ ap (λ (r : Progress VehicleRow). r.out) same in
      (ap length (sym out) ∙ rows.2, subst (λ vs. default_count vs ≤ 1) out bound.0, rows.0)

  -- Without an issue there are vehicles, each of the list is accepted, at most one of them is the
  -- default, and no issue was there before.
  pub normalize_vehicles_clean :
      (raw : Json F) (issues : List Issue) (p : Progress VehicleRow)
      → normalize_vehicles raw issues ≡ some p
      → length p.issues ≡ 0
      → (length p.out ≡ count_rows (items_of raw))
        × (0 < length p.out)
        × (default_count p.out ≤ 1)
        × (length issues ≡ 0)
  unfolding normalize_vehicles
  normalize_vehicles_clean (array nil) issues p h c =
      let same : record {
        out = [];
        issues = issues ++ bundle_issue "vehicles must contain at least one vehicle" ∷ [];
      }
          ≡ p =
        ground arith in
      let more =
        length-append issues (bundle_issue "vehicles must contain at least one vehicle" ∷ []) in
      let size : length (issues ++ bundle_issue "vehicles must contain at least one vehicle" ∷ [])
          ≡ 0 =
        ap (λ (q : Progress VehicleRow). length q.issues) same ∙ c in
      absurd (omega (arith, more, size))
  normalize_vehicles_clean (array (cons row rows)) issues p h c =
      let (q, e, same) = checked_rows _ issues p h in
      let (all, one, before) = checked_clean (array (cons row rows)) issues p q e same c in
      (all, omega (arith, all), one, before)
  normalize_vehicles_clean raw issues p h c =
      let (q, e, same) = checked_rows _ issues p h in
      let bound =
        check_defaults_bound q
          (subst (λ (r : Progress VehicleRow). length r.issues ≡ 0) (sym same) c) in
      let rows = each_row_clean "vehicles" vehicle_row _ issues q e bound.1 in
      absurd (ground (arith, rows.1))
