-- ===== src/Vehicles/Sound.antt =====
-- Of all the calls: other accounts keep their default, and the table stays sound.
use odograph.Prelude.{
  ℕ, ◌+◌, ◌≤◌, ◌≡◌, refl, sym, ◌∙◌, inl, inr, Bool, true, false, not, List, [], ◌∷◌, arith, ◌==◌,
  ==_iff, Bool-cases, length, keep, All,
}
use mathlib.Core.Path.{subst}
use odograph.Vehicles.{
  Table, done, defaults, clear_default, has_active, update_rows, update_vehicle, retire,
  deactivate_vehicle,
}
use odograph.Vehicles.Defaults.{
  Ascends, IsUsable, defaults-clear_default, defaults-clear_default_other,
  defaults-flag_default_other, defaults-update_rows, defaults-retire, defaults-retire_other,
  has_active-clear_default,
}
use odograph.Vehicles.Rows.{
  Ascends-append_row, IsUsable-append_row, IsUsable-clear_default, retire-lem, update_rows-lem,
  flag_default-lem,
}
use odograph.Vehicles.Default.{
  IsSound, Call, creates, updates, sets_default, deactivates, run, default_of, new_row, rows_with,
  rows_flagged, create_vehicle-done, set_default_vehicle-done, set_default_vehicle-not_found,
  defaults-rows_flagged, clear_default-Ascends, defaults-new_row, defaults-new_row-false,
  defaults-new_row_other,
}

-- The table that a call leaves.
abbrev table_after : ℕ → Call → Table → Table
table_after a (creates d b) t = record { rows = rows_with a t d b; next_id = t.next_id + 1 }
table_after a (updates id d) t = record t { rows = update_rows a id d t.rows }
table_after a (sets_default id) t = record t { rows = rows_flagged a t id }
table_after a (deactivates id) t = record t { rows = retire a id t.rows }

abbrev IsAllowed : ℕ → Call → Table → Type 0
IsAllowed a (creates d b) t = Unit
IsAllowed a (updates id d) t = Unit
IsAllowed a (sets_default id) t = has_active a id t.rows ≡ true
IsAllowed a (deactivates id) t = Unit

run-done :
    (a : ℕ) (c : Call) (t t' : Table)
    → IsSound t
    → run a c t ≡ done t'
    → (table_after a c t ≡ t') × IsAllowed a c t
unfolding update_vehicle deactivate_vehicle
run-done a (creates d b) t t' s e =
    let same = create_vehicle-done a t d b s in (ground (arith, same, e), tt)
run-done a (updates id d) t t' s e = (ground (arith, e), tt)
run-done a (sets_default id) t t' s e = elim (Bool-cases (has_active a id t.rows)) [
  | inl h ↦ (ground (arith, e, set_default_vehicle-done a t id s h), h)
  | inr h ↦ absurd (ground (arith, e, set_default_vehicle-not_found a t id h))
]
run-done a (deactivates id) t t' s e = (ground (arith, e), tt)

defaults_other :
    (a b : ℕ) (c : Call) (t : Table)
    → (b == a) ≡ false
    → defaults b (table_after a c t).rows ≡ defaults b t.rows
defaults_other a b (creates d true) t h =
    defaults-new_row_other a b t.next_id d true (clear_default a t.rows) h
    ∙ defaults-clear_default_other a b t.rows h
defaults_other a b (creates d false) t h = defaults-new_row_other a b t.next_id d false t.rows h
defaults_other a b (updates id d) t h = defaults-update_rows a b id d t.rows
defaults_other a b (sets_default id) t h =
    defaults-flag_default_other a b id (clear_default a t.rows) h
    ∙ defaults-clear_default_other a b t.rows h
defaults_other a b (deactivates id) t h = defaults-retire_other a b id t.rows h

-- No call of one account changes another account's default.
pub run_isolated :
    (a b : ℕ) (c : Call) (t t' : Table)
    → (b == a) ≡ false
    → IsSound t
    → run a c t ≡ done t'
    → default_of b t'.rows ≡ default_of b t.rows
run_isolated a b c t t' h s e =
    subst (λ u. default_of b u.rows ≡ default_of b t.rows) (run-done a c t t' s e).0
      (rw (defaults_other a b c t h) refl)

keep_shorter : (p : ℕ → Bool) (ids : List ℕ) → length (keep p ids) ≤ length ids
keep_shorter p [] = omega arith
keep_shorter p (id ∷ ids) = ground (arith, keep_shorter p ids)

one_own :
    (a : ℕ) (c : Call) (t : Table)
    → IsSound t
    → IsAllowed a c t
    → length (defaults a (table_after a c t).rows) ≤ 1
one_own a (creates d true) t s h =
    rw (defaults-new_row a t.next_id d (clear_default a t.rows), defaults-clear_default a t.rows)
      (omega arith)
one_own a (creates d false) t s h = rw (defaults-new_row-false a a t.next_id d t.rows) (s.one a)
one_own a (updates id d) t s h = rw (defaults-update_rows a a id d t.rows) (s.one a)
one_own a (sets_default id) t s h = rw (defaults-rows_flagged a t id s h) (omega arith)
one_own a (deactivates id) t s h =
    rw (defaults-retire a id t.rows)
      (omega (arith, keep_shorter (λ d. not (d == id)) (defaults a t.rows), s.one a))

rows_after-lem :
    (a : ℕ) (c : Call) (t : Table)
    → IsSound t
    → IsAllowed a c t
    → Ascends 0 (table_after a c t).next_id (table_after a c t).rows
      × All IsUsable (table_after a c t).rows
rows_after-lem a (creates d true) t s h =
    let cleared = clear_default-Ascends a 0 t.next_id t.rows s.key in
    (
      Ascends-append_row 0 t.next_id (clear_default a t.rows) (new_row a t.next_id d true) refl
          cleared,
      IsUsable-append_row a t.next_id d true (clear_default a t.rows)
          (IsUsable-clear_default a t.rows s.usable),
    )
rows_after-lem a (creates d false) t s h = (
  Ascends-append_row 0 t.next_id t.rows (new_row a t.next_id d false) refl s.key,
  IsUsable-append_row a t.next_id d false t.rows s.usable,
)
rows_after-lem a (updates id d) t s h = update_rows-lem a id 0 t.next_id d t.rows s.key s.usable
rows_after-lem a (sets_default id) t s h =
    flag_default-lem a id 0 t.next_id (clear_default a t.rows)
      (clear_default-Ascends a 0 t.next_id t.rows s.key) (IsUsable-clear_default a t.rows s.usable)
      (has_active-clear_default a id t.rows ∙ h)
rows_after-lem a (deactivates id) t s h = retire-lem a id 0 t.next_id t.rows s.key s.usable

-- Every call that succeeds on a sound table leaves a sound table: ids stay unique and below the
-- next one, each account has one default at most, and no default is retired.
pub run-IsSound : (a : ℕ) (c : Call) (t t' : Table) → IsSound t → run a c t ≡ done t' → IsSound t'
run-IsSound a c t t' s e =
    let (same, h) = run-done a c t t' s e in
    let (key, usable) = rows_after-lem a c t s h in
    subst IsSound same (record {
      key = key;
      one = λ b. elim (Bool-cases (b == a)) [
        | inl own ↦
            subst (λ x. length (defaults x (table_after a c t).rows) ≤ 1) (sym ((==_iff b a).0 own))
              (one_own a c t s h)
        | inr other ↦ rw (defaults_other a b c t other) (s.one b)
      ];
      usable = usable;
    })
