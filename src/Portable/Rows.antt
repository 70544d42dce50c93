-- ===== src/Portable/Rows.antt =====
-- `_each_row` of app/portable/normalize.py and the loop that a list of the bundle is read by.
pub mod Counts
use odograph.Prelude.{
  ℕ, suc, ◌≡◌, refl, arith, ◌+◌, Bool, true, false, Option, none, some, List, [], ◌∷◌, ◌++◌,
  if◌then◌else◌,
}
use Prim.Native.String.{String, ◌++◌ as append}
use odograph.Portable.Json.{
  Json, Items, Fields, null, boolean, int, real, str, array, object, nil, cons, empty, field,
}

-- An issue about the bundle, or about one row of a list of it. The text is what stands behind the
-- list's name and the row's index; the values that the messages quote are left out.
pub data Issue : Type 0 where
  bundle_issue : String → Issue
  row_issue : String → ℕ → String → Issue

-- What a row comes to: it is appended to the output, an issue is recorded and the loop goes on, or
-- an exception leaves the function. In every row function each `continue` follows an issue that is
-- appended.
pub data Outcome {ℓ} (A : Type ℓ) : Type ℓ where
  accept : A → Outcome A
  refuse : String → Outcome A
  raise : Outcome A

infixl 5 ◌>>=◌ ◌>>◌
abbrev pub ◌>>=◌ {ℓ κ} : {A : Type ℓ} {B : Type κ} → Outcome A → (A → Outcome B) → Outcome B
accept a >>= f = f a
refuse t >>= f = refuse t
raise >>= f = raise

abbrev pub ◌>>◌ {ℓ} : {B : Type ℓ} → Outcome (Unit {0}) → Outcome B → Outcome B
m >> k = m >>= λ _. k

-- What an accepted bind is made of.
pub accept-bind {ℓ κ} :
    {A : Type ℓ} {B : Type κ} (m : Outcome A) (f : A → Outcome B) (b : B)
    → (m >>= f) ≡ accept b
    → (a : A) × (m ≡ accept a) × (f a ≡ accept b)
accept-bind (accept a) f b h = (a, refl, h)
accept-bind (refuse t) f b h = absurd (ground arith)
accept-bind raise f b h = absurd (ground arith)

-- `if condition: issues.append(text); continue`
abbrev pub refuse_if : Bool → String → Outcome (Unit {0})
refuse_if true t = refuse t
refuse_if false t = accept tt

-- The accepted rows and the issues so far. Each set of seen keys is filled where a row is
-- appended, so it is read off the accepted rows.
pub record Progress {ℓ} (A : Type ℓ) : Type ℓ where
  pub out : List A
  pub issues : List Issue

module _ {ℓ} {A : Type ℓ} {F : Type 0} (list_name : String)
    (normalize_row : List A → Fields F → Outcome A) where
  -- What follows from the outcome of the row with index `i`.
  unfoldable pub step : ℕ → Outcome A → Progress A → Option (Progress A)
  step i (accept a) p = some (record p { out = p.out ++ a ∷ [] })
  step i (refuse t) p = some (record p { issues = p.issues ++ row_issue list_name i t ∷ [] })
  step i raise p = none

  unfoldable pub row_outcome : List A → Json F → Outcome A
  row_outcome out (object row) = normalize_row out row
  row_outcome out _ = refuse " must be an object"

  -- The loop over the rows from index `i` on; `none` is an exception.
  unfoldable pub rows_loop : ℕ → Items F → Progress A → Option (Progress A)
  rows_loop i nil p = some p
  rows_loop i (cons row rows) p = elim (step i (row_outcome p.out row) p) [
    | none ↦ none
    | some p' ↦ rows_loop (i + 1) rows p'
  ]

  unfoldable pub each_row : Json F → List Issue → Option (Progress A)
  each_row (array rows) issues = rows_loop 0 rows (record { out = []; issues = issues })
  each_row _ issues = some (record {
    out = [];
    issues = issues ++ bundle_issue (append list_name " must be a list") ∷ [];
  })
