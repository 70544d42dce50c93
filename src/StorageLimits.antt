-- ===== src/StorageLimits.antt =====
-- app/storage_limits.py: sizes that an administrator enters, and the checks around the call that
-- stores one. A GiB value with two places is a number of hundredths. What the database does is a
-- function from the statement's arguments to a reply.
pub mod Sizes
mod Tests
use odograph.Prelude.{
  ℕ, zero, suc, ◌+◌, ◌-◌, ◌*◌, ◌/◌, ◌%◌, ◌^◌, ◌≤◌, ◌<◌, min, max, ◌≡◌, refl, sym, ap, ◌∙◌, ◌≢◌, ◌↔◌,
  ◌⊎◌, inl, inr, Bool, true, false, ◌&&◌, ◌||◌, not, Option, none, some, List, [], ◌∷◌, ◌++◌, map,
  arith, ltb, leb, ◌==◌, if◌then◌else◌, ltb→lt, lt→ltb, leb→le, ==_iff, tests, Bool-cases,
  Option-cases, length, get_elem?, get_or, any, all, keep, elem, All, All-append, All-imp,
  length-append, any-append, All-keep, keep-passes, sorted, IsSorted, IsOrder, any-sorted,
  All-sorted, sorted-perm, sorted-IsSorted,
}
use text.Mathlib.Text.{◌==◌ as str_eq}
use Prim.Native.String.{String, [] as no_text, ◌∷◌ as char_cons}
use Prim.Native.Char.{Char, code}
use odograph.Prelude.Int.{ℤ, pos, negsuc}
use odograph.Portable.Json.{Json, Fields, boolean, int, get}

abbrev pub gib : ℕ
gib = 2 ^ 30

-- `int(Decimal("0.01") * GIB)`
abbrev pub min_custom_limit_bytes : ℕ
min_custom_limit_bytes = gib / 100

abbrev pub max_bigint : ℕ
max_bigint = 2 ^ 63 - 1

abbrev pub limit_modes : List String
limit_modes = "default" ∷ "custom" ∷ "unlimited" ∷ []

pub is_digit : Char → Bool
is_digit c = leb 48 (code c) && leb (code c) 57

pub digit : Char → ℕ
digit c = code c - 48

-- The optional `\.[0-9]{1,2}` behind the point; `whole` is what stands in front of it.
pub read_fraction : ℕ → String → Option ℕ
unfolding is_digit digit
read_fraction whole (char_cons c no_text) =
    if is_digit c then some (whole * 100 + digit c * 10) else none
read_fraction whole (char_cons c (char_cons d no_text)) =
    if is_digit c && is_digit d then some (whole * 100 + digit c * 10 + digit d) else none
read_fraction whole _ = none

-- `[0-9]{1,9}` with `left` digits more to come at most, and `seen` whether there was one.
pub read_whole : ℕ → Bool → ℕ → String → Option ℕ
unfolding read_fraction
read_whole left seen whole no_text = if seen then some (whole * 100) else none
read_whole zero seen whole (char_cons c s) =
    if not (is_digit c) && (code c == 46 && seen) then read_fraction whole s else none
read_whole (suc left) seen whole (char_cons c s) =
    let more = read_whole left true (whole * 10 + digit c) s in
    if is_digit c then more else if code c == 46 && seen then read_fraction whole s else none

-- `_GIB_RE.fullmatch(value)` and `Decimal(value)`: the hundredths of the entry.
unfoldable pub read_gib : String → Option ℕ
unfolding read_whole
read_gib value = read_whole 9 false 0 value

-- `int(gib * GIB)`
unfoldable pub bytes_of : ℕ → ℕ
bytes_of hundredths = hundredths * gib / 100

unfoldable pub parse_custom_gib : String → Option ℕ
unfolding read_gib bytes_of
parse_custom_gib value = elim (read_gib value) [
  | none ↦ none
  | some hundredths ↦ if ltb hundredths 1 then none else some (bytes_of hundredths)
]

-- The quotient of a negative number is negative, so 0 is the larger one.
unfoldable pub max_custom_gib : ℤ → ℕ
max_custom_gib (pos fundable_bytes) = ((fundable_bytes + 1) * 100 - 1) / gib
max_custom_gib (negsuc n) = 0

-- The nearest hundredth, a tie to the even one. The quotient that the source rounds first, to 28
-- digits, is exact to more places than a byte count below 2 ** 63 can come near a tie by.
unfoldable pub limit_gib : ℕ → ℕ
limit_gib limit_bytes =
    let quotient = limit_bytes * 100 / gib in
    let rest = limit_bytes * 100 % gib in
    if ltb (2 * rest) gib
    then quotient
    else if 2 * rest == gib
    then (if quotient % 2 == 0 then quotient else quotient + 1)
    else quotient + 1

-- `type(value) is int and 1 <= value <= 2**63 - 1`
unfoldable pub id_in_range : {F : Type 0} → Json F → Option ℕ
id_in_range (int (pos n)) = if leb 1 n && leb n max_bigint then some n else none
id_in_range _ = none

abbrev is_true : {F : Type 0} → Json F → Bool
is_true (boolean b) = b
is_true _ = false

-- `none` is `StorageLimitUnavailable`.
unfoldable pub admin_identity : {F : Type 0} → Fields F → Option (ℕ × ℕ)
unfolding id_in_range
admin_identity admin_user =
    if is_true (get admin_user "is_admin") && is_true (get admin_user "is_enabled")
    then (elim (id_in_range (get admin_user "id")) [
      | none ↦ none
      | some actor ↦ elim (id_in_range (get admin_user "auth_version")) [
        | none ↦ none
        | some version ↦ some (actor, version)
      ]
    ])
    else none

-- What the statements come to: the function's answer, or a database error by its state and
-- whether `is_storage_capacity_error` holds of it.
pub data Reply : Type 0 where
  answered : String → Reply
  failed : (sqlstate : Option String) (over_capacity : Bool) → Reply

-- What is returned, or the exception.
pub data LimitResult : Type 0 where
  changed unchanged unavailable busy unfunded : LimitResult

abbrev is_some {ℓ} : {A : Type ℓ} → Option A → Bool
is_some none = false
is_some (some a) = true

unfoldable pub is_valid_limit : ℤ → String → Option ℕ → Bool
is_valid_limit target mode account_bytes =
    is_id target
    && any (str_eq mode) limit_modes
    && same (str_eq mode "custom") (is_some account_bytes)
    && in_range account_bytes
  where
    is_id : ℤ → Bool
    is_id (pos n) = leb 1 n && leb n max_bigint
    is_id (negsuc n) = false

    same : Bool → Bool → Bool
    same a b = (a && b) || (not a && not b)

    in_range : Option ℕ → Bool
    in_range none = true
    in_range (some bytes) = leb min_custom_limit_bytes bytes && leb bytes max_bigint

-- `exc.sqlstate in _BUSY_SQLSTATES`
unfoldable pub is_busy : Option String → Bool
is_busy none = false
is_busy (some state) = str_eq state "55P03" || str_eq state "40P01"

unfoldable pub result_of : Reply → LimitResult
unfolding is_busy
result_of (answered outcome) =
    if str_eq outcome "changed"
    then changed
    else if str_eq outcome "unchanged"
    then unchanged
    else unavailable
result_of (failed sqlstate over_capacity) =
    if is_busy sqlstate then busy else if over_capacity then unfunded else unavailable

-- A row of `storage_list_account_grants`, and what is made of it.
pub record AccountGrant : Type 0 where
  pub account_id : ℕ
  pub is_admin : Bool
  pub limit_mode : String
  pub account_limit_bytes : Option ℕ
  pub default_limit_bytes : ℕ
  pub used_bytes : ℕ
  pub fundable_bytes : ℤ

pub data ListReply : Type 0 where
  listed : List AccountGrant → ListReply
  list_failed : (sqlstate : Option String) → ListReply

abbrev grants_of : ListReply → LimitResult ⊎ List AccountGrant
unfolding is_busy
grants_of (listed rows) = inr rows
grants_of (list_failed sqlstate) = if is_busy sqlstate then inl busy else inl unavailable

module _ {F : Type 0} (storage_list_account_grants : ℕ × ℕ → ListReply) where
  -- The grants by their account's id, which stands in each.
  unfoldable pub list_account_storage : Fields F → LimitResult ⊎ List AccountGrant
  unfolding admin_identity is_busy
  list_account_storage admin_user = elim (admin_identity admin_user) [
    | none ↦ inl unavailable
    | some actor ↦ grants_of (storage_list_account_grants actor)
  ]

module _ {F : Type 0} (storage_set_account_grant : ℕ × ℕ → ℤ → String → Option ℕ → Reply) where
  unfoldable pub set_account_storage_limit : Fields F → ℤ → String → Option ℕ → LimitResult
  unfolding admin_identity is_valid_limit result_of
  set_account_storage_limit admin_user target mode account_bytes =
      elim (admin_identity admin_user) [
        | none ↦ unavailable
        | some actor ↦
            if is_valid_limit target mode account_bytes
            then result_of (storage_set_account_grant actor target mode account_bytes)
            else unavailable
      ]
