-- ===== src/StorageLimits/Sizes.antt =====
-- Entries read back unchanged, fit the database, and the largest one that can be funded.
use odograph.Prelude.{
  ℕ, zero, suc, ◌+◌, ◌*◌, ◌≤◌, ◌<◌, ◌≡◌, sym, ap, ◌∙◌, ◌↔◌, inl, inr, Bool, true, false, some,
  arith, Bool-cases, Option-cases,
}
use Prim.Native.String.{String, [] as no_text, ◌∷◌ as char_cons}
use Prim.Native.Char.{Char}
use odograph.Prelude.Int.{pos}
use odograph.StorageLimits.{
  gib, min_custom_limit_bytes, max_bigint, is_digit, digit, read_fraction, read_whole, read_gib,
  bytes_of, parse_custom_gib, max_custom_gib, limit_gib,
}

bytes_bounds : (h : ℕ) → (bytes_of h * 100 ≤ h * gib) × (h * gib < bytes_of h * 100 + 100)
unfolding bytes_of
bytes_bounds h = omega arith

limit_gib-bytes_of : (h : ℕ) → limit_gib (bytes_of h) ≡ h
unfolding limit_gib bytes_of
limit_gib-bytes_of h = ground arith

-- What an administrator enters reads back unchanged: the two-place value shown for the bytes of an
-- accepted entry is the value of the entry.
pub limit_gib-parse_custom_gib :
    (value : String) (bytes : ℕ)
    → parse_custom_gib value ≡ some bytes
    → read_gib value ≡ some (limit_gib bytes)
unfolding parse_custom_gib
limit_gib-parse_custom_gib value bytes e = elim (Option-cases (read_gib value)) [
  | inl h ↦ absurd (ground arith)
  | inr (hundredths, h) ↦
      let same : bytes_of hundredths ≡ bytes = ground arith in
      h ∙ ap (λ x. some x) (sym (limit_gib-bytes_of hundredths) ∙ ap limit_gib same)
]

-- The largest two-place value whose bytes fit: it fits, and no larger one does.
pub max_custom_gib_largest :
    (fundable h : ℕ)
    → (bytes_of (max_custom_gib (pos fundable)) ≤ fundable)
      × (bytes_of h ≤ fundable ↔ (h ≤ max_custom_gib (pos fundable)))
unfolding max_custom_gib bytes_of
max_custom_gib_largest fundable h = (omega arith, (λ e. omega arith, λ e. omega arith))

-- The largest number that `left` digits more can make of `whole`.
abbrev cap : ℕ → ℕ → ℕ
cap zero whole = whole
cap (suc left) whole = cap left (whole * 10 + 9)

cap_mono : (left a b : ℕ) → a ≤ b → cap left a ≤ cap left b
cap_mono zero a b h = h
cap_mono (suc left) a b h = cap_mono left (a * 10 + 9) (b * 10 + 9) (omega arith)

cap_grows : (left whole : ℕ) → whole ≤ cap left whole
cap_grows zero whole = omega arith
cap_grows (suc left) whole = omega (arith, cap_grows left (whole * 10 + 9))

read_fraction_bound :
    (whole : ℕ) (s : String) (h : ℕ) → read_fraction whole s ≡ some h → h ≤ whole * 100 + 99
unfolding read_fraction is_digit digit
read_fraction_bound whole no_text h e = absurd (ground arith)
read_fraction_bound whole (char_cons c no_text) h e = ground arith
read_fraction_bound whole (char_cons c (char_cons d no_text)) h e = ground arith
read_fraction_bound whole (char_cons c (char_cons d (char_cons x s))) h e = absurd (ground arith)

digit_bound : (c : Char) → is_digit c ≡ true → digit c ≤ 9
unfolding is_digit digit
digit_bound c h = ground arith

read_whole_bound :
    (left : ℕ) (seen : Bool) (whole : ℕ) (s : String) (h : ℕ)
    → read_whole left seen whole s ≡ some h
    → h ≤ cap left whole * 100 + 99
unfolding read_whole
read_whole_bound left seen whole no_text h e = ground (arith, cap_grows left whole)
read_whole_bound zero seen whole (char_cons c s) h e = ground (arith, read_fraction_bound whole s h)
read_whole_bound (suc left) seen whole (char_cons c s) h e = elim (Bool-cases (is_digit c)) [
  | inl d ↦
      let deeper = read_whole_bound left true (whole * 10 + digit c) s h in
      let most =
        cap_mono left (whole * 10 + digit c) (whole * 10 + 9) (omega (arith, digit_bound c d)) in
      ground (arith, deeper, most, d)
  | inr n ↦ ground (arith, read_fraction_bound whole s h, cap_grows (suc left) whole, n)
]

-- The bytes of an accepted entry are within the limits that storing it checks: no smaller than
-- the smallest custom limit, and far inside of a database integer.
pub parse_custom_gib_bounds :
    (value : String) (bytes : ℕ)
    → parse_custom_gib value ≡ some bytes
    → (min_custom_limit_bytes ≤ bytes) × (bytes ≤ max_bigint)
unfolding parse_custom_gib read_gib bytes_of
parse_custom_gib_bounds value bytes e = elim (Option-cases (read_whole 9 false 0 value)) [
  | inl h ↦ absurd (ground arith)
  | inr (hundredths, h) ↦
      let small = read_whole_bound 9 false 0 value hundredths h in ground (arith, small, h)
]
