-- ===== src/Detector/Ranges/Spans.antt =====
-- What a list of index ranges satisfies: in order, disjoint, in bounds and long enough.
use odograph.Prelude.{
  ℕ, ◌+◌, ◌≤◌, ◌<◌, ◌≡◌, refl, Bool, false, ◌&&◌, List, [], ◌∷◌, arith, leb, any,
}

-- Ranges of indices below `n`, from `lo` on, each behind the one in front of it.
abbrev pub AreDisjoint : ℕ → ℕ → List (ℕ × ℕ) → Type 0
AreDisjoint n lo [] = Unit
AreDisjoint n lo ((a, b) ∷ rs) = (lo ≤ a) × (a ≤ b) × (b < n) × AreDisjoint n (b + 1) rs

-- `k` is an index of one of the ranges.
abbrev pub covers : ℕ → List (ℕ × ℕ) → Bool
covers k = any (λ r. leb r.0 k && leb k r.1)

pub AreDisjoint-mono :
    (n lo lo' : ℕ) (rs : List (ℕ × ℕ)) → lo' ≤ lo → AreDisjoint n lo rs → AreDisjoint n lo' rs
AreDisjoint-mono n lo lo' [] h d = tt
AreDisjoint-mono n lo lo' ((a, b) ∷ rs) h d = (omega arith, d.1, d.2, d.3)

-- What lies in front of the first range is not covered.
pub covers_below :
    (n lo k : ℕ) (rs : List (ℕ × ℕ)) → AreDisjoint n lo rs → k < lo → covers k rs ≡ false
covers_below n lo k [] d h = refl
covers_below n lo k ((a, b) ∷ rs) d h = ground (arith, covers_below n (b + 1) k rs d.3)
