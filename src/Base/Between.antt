-- ===== src/Base/Between.antt =====
-- Lists of distinct numbers between bounds, and sets of numbers as Boolean functions.
use Prim.Native.Nat.{ℕ, ◌≤◌, ◌<◌}
use mathlib.Core.Path.{◌≡◌}
use mathlib.Core.Logic.{inl, inr}
use mathlib.Core.Bool.{Bool, true, false}
use mathlib.Core.List.{List, [], ◌∷◌}
use native.Mathlib.Omega.{arith}
use bitos.Base.Lists.{contains}
use bitos.Base.Tests.{◌==◌, if◌then◌else◌, Bool-cases}

-- Distinct numbers from `lo` up to `hi`.
abbrev pub Between : ℕ → ℕ → List ℕ → Type 0
Between lo hi [] = Unit {0}
Between lo hi (x ∷ xs) = (lo ≤ x) × (x < hi) × (contains x xs ≡ false) × Between lo hi xs

abbrev pub update : (ℕ → Bool) → ℕ → Bool → ℕ → Bool
update f p b q = if q == p then b else f q

pub Between-mono : (lo hi hi' : ℕ) (xs : List ℕ) → hi ≤ hi' → Between lo hi xs → Between lo hi' xs
Between-mono lo hi hi' [] h b = tt
Between-mono lo hi hi' (x ∷ xs) h b =
    (b.0, omega (arith, b.1), b.2, Between-mono lo hi hi' xs h b.3)

-- A member lies between the bounds.
pub contains_bounds :
    (lo hi : ℕ) (xs : List ℕ) (p : ℕ)
    → Between lo hi xs
    → contains p xs ≡ true
    → (lo ≤ p) × (p < hi)
contains_bounds lo hi [] p b h = cc
contains_bounds lo hi (x ∷ xs) p b h = ground (arith, contains_bounds lo hi xs p b.3)

pub not-contains_above :
    (lo hi : ℕ) (xs : List ℕ) (p : ℕ) → Between lo hi xs → hi ≤ p → contains p xs ≡ false
not-contains_above lo hi xs p b h = elim (Bool-cases (contains p xs)) [
  | inl e ↦ absurd (omega (arith, contains_bounds lo hi xs p b e))
  | inr e ↦ e
]
