-- ===== src/Mm/Address/Ranges.antt =====
-- What a `for` loop over a range of page numbers visits.
use bitos.Base.{
  ℕ, zero, suc, ◌+◌, ◌-◌, ◌≤◌, ◌<◌, ◌^◌, ◌≡◌, ap, List, [], ◌∷◌, some, none, arith, returned,
  panicked, ==_of_ne,
}
use mathlib.Core.Logic.{◌⊎◌, inl, inr}
use native.Mathlib.Decide.{dec_le}
use bitos.Mm.Address.{new_range, into_iter, next, visited}

-- The numbers from `l` on, `n` of them.
abbrev pub from : ℕ → ℕ → List ℕ
from l zero = []
from l (suc n) = l ∷ from (suc l) n

next-some :
    (l r : ℕ)
    → l < r
    → r < 2 ^ 64
    → next (record { current = l; end = r }) ≡ some (l, record { current = suc l; end = r })
unfolding next
next-some l r h fits =
    rw (==_of_ne l r (omega arith))
      (ap (λ (c : ℕ). some (l, record { current = c; end = r })) (omega arith))

next-none : (l r : ℕ) → l ≡ r → next (record { current = l; end = r }) ≡ none
unfolding next
next-none l r e = ground arith

pub visited-eq-from :
    (n k l r : ℕ)
    → n < k
    → l + n ≡ r
    → r < 2 ^ 64
    → visited k (record { current = l; end = r }) ≡ some (from l n)
unfolding visited
visited-eq-from n zero l r fuel e fits = absurd (omega arith)
visited-eq-from zero (suc k) l r fuel e fits = rw (next-none l r (omega arith), visited)
visited-eq-from (suc n) (suc k) l r fuel e fits = ground (
  arith,
  next-some l r (omega arith) fits,
  visited-eq-from n k (suc l) r (omega arith) (omega arith) fits,
)

-- A range is made exactly when its start is at most its end, and a loop over it visits the numbers
-- from the start up to the end, each once and in order; one more round than there are numbers is
-- enough fuel. The end is a `usize`.
pub visited-new_range :
    (l r : ℕ)
    → r < 2 ^ 64
    → ((l ≤ r)
        × (new_range l r ≡ returned (record { l = l; r = r }))
        × (visited (r - l + 1) (into_iter (record { l = l; r = r })) ≡ some (from l (r - l))))
      ⊎ ((r < l) × (new_range l r ≡ panicked))
unfolding new_range into_iter
visited-new_range l r fits = elim (dec_le l r) [
  | yes h ↦
      inl
        (h, ground arith, visited-eq-from (r - l) (r - l + 1) l r (omega arith) (omega arith) fits)
  | no h ↦ inr (omega arith, ground arith)
]
