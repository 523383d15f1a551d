-- ===== src/Task/Life/Returns.antt =====
-- What holds of a value that a computation may return.
use bitos.Base.{◌≡◌, refl, subst, Outcome, returned, panicked, ◌>>=◌}

unfoldable pub Returns {ℓ κ} : {A : Type ℓ} → (A → Type κ) → Outcome A → Type κ
Returns P (returned a) = P a
Returns P panicked = Unit

-- The first step of a computation, with what it returned.
pub bound {ℓ κ μ} :
    {A : Type ℓ} {B : Type κ} (P : B → Type μ) (m : Outcome A) (f : A → Outcome B)
    → ((a : A) → m ≡ returned a → Returns P (f a))
    → Returns P (m >>= f)
unfolding Returns
bound P (returned a) f h = h a refl
bound P panicked f h = tt

pub Returns-elim {ℓ κ} :
    {A : Type ℓ} (P : A → Type κ) {m : Outcome A} {a : A} → Returns P m → m ≡ returned a → P a
unfolding Returns
Returns-elim P r e = subst (Returns P) e r
