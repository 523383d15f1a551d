-- ===== src/Base/Outcomes.antt =====
-- Rust code that can panic: a value, or the panic.
use mathlib.Core.Path.{◌≡◌, refl, ap}
use mathlib.Core.Bool.{Bool, true, false}
use mathlib.Core.Option.{Option, none, some}

pub data Outcome {ℓ} (A : Type ℓ) : Type ℓ where
  returned : A → Outcome A
  panicked : Outcome A

infixl 5 ◌>>=◌ ◌>>◌
abbrev pub ◌>>=◌ {ℓ κ} : {A : Type ℓ} {B : Type κ} → Outcome A → (A → Outcome B) → Outcome B
returned a >>= f = f a
panicked >>= f = panicked

abbrev pub ◌>>◌ {ℓ} : {B : Type ℓ} → Outcome (Unit {0}) → Outcome B → Outcome B
m >> k = m >>= λ _. k

-- Code that can also run out of fuel, which is `none`.
infixl 5 ◌>?=◌
abbrev pub ◌>?=◌ {ℓ κ} :
    {A : Type ℓ} {B : Type κ} → Outcome (Option A) → (A → Outcome (Option B)) → Outcome (Option B)
panicked >?= f = panicked
returned none >?= f = returned none
returned (some a) >?= f = f a

abbrev pub done {ℓ} : {A : Type ℓ} → A → Outcome (Option A)
done a = returned (some a)

-- `assert!`
abbrev pub assert : Bool → Outcome (Unit {0})
assert true = returned tt
assert false = panicked

-- `Option::unwrap`
abbrev pub unwrap {ℓ} : {A : Type ℓ} → Option A → Outcome A
unwrap none = panicked
unwrap (some a) = returned a

-- Inversion of a bind that returned.
pub >>=-eq-returned {ℓ κ} :
    {A : Type ℓ} {B : Type κ} (m : Outcome A) (f : A → Outcome B) {b : B}
    → (m >>= f) ≡ returned b
    → (a : A) × (m ≡ returned a) × (f a ≡ returned b)
>>=-eq-returned (returned a) f h = (a, refl, h)
>>=-eq-returned panicked f h = cc

-- Inversion of an unwrap that returned.
pub unwrap-eq-returned {ℓ} :
    {A : Type ℓ} (o : Option A) {a : A} → unwrap o ≡ returned a → o ≡ some a
unwrap-eq-returned none e = cc
unwrap-eq-returned (some b) {a} e = ap (λ o. elim o [ returned x ↦ some x | panicked ↦ none ]) e

-- Inversion of an assertion that held.
pub assert-eq-returned : (b : Bool) {u : Unit {0}} → assert b ≡ returned u → b ≡ true
assert-eq-returned true e = refl
assert-eq-returned false e = cc
