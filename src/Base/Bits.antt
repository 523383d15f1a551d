-- ===== src/Base/Bits.antt =====
-- `&` with a mask of low bits or with one bit, and `|` of disjoint fields, as arithmetic.
use Prim.Native.Nat.{
  ℕ, zero, suc, ◌+◌, ◌-◌, ◌*◌, ◌/◌, ◌%◌, ◌^◌, ◌≤◌, ◌<◌, min, max, digits, bit_and, bit_or,
  bit_and-bitwise, bit_or-bitwise,
}
use mathlib.Core.Path.{◌≡◌, refl, ◌∙◌, ap}
use native.Mathlib.Nat.{
  pow-suc, one-le-pow, mul_comm, mul-add-mod_self_left, mod-eq_of_lt, mod-lt, div-add-mod,
}
use native.Mathlib.Omega.{arith}

-- More rounds than the number has digits change nothing.
module _ (z : ℕ → ℕ) (f : ℕ → ℕ → ℕ) where
  rounds_enough : (n m a b : ℕ) → a ≤ n → a ≤ m → digits z f n a b ≡ digits z f m a b
  rounds_enough zero zero a b p q = refl
  rounds_enough zero (suc m) zero b p q = refl
  rounds_enough zero (suc m) (suc a) b p q = absurd (omega arith)
  rounds_enough (suc n) zero zero b p q = refl
  rounds_enough (suc n) zero (suc a) b p q = absurd (omega arith)
  rounds_enough (suc n) (suc m) zero b p q = refl
  rounds_enough (suc n) (suc m) (suc a) b p q =
      let h = suc a / 2 in omega (arith, rounds_enough n m h (b / 2) (omega arith) (omega arith))

pub and_halves : (a b : ℕ) → bit_and a b ≡ bit_and (a / 2) (b / 2) * 2 + min (a % 2) (b % 2)
and_halves zero b = omega (arith, bit_and-bitwise 0 b, bit_and-bitwise 0 (b / 2))
and_halves (suc a) b =
    let h = suc a / 2 in
    omega (
      arith,
      bit_and-bitwise (suc a) b,
      bit_and-bitwise h (b / 2),
      rounds_enough (λ y. 0) min a h h (b / 2) (omega arith) (omega arith),
    )

pub or_halves : (a b : ℕ) → bit_or a b ≡ bit_or (a / 2) (b / 2) * 2 + max (a % 2) (b % 2)
or_halves zero b = omega (arith, bit_or-bitwise 0 b, bit_or-bitwise 0 (b / 2))
or_halves (suc a) b =
    let h = suc a / 2 in
    omega (
      arith,
      bit_or-bitwise (suc a) b,
      bit_or-bitwise h (b / 2),
      rounds_enough (λ y. y) max a h h (b / 2) (omega arith) (omega arith),
    )

and-zero_below : (n a : ℕ) → a ≤ n → bit_and a 0 ≡ 0
and-zero_below zero zero h = refl
and-zero_below zero (suc a) h = absurd (omega arith)
and-zero_below (suc n) a h = omega (arith, and_halves a 0, and-zero_below n (a / 2) (omega arith))

or-zero_below : (n a : ℕ) → a ≤ n → bit_or a 0 ≡ a
or-zero_below zero zero h = refl
or-zero_below zero (suc a) h = absurd (omega arith)
or-zero_below (suc n) a h = omega (arith, or_halves a 0, or-zero_below n (a / 2) (omega arith))

pub and-zero : (a : ℕ) → bit_and a 0 ≡ 0
and-zero a = and-zero_below a a (omega arith)

pub or-zero : (a : ℕ) → bit_or a 0 ≡ a
or-zero a = or-zero_below a a (omega arith)

mod_double : (a m : ℕ) → 0 < m → a % (2 * m) ≡ a / 2 % m * 2 + a % 2
mod_double a m h =
    ap (λ (t : ℕ). t % (2 * m)) split
    ∙ mul-add-mod_self_left (2 * m) (a / 2 / m) (a / 2 % m * 2 + a % 2)
    ∙ mod-eq_of_lt (omega (arith, mod-lt (a / 2) h))
  where
    split : a ≡ 2 * m * (a / 2 / m) + (a / 2 % m * 2 + a % 2)
    split = omega (arith, div-add-mod (a / 2) m)

and_double_mask : (a m : ℕ) → 0 < m → bit_and a (m * 2 - 1) ≡ bit_and (a / 2) (m - 1) * 2 + a % 2
and_double_mask a m h = omega (
  arith,
  and_halves a (m * 2 - 1),
  ap (bit_and (a / 2)) (let e : (m * 2 - 1) / 2 ≡ m - 1 = omega arith in e),
)

or_double : (q m r : ℕ) → bit_or (q * (m * 2)) r ≡ bit_or (q * m) (r / 2) * 2 + r % 2
or_double q m r = omega (
  arith,
  or_halves (q * (m * 2)) r,
  ap (λ t. bit_or t (r / 2)) (let e : q * (m * 2) / 2 ≡ q * m = omega arith in e),
)

-- A mask of `k` ones keeps the remainder by `2 ^ k`.
pub and_low_mask : (k a : ℕ) → bit_and a (2 ^ k - 1) ≡ a % 2 ^ k
and_low_mask zero a = and-zero a ∙ omega arith
and_low_mask (suc k) a =
    let pos : 0 < 2 ^ k = one-le-pow k 2 (omega arith) in
    rw (pow-suc 2 k) (
      omega (
        arith,
        and_double_mask a (2 ^ k) pos,
        and_low_mask k (a / 2),
        mod_double a (2 ^ k) pos,
        ap (λ (t : ℕ). a % t) (mul_comm (2 ^ k) 2),
      ))

-- `|` of a field above bit `k` and one below it adds them.
pub or_of_fields : (k q r : ℕ) → r < 2 ^ k → bit_or (q * 2 ^ k) r ≡ q * 2 ^ k + r
or_of_fields zero q r h = ground (arith, or-zero q)
or_of_fields (suc k) q r h =
    rw (pow-suc 2 k)
      (omega (arith, or_double q (2 ^ k) r, or_of_fields k q (r / 2) (omega (arith, pow-suc 2 k))))

or_comm_below : (n a b : ℕ) → a ≤ n → b ≤ n → bit_or a b ≡ bit_or b a
or_comm_below zero zero zero p q = refl
or_comm_below zero zero (suc b) p q = absurd (omega arith)
or_comm_below zero (suc a) b p q = absurd (omega arith)
or_comm_below (suc n) a b p q = omega (
  arith,
  or_halves a b,
  or_halves b a,
  or_comm_below n (a / 2) (b / 2) (omega arith) (omega arith),
)

pub or_comm : (a b : ℕ) → bit_or a b ≡ bit_or b a
or_comm a b = or_comm_below (a + b) a b (omega arith) (omega arith)
