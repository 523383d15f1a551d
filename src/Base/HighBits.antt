-- ===== src/Base/HighBits.antt =====
-- `&` with a mask that starts at a bit above the lowest.
use Prim.Native.Nat.{ℕ, zero, suc, ◌*◌, ◌/◌, ◌^◌, bit_and}
use mathlib.Core.Path.{◌≡◌, sym, ◌∙◌, ap}
use native.Mathlib.Nat.{pow-suc, mul_comm, mul_assoc, div-div-eq-div-mul}
use native.Mathlib.Omega.{arith}
use bitos.Base.Bits.{and_halves}

and_double_high : (a m n : ℕ) → bit_and a (m * (n * 2)) ≡ bit_and (a / 2) (m * n) * 2
and_double_high a m n = omega (
  arith,
  and_halves a (m * (n * 2)),
  ap (bit_and (a / 2)) (let e : m * (n * 2) / 2 ≡ m * n = omega arith in e),
)

-- A mask above bit `k` masks what is above that bit.
pub and_high_mask : (k a m : ℕ) → bit_and a (m * 2 ^ k) ≡ bit_and (a / 2 ^ k) m * 2 ^ k
and_high_mask zero a m = omega (
  arith,
  ap (bit_and a) (let e : m * 1 ≡ m = omega arith in e),
  ap (λ t. bit_and t m) (let e : a / 1 ≡ a = omega arith in e),
)
and_high_mask (suc k) a m =
    let halved : a / (2 ^ k * 2) ≡ a / 2 / 2 ^ k =
      ap (λ (t : ℕ). a / t) (mul_comm (2 ^ k) 2) ∙ sym (div-div-eq-div-mul a 2 (2 ^ k)) in
    rw (pow-suc 2 k, halved)
      (and_double_high a m (2 ^ k)
        ∙ ap (λ (t : ℕ). t * 2) (and_high_mask k (a / 2) m)
        ∙ mul_assoc (bit_and (a / 2 / 2 ^ k) m) (2 ^ k) 2)
