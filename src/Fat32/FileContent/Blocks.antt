-- ===== src/Fat32/FileContent/Blocks.antt =====
-- Offsets of a file in blocks of 512 bytes, and blocks in clusters of `spc`.
use bitos.Base.{
  ℕ, ◌+◌, ◌*◌, ◌/◌, ◌%◌, ◌<◌, ◌≡◌, ◌⊎◌, inl, inr, sym, ap, ◌∙◌, arith, Bool-cases, ltb,
}
use native.Mathlib.Nat.{
  div-div-eq-div-mul, div-add-mod, mod-lt, mul_assoc, mul-add-mod_self_left, mod-eq_of_lt,
  mul-add-div, div-eq_of_lt, mul-add,
}

-- A quotient and a remainder that make up a number are its own.
pub div-mod_unique :
    (m : ℕ) → 0 < m → (b q s : ℕ) → b ≡ m * q + s → s < m → (b / m ≡ q) × (b % m ≡ s)
div-mod_unique m pos b q s e h = (
  ap (λ (t : ℕ). t / m) e ∙ mul-add-div pos q s ∙ omega (arith, div-eq_of_lt h),
  ap (λ (t : ℕ). t % m) e ∙ mul-add-mod_self_left m q s ∙ mod-eq_of_lt h,
)

module _ (spc : ℕ) (pos : 0 < spc) where
  pub cluster_of : (o : ℕ) → o / (512 * spc) ≡ o / 512 / spc
  cluster_of o = sym (div-div-eq-div-mul o 512 spc)

  -- Where an offset lies in its cluster.
  pub within : (o : ℕ) → o % (512 * spc) / 512 ≡ o / 512 % spc
  within o =
      let b = o / 512 in
      let inside : b % spc < spc = mod-lt b pos in
      let wide : 512 * (b % spc) + o % 512 < 512 * spc = omega arith in
      let split : o ≡ 512 * spc * (b / spc) + (512 * (b % spc) + o % 512) =
        omega (arith, div-add-mod b spc, mul_assoc 512 spc (b / spc)) in
      let (_, at) =
        div-mod_unique (512 * spc) (omega arith) o (b / spc) (512 * (b % spc) + o % 512) split
          wide in
      omega (arith, ap (λ (t : ℕ). t / 512) at)

  -- The next block is in the same cluster or starts the next one.
  pub next_block :
      (b : ℕ)
      → ((b % spc + 1 < spc) × ((b + 1) / spc ≡ b / spc) × ((b + 1) % spc ≡ b % spc + 1))
        ⊎ (((b + 1) / spc ≡ b / spc + 1) × ((b + 1) % spc ≡ 0))
  next_block b = elim (Bool-cases (ltb (b % spc + 1) spc)) [
    | inl h ↦
        let less : b % spc + 1 < spc = ground arith in
        let (d, r) =
          div-mod_unique spc pos (b + 1) (b / spc) (b % spc + 1) (omega (arith, div-add-mod b spc))
            less in
        inl (less, d, r)
    | inr h ↦
        let last : b % spc + 1 ≡ spc = ground (arith, mod-lt b pos) in
        inr (
          div-mod_unique spc pos (b + 1) (b / spc + 1) 0
            (omega (arith, div-add-mod b spc, mul-add spc (b / spc) 1)) pos)
  ]

  -- A position on a block's border is on a cluster's border if the block is.
  pub border : (b : ℕ) → 512 * b % (512 * spc) ≡ 512 * (b % spc)
  border b =
      let inside : b % spc < spc = mod-lt b pos in
      let split : 512 * b ≡ 512 * spc * (b / spc) + 512 * (b % spc) =
        omega (arith, div-add-mod b spc, mul_assoc 512 spc (b / spc)) in
      (div-mod_unique (512 * spc) (omega arith) (512 * b) (b / spc) (512 * (b % spc)) split
        (omega arith)).1
