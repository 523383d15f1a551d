-- ===== src/Mm/PageTableEntry/Fields.antt =====
-- The fields of an entry.
use bitos.Base.{
  ℕ, ◌+◌, ◌*◌, ◌/◌, ◌%◌, ◌^◌, ◌<◌, ◌≡◌, ◌∙◌, ap, refl, arith, bit_and, bit_or, Bool, true, false,
  ◌==◌,
}
use bitos.Base.Bits.{and_low_mask, and_halves, or_of_fields, or_halves, or-zero}
use bitos.Mm.Address.Pages.{phys_page_num_from-eq-mod}
use bitos.Mm.PageTableEntry.{new, ppn, flags, is_valid, readable, writable, executable, flag_v}

-- One bit of a number.
abbrev pub bit : ℕ → ℕ → Bool
bit n i = n / 2 ^ i % 2 == 1

and_one : (a : ℕ) → bit_and a 1 ≡ a % 2
and_one a = and_low_mask 1 a

and_two : (a : ℕ) → bit_and a 2 ≡ a / 2 % 2 * 2
and_two a = omega (arith, and_halves a 2, and_one (a / 2))

and_four : (a : ℕ) → bit_and a 4 ≡ a / 4 % 2 * 4
and_four a = omega (arith, and_halves a 4, and_two (a / 2))

and_eight : (a : ℕ) → bit_and a 8 ≡ a / 8 % 2 * 8
and_eight a = omega (arith, and_halves a 8, and_four (a / 2))

new-eq-sum : (p f : ℕ) → p < 2 ^ 44 → f < 2 ^ 8 → new p f ≡ p * 1024 + f
unfolding new
new-eq-sum p f hp hf =
    ap (λ t. bit_or t f) (let e : p * 2 ^ 10 % 2 ^ 64 ≡ p * 2 ^ 10 = omega arith in e)
    ∙ or_of_fields 10 p f (omega arith)

ppn-eq-mod : (e : ℕ) → ppn e ≡ e / 1024 % 2 ^ 44
unfolding ppn
ppn-eq-mod e = phys_page_num_from-eq-mod _ ∙ omega (arith, and_low_mask 44 (e / 2 ^ 10))

-- An entry made of a 44-bit page number and a flag byte gives both back, and each test reads its
-- own bit of the flags.
pub new_fields :
    (p f : ℕ)
    → p < 2 ^ 44
    → f < 2 ^ 8
    → (ppn (new p f) ≡ p)
      × (flags (new p f) ≡ f)
      × (is_valid (new p f) ≡ bit f 0)
      × (readable (new p f) ≡ bit f 1)
      × (writable (new p f) ≡ bit f 2)
      × (executable (new p f) ≡ bit f 3)
unfolding is_valid readable writable executable flags
new_fields p f hp hf =
    let whole : new p f ≡ p * 1024 + f = new-eq-sum p f hp hf in
    let low : new p f % 2 ^ 8 ≡ f = omega (arith, whole) in
    (
      omega (arith, ppn-eq-mod (new p f), whole),
      low,
      rw (low, and_one) (ground arith),
      rw (low, and_two) (ground arith),
      rw (low, and_four) (ground arith),
      rw (low, and_eight) (ground arith),
    )

-- `f | V`
pub or_valid : (f : ℕ) → f < 2 ^ 8 → (bit_or f flag_v < 2 ^ 8) × (bit (bit_or f flag_v) 0 ≡ true)
or_valid f h =
    let e : bit_or f 1 ≡ f / 2 * 2 + 1 = omega (arith, or_halves f 1, or-zero (f / 2)) in
    (omega (arith, e), rw e (ground arith))

pub not-is_valid-empty : is_valid 0 ≡ false
unfolding is_valid
not-is_valid-empty = refl
