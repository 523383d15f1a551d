-- ===== src/Fat32/Directory/Words.antt =====
-- Bytes that are put into the words of a directory's sectors.
use bitos.Base.{
  ℕ, zero, suc, ◌+◌, ◌-◌, ◌*◌, ◌/◌, ◌%◌, ◌^◌, ◌<◌, ◌≡◌, ◌≢◌, ◌⊎◌, inl, inr, refl, sym, ap, ◌∙◌,
  arith, true, ◌&&◌, ◌==◌, if◌then◌else◌, Bool-cases, eq_of_==, ne_of_==, ==_self, ==_of_ne, List,
  [], ◌∷◌, length, get_or,
}
use bitos.Fat32.Volume.{Volume, set_info}
use bitos.Fat32.DirentBytes.{AllBytes}
use bitos.Fat32.FileContent.{get_byte, put_byte, put_slice}
use bitos.Fat32.FileContent.Slices.{between, get_or-cons, get_or-first}

-- The `j`-th byte of a word, and a word with a byte in its place.
abbrev pub byte_of_word : ℕ → ℕ → ℕ
byte_of_word w j = w / 2 ^ (8 * j) % 2 ^ 8

abbrev pub word_with : ℕ → ℕ → ℕ → ℕ
word_with w j byte = w - w / 2 ^ (8 * j) % 2 ^ 8 * 2 ^ (8 * j) + byte * 2 ^ (8 * j)

below_4 : (j : ℕ) → j < 4 → (j ≡ 0) ⊎ ((j ≡ 1) ⊎ ((j ≡ 2) ⊎ (j ≡ 3)))
below_4 zero h = inl refl
below_4 (suc zero) h = inr (inl refl)
below_4 (suc (suc zero)) h = inr (inr (inl refl))
below_4 (suc (suc (suc zero))) h = inr (inr (inr refl))
below_4 (suc (suc (suc (suc j)))) h = absurd (omega arith)

byte_self : (w j b : ℕ) → j < 4 → b < 2 ^ 8 → byte_of_word (word_with w j b) j ≡ b
byte_self w j b h small = elim (below_4 j h) [
  | inl e ↦ rw e (omega (arith, small))
  | inr (inl e) ↦ rw e (omega (arith, small))
  | inr (inr (inl e)) ↦ rw e (omega (arith, small))
  | inr (inr (inr e)) ↦ rw e (omega (arith, small))
]

byte_other_at :
    (w j k b : ℕ)
    → k < 4
    → j ≢ k
    → b < 2 ^ 8
    → (j ≡ 0) ⊎ ((j ≡ 1) ⊎ ((j ≡ 2) ⊎ (j ≡ 3)))
    → byte_of_word (word_with w j b) k ≡ byte_of_word w k
byte_other_at w j k b h ne small (inl e) = elim (below_4 k h) [
  | inl f ↦ absurd (omega (arith, e, f, ne))
  | inr (inl f) ↦ rw (e, f) (omega (arith, small))
  | inr (inr (inl f)) ↦ rw (e, f) (omega (arith, small))
  | inr (inr (inr f)) ↦ rw (e, f) (omega (arith, small))
]
byte_other_at w j k b h ne small (inr (inl e)) = elim (below_4 k h) [
  | inl f ↦ rw (e, f) (omega (arith, small))
  | inr (inl f) ↦ absurd (omega (arith, e, f, ne))
  | inr (inr (inl f)) ↦ rw (e, f) (omega (arith, small))
  | inr (inr (inr f)) ↦ rw (e, f) (omega (arith, small))
]
byte_other_at w j k b h ne small (inr (inr (inl e))) = elim (below_4 k h) [
  | inl f ↦ rw (e, f) (omega (arith, small))
  | inr (inl f) ↦ rw (e, f) (omega (arith, small))
  | inr (inr (inl f)) ↦ absurd (omega (arith, e, f, ne))
  | inr (inr (inr f)) ↦ rw (e, f) (omega (arith, small))
]
byte_other_at w j k b h ne small (inr (inr (inr e))) = elim (below_4 k h) [
  | inl f ↦ rw (e, f) (omega (arith, small))
  | inr (inl f) ↦ rw (e, f) (omega (arith, small))
  | inr (inr (inl f)) ↦ rw (e, f) (omega (arith, small))
  | inr (inr (inr f)) ↦ absurd (omega (arith, e, f, ne))
]

byte_other :
    (w j k b : ℕ)
    → j < 4
    → k < 4
    → j ≢ k
    → b < 2 ^ 8
    → byte_of_word (word_with w j b) k ≡ byte_of_word w k
byte_other w j k b hj hk ne small = byte_other_at w j k b hk ne small (below_4 j hj)

-- A word of another place, or the word at the place.
word_at :
    (vol : Volume) (s k byte s' o : ℕ)
    → (put_byte vol true s k byte).info s' o ≡ (
        if s' == s && o == k / 4 * 4
        then word_with (vol.info s (k / 4 * 4)) (k % 4) byte
        else vol.info s' o)
unfolding put_byte set_info
word_at vol s k byte s' o = refl

pub get_byte-put_byte :
    (vol : Volume) (s k b s' o : ℕ)
    → b < 2 ^ 8
    → get_byte (put_byte vol true s k b) true s' o
      ≡ (if s' == s && o == k then b else get_byte vol true s' o)
unfolding get_byte
get_byte-put_byte vol s k b s' o small =
    ap (λ (w : ℕ). byte_of_word w (o % 4)) (word_at vol s k b s' (o / 4 * 4))
    ∙ elim (Bool-cases (s' == s)) [
      | inr other ↦ rw other refl
      | inl same ↦ elim (Bool-cases (o == k)) [
        | inl here ↦
            let at : o ≡ k = eq_of_== o k here in
            rw (at, ==_self (k / 4 * 4), ==_self k, same)
              (byte_self (vol.info s (k / 4 * 4)) (k % 4) b (omega arith) small)
        | inr there ↦ rw (same, there) (other_byte (eq_of_== s' s same) (ne_of_== o k there))
      ]
    ]
  where
    other_byte :
        s' ≡ s
        → o ≢ k
        → byte_of_word
            (if o / 4 * 4 == k / 4 * 4
              then word_with (vol.info s (k / 4 * 4)) (k % 4) b
              else vol.info s' (o / 4 * 4))
            (o % 4)
          ≡ byte_of_word (vol.info s' (o / 4 * 4)) (o % 4)
    other_byte same ne = elim (Bool-cases (o / 4 * 4 == k / 4 * 4)) [
      | inr apart ↦ rw apart refl
      | inl together ↦
          let at : o / 4 * 4 ≡ k / 4 * 4 = eq_of_== (o / 4 * 4) (k / 4 * 4) together in
          rw together (
            byte_other (vol.info s (k / 4 * 4)) (k % 4) (o % 4) b (omega arith) (omega arith)
              (omega (arith, at, ne)) small
            ∙ ap (λ (w : ℕ). byte_of_word w (o % 4))
                (ap (λ (x : ℕ). vol.info x (k / 4 * 4)) (sym same) ∙ ap (vol.info s') (sym at)))
    ]

pub get_byte-put_slice :
    (bs : List ℕ) (vol : Volume) (s k s' o : ℕ)
    → AllBytes bs
    → get_byte (put_slice bs vol true s k) true s' o
      ≡ (if s' == s && between k (length bs) o then get_or bs (o - k) 0 else get_byte vol true s' o)
unfolding put_slice
get_byte-put_slice [] vol s k s' o small = ground arith
get_byte-put_slice (b ∷ bs) vol s k s' o (small, smalls) =
    get_byte-put_slice bs (put_byte vol true s k b) s (suc k) s' o smalls
    ∙ ground
        (arith, get_or-cons b bs k o, get_or-first b bs k o, get_byte-put_byte vol s k b s' o small)

-- The words of other sectors, and the bytes of files, stay.
pub put_slice-elsewhere :
    (bs : List ℕ) (vol : Volume) (s k s' o : ℕ)
    → s' ≢ s
    → (put_slice bs vol true s k).info s' o ≡ vol.info s' o
unfolding put_slice
put_slice-elsewhere [] vol s k s' o ne = refl
put_slice-elsewhere (b ∷ bs) vol s k s' o ne =
    put_slice-elsewhere bs (put_byte vol true s k b) s (suc k) s' o ne
    ∙ word_at vol s k b s' o
    ∙ rw (==_of_ne s' s ne) refl

pub put_slice-bytes_stay :
    (bs : List ℕ) (vol : Volume) (s k : ℕ) → (put_slice bs vol true s k).bytes ≡ vol.bytes
unfolding put_slice put_byte set_info
put_slice-bytes_stay [] vol s k = refl
put_slice-bytes_stay (b ∷ bs) vol s k = put_slice-bytes_stay bs _ s (suc k)
