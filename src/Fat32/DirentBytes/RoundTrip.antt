-- ===== src/Fat32/DirentBytes/RoundTrip.antt =====
-- An entry and its bytes.
use bitos.Base.{
  ℕ, ◌+◌, ◌*◌, ◌/◌, ◌%◌, ◌^◌, ◌<◌, ◌≡◌, ap, ◌∙◌, arith, List, [], ◌∷◌, ◌++◌, take, drop, length,
  length-append, take-append, drop-append,
}
use mathlib.Core.List.{append_assoc}
use bitos.Fat32.ShortDirEntry.{ShortDirEntry}
use bitos.Fat32.DirentBytes.{AllBytes, dirent_sz, le_value, number_bytes, as_bytes, from_bytes}

-- An entry whose fields have the sizes of their types.
pub record IsSized (e : ShortDirEntry) : Type 0 where
  pub name : length e.name ≡ 8
  pub extension : length e.extension ≡ 3
  pub attribute : e.attribute < 2 ^ 8
  pub winnt_reserved : e.winnt_reserved < 2 ^ 8
  pub creation_tenths : e.creation_tenths < 2 ^ 8
  pub creation_time : e.creation_time < 2 ^ 16
  pub creation_date : e.creation_date < 2 ^ 16
  pub last_acc_date : e.last_acc_date < 2 ^ 16
  pub cluster_high : e.cluster_high < 2 ^ 16
  pub modification_time : e.modification_time < 2 ^ 16
  pub modification_date : e.modification_date < 2 ^ 16
  pub cluster_low : e.cluster_low < 2 ^ 16
  pub size : e.size < 2 ^ 32

byte_eq : (v : ℕ) → v < 2 ^ 8 → v % 2 ^ 8 + 2 ^ 8 * 0 ≡ v
byte_eq v h = omega arith

half_eq : (v : ℕ) → v < 2 ^ 16 → v % 2 ^ 8 + 2 ^ 8 * (v / 2 ^ 8 % 2 ^ 8 + 2 ^ 8 * 0) ≡ v
half_eq v h = omega arith

word_eq :
    (v : ℕ)
    → v < 2 ^ 32
    → v % 2 ^ 8
        + 2 ^ 8
          * (v / 2 ^ 8 % 2 ^ 8
              + 2 ^ 8
                * (v / 2 ^ 8 / 2 ^ 8 % 2 ^ 8
                    + 2 ^ 8 * (v / 2 ^ 8 / 2 ^ 8 / 2 ^ 8 % 2 ^ 8 + 2 ^ 8 * 0)))
      ≡ v
word_eq v h = omega arith

-- The bytes of an entry have the size that directories count with, and an entry is what its bytes are read
-- as; for fields that have the sizes of their types.
pub from_bytes-as_bytes :
    (e : ShortDirEntry)
    → IsSized e
    → (length (as_bytes e) ≡ dirent_sz) × (from_bytes (as_bytes e) ≡ e)
unfolding as_bytes from_bytes
from_bytes-as_bytes e s =
    let front : length (e.name ++ e.extension) ≡ 11 =
      omega (arith, length-append e.name e.extension, s.name, s.extension) in
    let name_first : take 8 (as_bytes e) ≡ e.name =
      ap (take 8) (append_assoc e.name e.extension (number_bytes e))
      ∙ take-append e.name (e.extension ++ number_bytes e) 8 s.name in
    let then_extension : take 3 (drop 8 (as_bytes e)) ≡ e.extension =
      ap (λ (bs : List ℕ). take 3 (drop 8 bs)) (append_assoc e.name e.extension (number_bytes e))
      ∙ ap (take 3) (drop-append e.name (e.extension ++ number_bytes e) 8 s.name)
      ∙ take-append e.extension (number_bytes e) 3 s.extension in
    let rest = drop-append (e.name ++ e.extension) (number_bytes e) 11 front in
    let field : (n i : ℕ) → le_value n (drop 11 (as_bytes e)) i ≡ le_value n (number_bytes e) i =
      λ n i. ap (λ (bs : List ℕ). le_value n bs i) rest in
    (
      length-append (e.name ++ e.extension) (number_bytes e) ∙ ap (λ (n : ℕ). n + 21) front,
      λ i. record {
        name = name_first i;
        extension = then_extension i;
        attribute = (field 1 0 ∙ byte_eq e.attribute s.attribute) i;
        winnt_reserved = (field 1 1 ∙ byte_eq e.winnt_reserved s.winnt_reserved) i;
        creation_tenths = (field 1 2 ∙ byte_eq e.creation_tenths s.creation_tenths) i;
        creation_time = (field 2 3 ∙ half_eq e.creation_time s.creation_time) i;
        creation_date = (field 2 5 ∙ half_eq e.creation_date s.creation_date) i;
        last_acc_date = (field 2 7 ∙ half_eq e.last_acc_date s.last_acc_date) i;
        cluster_high = (field 2 9 ∙ half_eq e.cluster_high s.cluster_high) i;
        modification_time = (field 2 11 ∙ half_eq e.modification_time s.modification_time) i;
        modification_date = (field 2 13 ∙ half_eq e.modification_date s.modification_date) i;
        cluster_low = (field 2 15 ∙ half_eq e.cluster_low s.cluster_low) i;
        size = (field 4 17 ∙ word_eq e.size s.size) i;
      },
    )

AllBytes-append : (xs ys : List ℕ) → AllBytes xs → AllBytes ys → AllBytes (xs ++ ys)
AllBytes-append [] ys p q = q
AllBytes-append (x ∷ xs) ys (h, p) q = (h, AllBytes-append xs ys p q)

pub as_bytes-AllBytes :
    (e : ShortDirEntry) → AllBytes e.name → AllBytes e.extension → AllBytes (as_bytes e)
unfolding as_bytes
as_bytes-AllBytes e name extension =
    AllBytes-append (e.name ++ e.extension) (number_bytes e)
      (AllBytes-append e.name e.extension name extension)
      (
        omega arith,
        (
          omega arith,
          (
            omega arith,
            (
              omega arith,
              (
                omega arith,
                (
                  omega arith,
                  (
                    omega arith,
                    (
                      omega arith,
                      (
                        omega arith,
                        (
                          omega arith,
                          (
                            omega arith,
                            (
                              omega arith,
                              (
                                omega arith,
                                (
                                  omega arith,
                                  (
                                    omega arith,
                                    (
                                      omega arith,
                                      (
                                        omega arith,
                                        (
                                          omega arith,
                                          (omega arith, (omega arith, (omega arith, tt))),
                                        ),
                                      ),
                                    ),
                                  ),
                                ),
                              ),
                            ),
                          ),
                        ),
                      ),
                    ),
                  ),
                ),
              ),
            ),
          ),
        ),
      )
