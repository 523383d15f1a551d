-- ===== src/Fat32/Names/Tests.antt =====
-- Names at concrete inputs.
use bitos.Base.{ℕ, ◌≡◌, refl, arith, List, [], ◌∷◌, map, replicate, returned}
use bitos.Fat32.Names.{
  long_name_split, split_name_ext, split_dots, short_name_format, padded_upper, is_dots,
  generate_short_name, upper_from, short_ext_from,
}
use bitos.Fat32.Names.Parts.{pieces, concat, long_name_split-pieces}
use bitos.Fat32.LongDirEntry.Names.{terminated}

-- `ab.c`
abbrev name : List ℕ
name = 97 ∷ 98 ∷ 46 ∷ 99 ∷ []

short_name_format-name :
    short_name_format name ≡ (65 ∷ 66 ∷ 32 ∷ 32 ∷ 32 ∷ 32 ∷ 32 ∷ 32 ∷ [], 67 ∷ 32 ∷ 32 ∷ [])
unfolding short_name_format split_name_ext split_dots padded_upper is_dots
short_name_format-name = refl

-- The extension of `abcdefg.x` becomes `A`, the first letter of the name.
extension_of_name :
    generate_short_name (97 ∷ 98 ∷ 99 ∷ 100 ∷ 101 ∷ 102 ∷ 103 ∷ 46 ∷ 120 ∷ [])
    ≡ returned (65 ∷ 66 ∷ 67 ∷ 68 ∷ 69 ∷ 70 ∷ 0x7E ∷ 0x31 ∷ 65 ∷ 32 ∷ 32 ∷ [])
unfolding generate_short_name split_name_ext split_dots upper_from short_ext_from
extension_of_name = refl

long_name_split-pieces_example :
    (long_name_split (replicate 15 97) ≡ map terminated (pieces 2 0 (replicate 15 97)))
    × (concat (pieces 2 0 (replicate 15 97)) ≡ replicate 15 97)
long_name_split-pieces_example = long_name_split-pieces (replicate 15 97) (omega arith)
