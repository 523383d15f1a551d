-- ===== src/Fat32/LongDirEntry/Tests.antt =====
-- A name of three characters.
use bitos.Base.{ℕ, ◌≡◌, arith, List, [], ◌∷◌, returned}
use bitos.Fat32.LongDirEntry.{LongDirEntry, initialize, get_name_format}
use bitos.Fat32.LongDirEntry.Names.{NonZero, terminated, get_name_format-initialize}

abbrev name : List ℕ
name = 97 ∷ 46 ∷ 98 ∷ []

name-NonZero : NonZero name
name-NonZero = (λ e. omega arith, (λ e. omega arith, (λ e. omega arith, tt)))

get_name_format-initialize_example :
    (e : LongDirEntry) × (initialize (terminated name) 0x41 7 ≡ returned e)
    × (get_name_format e ≡ name)
    × (e.order ≡ 0x41)
    × (e.check_sum ≡ 7)
get_name_format-initialize_example =
    get_name_format-initialize name 0x41 7 name-NonZero (omega arith) (omega arith)
