-- ===== src/Fat32/ShortDirEntry/Tests.antt =====
-- An entry, and the theorems on it.
use bitos.Base.{◌≡◌, refl, [], ◌∷◌}
use bitos.Fat32.ShortDirEntry.{ShortDirEntry, new, before_space, dotted, get_name_lowercase}

-- `AB.C`
abbrev entry : ShortDirEntry
entry = new (65 ∷ 66 ∷ 32 ∷ 32 ∷ 32 ∷ 32 ∷ 32 ∷ 32 ∷ []) (67 ∷ 32 ∷ 32 ∷ []) 0x20

get_name_lowercase-entry : get_name_lowercase entry ≡ 97 ∷ 98 ∷ 46 ∷ 99 ∷ []
unfolding get_name_lowercase before_space dotted new
get_name_lowercase-entry = refl
