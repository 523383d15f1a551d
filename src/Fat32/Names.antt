-- ===== src/Fat32/Names.antt =====
-- The names of fat32/src/fat.rs (`FAT32Manager`): long names in parts, and names of 8 and 3 bytes. A
-- string is the list of its characters, which are below 128, so that they are its bytes too.
pub mod Parts
pub mod Tests
use bitos.Base.{
  ℕ, zero, suc, ◌+◌, ◌-◌, ◌*◌, ◌/◌, ◌%◌, ◌^◌, Bool, true, false, Option, none, some, List, [], ◌∷◌,
  ◌++◌, ◌==◌, ltb, if◌then◌else◌, Outcome, returned, panicked, ◌>>=◌, unwrap, length, get_elem?,
  get_or, map,
}
use bitos.Fat32.ShortDirEntry.{to_ascii_uppercase}

abbrev pub long_name_len : ℕ
long_name_len = 13

-- The inner loop of `long_name_split`: `k` characters are left, from the `j`-th on.
unfoldable pub part : (k j len : ℕ) → List ℕ → List ℕ
part zero j len name_bytes = []
part (suc k) j len name_bytes =
    let later = part k (suc j) len name_bytes in
    if ltb j len then get_or name_bytes j 0 ∷ later else if ltb len j then 0xFF ∷ later else 0 ∷ []

-- The outer loop: `n` parts are left, from the `i`-th on.
unfoldable pub parts_from : (n i len : ℕ) → List ℕ → List (List ℕ)
parts_from zero i len name_bytes = []
parts_from (suc n) i len name_bytes =
    part long_name_len (i * long_name_len) len name_bytes ∷ parts_from n (suc i) len name_bytes

unfoldable pub long_name_split : List ℕ → List (List ℕ)
long_name_split name =
    let len = length name % 2 ^ 32 in
    parts_from ((len + long_name_len - 1) % 2 ^ 32 / long_name_len) 0 len name

-- `str::split` at each dot.
unfoldable pub split_dots : (current : List ℕ) → List ℕ → List (List ℕ)
split_dots current [] = current ∷ []
split_dots current (c ∷ cs) =
    if c == 0x2E then current ∷ split_dots [] cs else split_dots (current ++ c ∷ []) cs

unfoldable pub split_name_ext : List ℕ → List ℕ × List ℕ
split_name_ext name = elim (split_dots [] name) [
  | [] ↦ ([], [])
  | name_ ∷ [] ↦ (name_, [])
  | name_ ∷ ext_ ∷ rest ↦ (name_, ext_)
]

-- The loops that fill a name and an extension, to `n` bytes, with spaces.
unfoldable pub padded_upper : ℕ → List ℕ → List ℕ
padded_upper zero bytes = []
padded_upper (suc n) [] = 0x20 ∷ padded_upper n []
padded_upper (suc n) (b ∷ bs) = to_ascii_uppercase b ∷ padded_upper n bs

unfoldable pub is_dots : List ℕ → Bool
is_dots (a ∷ []) = a == 0x2E
is_dots (a ∷ b ∷ []) = if a == 0x2E then b == 0x2E else false
is_dots name = false

unfoldable pub short_name_format : List ℕ → List ℕ × List ℕ
short_name_format name =
    if is_dots name
    then (padded_upper 8 name, padded_upper 3 [])
    else (let (name_, ext_) = split_name_ext name in (padded_upper 8 name_, padded_upper 3 ext_))

-- The loops of `generate_short_name`: characters of the name, from the `i`-th on.
unfoldable pub upper_from : (n i : ℕ) → List ℕ → Outcome (List ℕ)
upper_from zero i name = returned []
upper_from (suc n) i name = do
  c ← unwrap (get_elem? name i)
  rest ← upper_from n (suc i) name
  returned (to_ascii_uppercase c ∷ rest)

-- The characters of the extension are taken from the name, as in the source.
unfoldable pub short_ext_from : (n i ext_len : ℕ) → List ℕ → Outcome (List ℕ)
short_ext_from zero i ext_len name = returned []
short_ext_from (suc n) i ext_len name = do
  c ← if ltb i ext_len then unwrap (get_elem? (map to_ascii_uppercase name) i) else returned 0x20
  rest ← short_ext_from n (suc i) ext_len name
  returned (c ∷ rest)

unfoldable pub generate_short_name : List ℕ → Outcome (List ℕ)
generate_short_name long_name = do
  let (name, extension) = split_name_ext long_name in
      upper_from 6 0 name >>= λ front. short_ext_from 3 0 (length extension) name >>= λ back.
      returned (front ++ (0x7E ∷ 0x31 ∷ back))
