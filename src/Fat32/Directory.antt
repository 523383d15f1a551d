-- ===== src/Fat32/Directory.antt =====
-- fat32/src/vfs.rs: the names in a directory, which is read entry by entry: the search for a free entry, for a
-- short and for a long name, and along a path, and the listing. `walk` is the fuel of the walks along chains,
-- `fuel` that of the loop over the entries.
pub mod Words
pub mod Slots
pub mod Writing
pub mod Search
pub mod Lookup
pub mod Tests
use bitos.Base.{
  ℕ, zero, suc, ◌+◌, ◌-◌, ◌*◌, ◌%◌, ◌^◌, bit_and, Bool, true, false, not, ◌&&◌, ◌||◌, Option, none,
  some, List, [], ◌∷◌, ◌++◌, ◌==◌, ltb, if◌then◌else◌, Outcome, returned, panicked, ◌>>◌, ◌>?=◌,
  done, assert, length, replicate, map, reverse,
}
use bitos.Fat32.ShortDirEntry.{
  ShortDirEntry, attribute_lfn, to_ascii_uppercase, get_name_uppercase, get_name_lowercase,
  checksum,
}
use bitos.Fat32.ShortDirEntry
use bitos.Fat32.LongDirEntry.{LongDirEntry, get_name_raw, get_name_format}
use bitos.Fat32.LongDirEntry
use bitos.Fat32.Names.{long_name_split, split_dots}
use bitos.Fat32.DirentBytes.{dirent_sz, from_bytes, long_from_bytes}
use bitos.Fat32.FileContent
use bitos.Fat32.VirtualFile.{FileSystem, VFile, is_dir, read_short_dirent}
use bitos.Fat32.VirtualFile

-- Equality of strings.
abbrev pub string_eq : List ℕ → List ℕ → Bool
string_eq [] [] = true
string_eq [] (b ∷ bs) = false
string_eq (a ∷ xs) [] = false
string_eq (a ∷ xs) (b ∷ ys) = a == b && string_eq xs ys

-- The bytes of the entry at an offset of the directory `e`, fewer than 32 behind its end.
unfoldable pub read_dirent :
    (walk : ℕ) → FileSystem → (e : ShortDirEntry) → (offset : ℕ) → Outcome (Option (List ℕ))
read_dirent walk fs e offset = FileContent.read_at walk fs.manager fs.vol e offset dirent_sz

-- The loop of `find_free_dirent`; what is not read of an entry is 0.
unfoldable pub seek_free_dirent :
    (fuel walk : ℕ) → FileSystem → (e : ShortDirEntry) → (offset : ℕ) → Outcome (Option ℕ)
seek_free_dirent zero walk fs e offset = returned none
seek_free_dirent (suc fuel) walk fs e offset =
    let later = seek_free_dirent fuel walk fs e ((offset + dirent_sz) % 2 ^ 64) in
    read_dirent walk fs e offset >?= λ bytes.
    if ShortDirEntry.is_empty (from_bytes (bytes ++ replicate (dirent_sz - length bytes) 0))
      || length bytes == 0
    then done offset
    else later

unfoldable pub find_free_dirent : (fuel walk : ℕ) → FileSystem → VFile → Outcome (Option (Option ℕ))
find_free_dirent fuel walk fs f =
    if is_dir f
    then (seek_free_dirent fuel walk fs (read_short_dirent fs f) 0 >?= λ offset. done (some offset))
    else done none

-- The file of an entry that was found.
unfoldable pub found_at :
    FileSystem
    → (dir : VFile) → (name : List ℕ) → ShortDirEntry
    → (offset : ℕ) → (long_pos_vec : List (ℕ × ℕ)) → VFile
found_at fs dir name e offset long_pos_vec =
    let (short_sector, short_offset) = VirtualFile.get_pos fs dir offset in
    record {
      name = name;
      short_sector = short_sector;
      short_offset = short_offset;
      long_pos_vec = long_pos_vec;
      attribute = e.attribute;
    }

-- The loop of `find_short_name`.
unfoldable pub seek_short_name :
    (fuel walk : ℕ)
    → FileSystem
    → (dir : VFile) → (name name_upper : List ℕ) → (e : ShortDirEntry) → (offset : ℕ)
    → Outcome (Option (Option VFile))
seek_short_name zero walk fs dir name name_upper e offset = returned none
seek_short_name (suc fuel) walk fs dir name name_upper e offset =
    let later =
      seek_short_name fuel walk fs dir name name_upper e ((offset + dirent_sz) % 2 ^ 64) in
    read_dirent walk fs e offset >?= λ bytes.
    let short_ent = from_bytes bytes in
    if not (length bytes == dirent_sz) || ShortDirEntry.is_empty short_ent
    then done none
    else if ShortDirEntry.is_valid short_ent && string_eq name_upper (get_name_uppercase short_ent)
    then done (some (found_at fs dir name short_ent offset []))
    else later

unfoldable pub find_short_name :
    (fuel walk : ℕ)
    → FileSystem
    → (dir : VFile) → (name : List ℕ) → (e : ShortDirEntry) → Outcome (Option (Option VFile))
find_short_name fuel walk fs dir name e =
    seek_short_name fuel walk fs dir name (map to_ascii_uppercase name) e 0

-- The inner loop of `find_long_name`: `rest` are the parts of the name that are left, the last first. `none`
-- means that an entry could not be read.
unfoldable pub match_parts :
    (rest : List (List ℕ))
    → (walk : ℕ) → FileSystem
    → (e : ShortDirEntry) → (offset : ℕ) → Outcome (Option (Option Bool))
match_parts [] walk fs e offset = done (some true)
match_parts (name ∷ rest) walk fs e offset =
    let later = match_parts rest walk fs e ((offset + dirent_sz) % 2 ^ 64) in
    read_dirent walk fs e offset >?= λ bytes.
    let long_ent = long_from_bytes bytes in
    if not (length bytes == dirent_sz)
    then done none
    else if not (string_eq (get_name_raw long_ent) name)
        || not (long_ent.attribute == attribute_lfn)
    then done (some false)
    else later

-- The places that `find_long_name` notes for the long entries: at the offsets that follow, as in the source.
unfoldable pub long_places : (n : ℕ) → FileSystem → (dir : VFile) → (offset : ℕ) → List (ℕ × ℕ)
long_places zero fs dir offset = []
long_places (suc n) fs dir offset =
    VirtualFile.get_pos fs dir offset ∷ long_places n fs dir ((offset + 1) % 2 ^ 64)

-- The short entry behind the `n` long ones from `offset` on.
unfoldable pub take_long :
    (walk : ℕ)
    → FileSystem
    → (dir : VFile) → (name : List ℕ) → (e : ShortDirEntry) → (n check_sum offset : ℕ)
    → Outcome (Option (Option VFile))
take_long walk fs dir name e n check_sum offset =
    let s_off = (offset + n * dirent_sz) % 2 ^ 64 in
    read_dirent walk fs e s_off >?= λ bytes.
    let short_ent = from_bytes bytes in
    if not (length bytes == dirent_sz)
    then done none
    else if ShortDirEntry.is_valid short_ent && check_sum == checksum short_ent
    then done (some (found_at fs dir name short_ent s_off (long_places n fs dir offset)))
    else done none

-- The loop of `find_long_name`: `last` is the last part of the name, and `rest` are the others, from behind.
unfoldable pub seek_long_name :
    (fuel walk : ℕ)
    → FileSystem
    → (dir : VFile) → (name last : List ℕ) → (rest : List (List ℕ)) → (e : ShortDirEntry)
    → (offset : ℕ) → Outcome (Option (Option VFile))
seek_long_name zero walk fs dir name last rest e offset = returned none
seek_long_name (suc fuel) walk fs dir name last rest e offset =
    let next_offset = (offset + dirent_sz) % 2 ^ 64 in
    let later = seek_long_name fuel walk fs dir name last rest e next_offset in
    let n = suc (length rest) in
    read_dirent walk fs e offset >?= λ bytes.
    let long_ent = long_from_bytes bytes in
    if not (length bytes == dirent_sz) || LongDirEntry.is_empty long_ent
    then done none
    else if string_eq (get_name_raw long_ent) last && long_ent.attribute == attribute_lfn
    then (if bit_and long_ent.order 0x40 == 0 || long_ent.order == 0xE5
        then later
        else if not (long_ent.order - 0x40 == n)
        then later
        else (match_parts rest walk fs e next_offset >?= λ is_match. elim is_match [
          | none ↦ done none
          | some false ↦ later
          | some true ↦ take_long walk fs dir name e n long_ent.check_sum offset
        ]))
    else later

-- An empty name panics. The loop that would find a step of more than one entry has no rounds.
unfoldable pub find_long_name :
    (fuel walk : ℕ)
    → FileSystem
    → (dir : VFile) → (name : List ℕ) → (e : ShortDirEntry) → Outcome (Option (Option VFile))
find_long_name fuel walk fs dir name e = elim (reverse (long_name_split name)) [
  | [] ↦ panicked
  | last ∷ rest ↦ seek_long_name fuel walk fs dir name last rest e 0
]

unfoldable pub is_long_name : List ℕ → Bool
is_long_name name = elim (split_dots [] name) [
  | [] ↦ false
  | name_ ∷ [] ↦ ltb 8 (length name_)
  | name_ ∷ ext_ ∷ rest ↦ ltb 8 (length name_) || ltb 3 (length ext_)
]

unfoldable pub find_vfile_byname :
    (fuel walk : ℕ) → FileSystem → (dir : VFile) → (name : List ℕ) → Outcome (Option (Option VFile))
find_vfile_byname fuel walk fs dir name =
    let e = read_short_dirent fs dir in
    assert (is_dir dir)
    >> (if is_long_name name
        then find_long_name fuel walk fs dir name e
        else find_short_name fuel walk fs dir name e)

unfoldable pub find_vfile_bypath :
    (path : List (List ℕ))
    → (fuel walk : ℕ) → FileSystem
    → (current : VFile) → Outcome (Option (Option VFile))
find_vfile_bypath [] fuel walk fs current = done (some current)
find_vfile_bypath (name ∷ path) fuel walk fs current =
    let same = find_vfile_bypath path fuel walk fs current in
    if string_eq name [] || string_eq name (0x2E ∷ [])
    then same
    else (find_vfile_byname fuel walk fs current name >?= λ found. elim found [
      | none ↦ done none
      | some f ↦ find_vfile_bypath path fuel walk fs f
    ])

-- The loop of `ls_lite`: the parts of a long name are put before each other until its short entry comes.
unfoldable pub list_from :
    (fuel walk : ℕ)
    → FileSystem
    → (e : ShortDirEntry) → (offset : ℕ) → (name : List ℕ) → (is_long : Bool)
    → Outcome (Option (List (List ℕ × ℕ)))
list_from zero walk fs e offset name is_long = returned none
list_from (suc fuel) walk fs e offset name is_long =
    let next_offset = (offset + dirent_sz) % 2 ^ 64 in
    read_dirent walk fs e offset >?= λ bytes.
    let long_ent = long_from_bytes bytes in
    let short_ent = from_bytes bytes in
    let deleted = list_from fuel walk fs e next_offset name false in
    let longer = list_from fuel walk fs e next_offset (get_name_format long_ent ++ name) true in
    let behind = list_from fuel walk fs e next_offset [] false in
    if not (length bytes == dirent_sz) || LongDirEntry.is_empty long_ent
    then done []
    else if LongDirEntry.is_deleted long_ent
    then deleted
    else if long_ent.attribute == attribute_lfn
    then longer
    else (behind >?= λ rest. done (
        (if is_long
          then (name, short_ent.attribute)
          else (get_name_lowercase short_ent, short_ent.attribute))
        ∷ rest))

unfoldable pub ls_lite :
    (fuel walk : ℕ) → FileSystem → VFile → Outcome (Option (Option (List (List ℕ × ℕ))))
ls_lite fuel walk fs f =
    if is_dir f
    then (list_from fuel walk fs (read_short_dirent fs f) 0 [] false >?= λ list. done (some list))
    else done none
