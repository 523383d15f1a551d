-- ===== src/Fat32/Creation.antt =====
-- fat32/src/vfs.rs: `create`, which writes the entries of a new file into a directory. A new directory gets
-- its entries `.` and `..`.
pub mod Names
pub mod Writing
pub mod Found
pub mod Tests
use bitos.Base.{
  ℕ, zero, suc, ◌+◌, ◌*◌, ◌%◌, ◌^◌, bit_and, bit_or, Bool, true, false, ◌||◌, Option, none, some,
  List, [], ◌∷◌, ◌==◌, ltb, if◌then◌else◌, Outcome, returned, panicked, ◌>>=◌, ◌>>◌, ◌>?=◌, done,
  assert, length, reverse,
}
use bitos.Fat32.ShortDirEntry.{
  ShortDirEntry, attribute_directory, new, first_cluster, set_first_cluster, set_case, checksum,
}
use bitos.Fat32.LongDirEntry
use bitos.Fat32.Names.{long_name_split, split_name_ext, short_name_format, generate_short_name}
use bitos.Fat32.DirentBytes.{dirent_sz, as_bytes, long_as_bytes}
use bitos.Fat32.VirtualFile.{FileSystem, VFile, is_dir, read_short_dirent}
use bitos.Fat32.VirtualFile
use bitos.Fat32.Directory.{find_free_dirent, find_vfile_byname}

abbrev pub all_lower_case : ℕ
all_lower_case = 0x08

-- A whole entry, or a panic.
unfoldable pub write_dirent :
    (walk : ℕ) → FileSystem → VFile → (offset : ℕ) → (bytes : List ℕ) → Outcome (Option FileSystem)
write_dirent walk fs dir offset bytes =
    VirtualFile.write_at walk fs dir offset bytes >?= λ r. assert (r.0 == dirent_sz) >> done r.1

-- The loop over the long entries, the last part of the name first; the offset behind them.
unfoldable pub write_parts :
    (parts : List (List ℕ))
    → (walk : ℕ) → FileSystem
    → VFile
    → (check_sum flag offset : ℕ) → Outcome (Option (ℕ × FileSystem))
write_parts [] walk fs dir check_sum flag offset = done (offset, fs)
write_parts (part ∷ parts) walk fs dir check_sum flag offset =
    LongDirEntry.initialize part (bit_or (suc (length parts) % 2 ^ 8) flag) check_sum >>= λ e.
    write_dirent walk fs dir offset (long_as_bytes e) >?= λ s.
    write_parts parts walk s dir check_sum 0 ((offset + dirent_sz) % 2 ^ 64)

unfoldable pub short_entry : (name : List ℕ) → (attribute : ℕ) → ShortDirEntry
short_entry name attribute =
    let (name_bytes, ext_bytes) = short_name_format name in new name_bytes ext_bytes attribute

unfoldable pub write_long_name :
    (walk : ℕ)
    → FileSystem
    → VFile
    → (name : List ℕ) → (attribute offset : ℕ) → Outcome (Option FileSystem)
write_long_name walk fs dir name attribute offset = generate_short_name name >>= λ short_name.
    let e = short_entry short_name attribute in
    write_parts (reverse (long_name_split name)) walk fs dir (checksum e) 0x40 offset >?= λ r.
    write_dirent walk r.1 dir r.0 (as_bytes e)

unfoldable pub write_name :
    (walk : ℕ)
    → FileSystem
    → VFile
    → (name : List ℕ) → (attribute offset : ℕ) → Outcome (Option FileSystem)
write_name walk fs dir name attribute offset =
    let (name_, ext_) = split_name_ext name in
    if ltb 8 (length name_) || ltb 3 (length ext_)
    then write_long_name walk fs dir name attribute offset
    else write_dirent walk fs dir offset
        (as_bytes (set_case (short_entry name attribute) all_lower_case))

-- The entries `.` and `..` of a new directory, whose first cluster is known once they are written.
unfoldable pub write_dots : (walk : ℕ) → FileSystem → (dir f : VFile) → Outcome (Option FileSystem)
write_dots walk fs dir f =
    let self_dir = short_entry (0x2E ∷ []) attribute_directory in
    let par_dir =
      set_first_cluster (short_entry (0x2E ∷ 0x2E ∷ []) attribute_directory)
        (first_cluster (read_short_dirent fs dir)) in
    VirtualFile.write_at walk fs f 0 (as_bytes self_dir) >?= λ r.
    VirtualFile.write_at walk r.1 f dirent_sz (as_bytes par_dir) >?= λ s.
    VirtualFile.write_at walk s.1 f 0
      (as_bytes (set_first_cluster self_dir (first_cluster (read_short_dirent s.1 f))))
    >?= λ t. done t.1

unfoldable pub created :
    (fuel walk : ℕ)
    → FileSystem
    → VFile
    → (name : List ℕ) → (attribute : ℕ) → Outcome (Option (Option VFile × FileSystem))
created fuel walk fs dir name attribute = find_vfile_byname fuel walk fs dir name >?= λ found.
    elim found [
      | none ↦ done (none, fs)
      | some f ↦
          if bit_and attribute attribute_directory == 0
          then done (some f, fs)
          else (write_dots walk fs dir f >?= λ s. done (some f, s))
    ]

unfoldable pub create :
    (fuel walk : ℕ)
    → FileSystem
    → VFile
    → (name : List ℕ) → (attribute : ℕ) → Outcome (Option (Option VFile × FileSystem))
create fuel walk fs dir name attribute =
    assert (is_dir dir)
    >> (find_free_dirent fuel walk fs dir >?= λ free. elim free [
      | none ↦ done (none, fs)
      | some offset ↦ write_name walk fs dir name attribute offset >?= λ s.
          created fuel walk s dir name attribute
    ])
