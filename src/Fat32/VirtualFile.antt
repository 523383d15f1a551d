-- ===== src/Fat32/VirtualFile.antt =====
-- fat32/src/vfs.rs: `VFile`, its entry in a directory, and the reading, writing, growing, clearing and removing
-- of a file. The file system is the manager with the root's entry, and the volume. An entry lies within its
-- sector. Walks of chains and loops take fuel, and `none` means that it ran out.
pub mod RoundTrip
pub mod Tests
use bitos.Base.{
  ℕ, zero, suc, ◌+◌, ◌-◌, ◌%◌, ◌^◌, bit_and, Bool, true, false, not, ◌||◌, Option, none, some, List,
  [], ◌∷◌, ◌++◌, ◌==◌, leb, if◌then◌else◌, Outcome, returned, panicked, ◌>>=◌, ◌>>◌, assert, length,
  replicate,
}
use bitos.Fat32.Volume.{Volume}
use bitos.Fat32.Table.{set_next_cluster, final_cluster, get_all_cluster_of}
use bitos.Fat32.Manager.{
  Fat32Manager, alloc_cluster, dealloc_cluster, cluster_num_needed, cache_write_back,
}
use bitos.Fat32.ShortDirEntry.{
  ShortDirEntry, attribute_directory, first_cluster, set_first_cluster, set_size,
}
use bitos.Fat32.ShortDirEntry
use bitos.Fat32.DirentBytes.{dirent_sz, as_bytes, from_bytes}
use bitos.Fat32.FileContent.{get_slice, put_slice, put_byte}
use bitos.Fat32.FileContent

-- `FAT32Manager` behind its locks, with the device.
pub record FileSystem : Type 0 where
  pub manager : Fat32Manager
  pub vol : Volume
  pub root_dirent : ShortDirEntry

pub record VFile : Type 0 where
  pub name : List ℕ
  pub short_sector : ℕ
  pub short_offset : ℕ
  pub long_pos_vec : List (ℕ × ℕ)
  pub attribute : ℕ

unfoldable pub is_dir : VFile → Bool
is_dir f = not (bit_and f.attribute attribute_directory == 0)

unfoldable pub is_short : VFile → Bool
is_short f = length f.long_pos_vec == 0

unfoldable pub read_short_dirent : FileSystem → VFile → ShortDirEntry
read_short_dirent fs f =
    if f.short_sector == 0
    then fs.root_dirent
    else from_bytes (get_slice dirent_sz fs.vol true f.short_sector f.short_offset)

unfoldable pub modify_short_dirent :
    FileSystem → VFile → (ShortDirEntry → ShortDirEntry) → FileSystem
modify_short_dirent fs f g =
    let e = g (read_short_dirent fs f) in
    if f.short_sector == 0
    then record fs { root_dirent = e }
    else record fs { vol = put_slice (as_bytes e) fs.vol true f.short_sector f.short_offset }

unfoldable pub get_size : FileSystem → VFile → ℕ
get_size fs f = (read_short_dirent fs f).size

unfoldable pub get_pos : FileSystem → VFile → (offset : ℕ) → ℕ × ℕ
get_pos fs f offset =
    let (_, sec, off) = FileContent.get_pos fs.manager fs.vol (read_short_dirent fs f) offset in
    (sec, off)

-- The new clusters put behind those of the file, and its new size.
unfoldable pub attach :
    (fuel : ℕ) → FileSystem → VFile → (first cluster new_size : ℕ) → Outcome (Option FileSystem)
attach fuel fs f first cluster new_size =
    let resized : FileSystem → FileSystem =
      λ s. modify_short_dirent s f (λ e. set_size e new_size) in
    if first == 0
    then returned (some (resized (modify_short_dirent fs f (λ e. set_first_cluster e cluster))))
    else (final_cluster fuel fs.manager.fat fs.vol first >>= λ found. elim found [
      | none ↦ returned none
      | some final ↦
          assert (not (cluster == 0))
          >> returned (
              some (
                resized (record fs { vol = set_next_cluster fs.manager.fat fs.vol final cluster })))
    ])

-- More clusters for a file, or a panic if there are too few.
unfoldable pub enlarge :
    (fuel : ℕ) → FileSystem → VFile → (needed new_size : ℕ) → Outcome (Option FileSystem)
enlarge fuel fs f needed new_size = elim (alloc_cluster fuel fs.manager fs.vol needed) [
  | none ↦ returned none
  | some panicked ↦ panicked
  | some (returned (none, vol)) ↦ panicked
  | some (returned (some cluster, vol)) ↦
      attach fuel (record fs { vol = vol }) f (first_cluster (read_short_dirent fs f)) cluster
        new_size
]

unfoldable pub increase_size :
    (fuel : ℕ) → FileSystem → VFile → (new_size : ℕ) → Outcome (Option FileSystem)
increase_size fuel fs f new_size =
    let e = read_short_dirent fs f in
    if leb new_size e.size
    then returned (some fs)
    else elim (cluster_num_needed fuel fs.manager fs.vol e.size new_size (is_dir f)
        (first_cluster e)) [
          | none ↦ returned none
          | some needed ↦
              if needed == 0
              then returned (
                  some
                    (if is_dir f then fs else modify_short_dirent fs f (λ s. set_size s new_size)))
              else enlarge fuel fs f needed new_size
        ]

unfoldable pub read_at :
    (fuel : ℕ) → FileSystem → VFile → (offset len : ℕ) → Outcome (Option (List ℕ))
read_at fuel fs f offset len =
    FileContent.read_at fuel fs.manager fs.vol (read_short_dirent fs f) offset len

abbrev pub with_volume : FileSystem → Option (ℕ × Volume) → Option (ℕ × FileSystem)
with_volume fs none = none
with_volume fs (some (n, vol)) = some (n, record fs { vol = vol })

-- The write under `modify_short_dirent`, which leaves the entry itself.
unfoldable pub write_content :
    (fuel : ℕ)
    → VFile
    → (offset : ℕ) → (buf : List ℕ) → Option FileSystem
    → Outcome (Option (ℕ × FileSystem))
write_content fuel f offset buf none = returned none
write_content fuel f offset buf (some fs) =
    FileContent.write_at fuel fs.manager fs.vol (read_short_dirent fs f) offset buf >>= λ r.
    returned (with_volume fs r)

unfoldable pub write_at :
    (fuel : ℕ)
    → FileSystem
    → VFile
    → (offset : ℕ) → (buf : List ℕ) → Outcome (Option (ℕ × FileSystem))
write_at fuel fs f offset buf =
    increase_size fuel fs f ((offset + length buf) % 2 ^ 64 % 2 ^ 32)
    >>= write_content fuel f offset buf

-- The release of the clusters of a file; their number.
unfoldable pub release_clusters : (fuel : ℕ) → FileSystem → (first : ℕ) → Option (ℕ × FileSystem)
release_clusters fuel fs first = elim (get_all_cluster_of fuel fs.manager.fat fs.vol first) [
  | none ↦ none
  | some clusters ↦
      some (length clusters, record fs { vol = dealloc_cluster fs.manager fs.vol clusters })
]

-- `LongDirEntry::clear` does nothing.
unfoldable pub clear_file : (fuel : ℕ) → FileSystem → VFile → Option (ℕ × FileSystem)
clear_file fuel fs f =
    let first = first_cluster (read_short_dirent fs f) in
    if is_dir f || first == 0
    then some (0, fs)
    else elim (release_clusters fuel (modify_short_dirent fs f ShortDirEntry.clear) first) [
      | none ↦ none
      | some (n, fs') ↦ some (n, record fs' { vol = cache_write_back fs'.vol })
    ]

-- The order of a long entry is its first byte.
unfoldable pub delete_long : Volume → List (ℕ × ℕ) → Volume
delete_long vol [] = vol
delete_long vol ((sector, offset) ∷ ps) = delete_long (put_byte vol true sector offset 0xE5) ps

unfoldable pub remove_file : (fuel : ℕ) → FileSystem → VFile → Option (ℕ × FileSystem)
remove_file fuel fs f =
    let first = first_cluster (read_short_dirent fs f) in
    let marked = record fs { vol = delete_long fs.vol f.long_pos_vec } in
    release_clusters fuel (modify_short_dirent marked f ShortDirEntry.delete) first
