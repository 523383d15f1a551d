-- ===== src/Fat32/Directory/Tests.antt =====
-- A root directory of one cluster, with a file in its first slot.
use bitos.Base.{
  ℕ, zero, suc, ◌*◌, ◌^◌, ◌≤◌, ◌<◌, ◌≡◌, refl, arith, true, false, ◌==◌, if◌then◌else◌, none, some,
  List, [], ◌∷◌, returned, length, get_or, map, replicate,
}
use bitos.Fat32.Volume.{Volume}
use bitos.Fat32.Table.{calculate_pos, low28, get_next_cluster}
use bitos.Fat32.Table.Chains.{last}
use bitos.Fat32.Table.Tests.{disk}
use bitos.Fat32.ShortDirEntry.{
  ShortDirEntry, is_empty, first_cluster, empty, to_ascii_uppercase, get_name_uppercase,
  before_space, dotted,
}
use bitos.Fat32.ShortDirEntry
use bitos.Fat32.DirentBytes.{from_bytes, AllBytes}
use bitos.Fat32.FileContent.{get_slice, get_byte, write_at}
use bitos.Fat32.FileContent.Tests.{mounted, mounted-IsMounted}
use bitos.Fat32.VirtualFile.{FileSystem, VFile, is_dir, read_short_dirent}
use bitos.Fat32.Directory.{find_free_dirent, find_vfile_byname, is_long_name}
use bitos.Fat32.Names.{split_dots}
use bitos.Fat32.Directory.Slots.{IsDirectory}
use bitos.Fat32.Directory.Writing.{SlotWritten, write_at-SlotWritten}
use bitos.Fat32.Directory.Search.{
  entries, first_empty, first_named, named_file, find_free_dirent-first_empty,
}
use bitos.Fat32.Directory.Lookup.{find_vfile_byname-first_named}

abbrev first_slot : ℕ → ℕ
first_slot o =
    if o == 0
    then 0x20202041
    else if o == 4
    then 0x20202020
    else if o == 8
    then 0x20545854
    else if o == 24
    then 2 * 2 ^ 16
    else if o == 28
    then 5000
    else 0

abbrev pub file_system : FileSystem
file_system = record {
  manager = mounted;
  vol = record disk {
    info = λ s o. if s == 72 then first_slot o else disk.info s o;
    bytes = λ s o. 7;
  };
  root_dirent = record empty { attribute = 0x10; cluster_low = 5 };
}

abbrev pub root : VFile
root = record {
  name = 0x2F ∷ [];
  short_sector = 0;
  short_offset = 0;
  long_pos_vec = [];
  attribute = 0x10;
}

abbrev pub clusters : List ℕ
clusters = 5 ∷ []

clusters_low : (i : ℕ) → 2 ≤ get_or clusters i 2
clusters_low zero = omega arith
clusters_low (suc i) = omega arith

pub clusters_distinct :
    (i j : ℕ)
    → i < length clusters
    → j < length clusters
    → get_or clusters i 2 ≡ get_or clusters j 2
    → i ≡ j
clusters_distinct i j hi hj e = omega arith

pub root_is_dir : is_dir root ≡ true
unfolding is_dir
root_is_dir = refl

pub root-IsDirectory :
    IsDirectory mounted file_system.vol (read_short_dirent file_system root) clusters
unfolding read_short_dirent empty ShortDirEntry.is_dir first_cluster get_next_cluster low28
    calculate_pos
root-IsDirectory = record {
  dir = refl;
  chain = last {c = 5} (omega arith) (omega arith) refl;
  data_clusters = clusters_low;
  ending = omega arith;
  small = omega arith;
  few = omega arith;
}

pub one_taken : first_empty (entries file_system.vol mounted clusters) ≡ 1
unfolding from_bytes get_slice get_byte is_empty
one_taken = refl

pub name_missing :
    first_named (map to_ascii_uppercase (0x62 ∷ [])) (entries file_system.vol mounted clusters) 0
    ≡ none
unfolding from_bytes get_slice get_byte is_empty ShortDirEntry.is_valid get_name_uppercase
    before_space dotted
name_missing = refl

find_free_dirent-first_empty_example :
    find_free_dirent 200 10 file_system root
    ≡ returned (some (some (32 * first_empty (entries file_system.vol mounted clusters))))
find_free_dirent-first_empty_example =
    find_free_dirent-first_empty file_system (read_short_dirent file_system root) mounted-IsMounted
      root-IsDirectory root 200 10 root_is_dir refl (omega arith) (omega arith)

short_name : is_long_name (0x61 ∷ 0x2E ∷ 0x74 ∷ 0x78 ∷ 0x74 ∷ []) ≡ false
unfolding is_long_name split_dots
short_name = refl

find_vfile_byname-first_named_example :
    find_vfile_byname 200 10 file_system root (0x61 ∷ 0x2E ∷ 0x74 ∷ 0x78 ∷ 0x74 ∷ [])
    ≡ returned (
        some (
          named_file file_system root (0x61 ∷ 0x2E ∷ 0x74 ∷ 0x78 ∷ 0x74 ∷ []) (
            first_named
              (map to_ascii_uppercase (0x61 ∷ 0x2E ∷ 0x74 ∷ 0x78 ∷ 0x74 ∷ []))
              (entries file_system.vol mounted clusters)
              0)))
find_vfile_byname-first_named_example =
    find_vfile_byname-first_named file_system root mounted-IsMounted root-IsDirectory
      (0x61 ∷ 0x2E ∷ 0x74 ∷ 0x78 ∷ 0x74 ∷ []) 200 10 root_is_dir short_name (omega arith)
      (omega arith)

replicate-AllBytes : (n b : ℕ) → b < 2 ^ 8 → AllBytes (replicate n b)
replicate-AllBytes zero b h = tt
replicate-AllBytes (suc n) b h = (h, replicate-AllBytes n b h)

write_at-SlotWritten_example :
    (vol' : Volume) × (write_at 10 mounted file_system.vol
        (read_short_dirent file_system root)
        (32 * 3)
        (replicate 32 9)
      ≡ returned (some (32, vol')))
    × SlotWritten mounted clusters file_system.vol vol' 3 (replicate 32 9)
write_at-SlotWritten_example =
    write_at-SlotWritten mounted-IsMounted root-IsDirectory clusters_distinct 3 (replicate 32 9)
      refl (omega arith) 10 (omega arith) (replicate-AllBytes 32 9 (omega arith))
