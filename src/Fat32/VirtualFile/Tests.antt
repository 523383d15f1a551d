-- ===== src/Fat32/VirtualFile/Tests.antt =====
-- A file whose entry stands in a sector of a directory.
use bitos.Base.{
  ℕ, ◌+◌, ◌*◌, ◌^◌, ◌≡◌, refl, arith, ◌==◌, if◌then◌else◌, some, [], ◌∷◌, returned, ◌%◌,
}
use bitos.Fat32.Table.{calculate_pos, low28, get_next_cluster}
use bitos.Fat32.Table.Chains.{last, link}
use bitos.Fat32.Table.Tests.{disk}
use bitos.Fat32.ShortDirEntry.{is_dir, first_cluster, empty}
use bitos.Fat32.DirentBytes.{from_bytes}
use bitos.Fat32.FileContent.{get_slice, get_byte}
use bitos.Fat32.FileContent.Access.{IsFile}
use bitos.Fat32.FileContent.Tests.{
  mounted, mounted-IsMounted, clusters, clusters_low, clusters_distinct,
}
use bitos.Fat32.VirtualFile.{FileSystem, VFile, read_short_dirent, read_at, write_at}
use bitos.Fat32.VirtualFile.RoundTrip.{read_at-write_at_within}

-- The entry: an archive of 5000 bytes, from cluster 2 on.
abbrev entry_words : ℕ → ℕ
entry_words o =
    if o == 40 then 0x20 * 2 ^ 24 else if o == 56 then 2 * 2 ^ 16 else if o == 60 then 5000 else 0

abbrev pub file_system : FileSystem
file_system = record {
  manager = mounted;
  vol = record disk {
    info = λ s o. if s == 500 then entry_words o else disk.info s o;
    bytes = λ s o. (s + o) % 256;
  };
  root_dirent = empty;
}

abbrev pub file : VFile
file = record {
  name = 0x61 ∷ [];
  short_sector = 500;
  short_offset = 32;
  long_pos_vec = [];
  attribute = 0x20;
}

pub file_size : (read_short_dirent file_system file).size ≡ 5000
unfolding read_short_dirent from_bytes get_slice get_byte
file_size = refl

pub file-IsFile : IsFile mounted file_system.vol (read_short_dirent file_system file) clusters
unfolding read_short_dirent from_bytes get_slice get_byte is_dir first_cluster get_next_cluster
    low28 calculate_pos
file-IsFile = record {
  file = refl;
  chain =
      link {c = 2} {d = 5} (omega arith) (omega arith) refl refl
        (last {c = 5} (omega arith) (omega arith) refl);
  data_clusters = clusters_low;
  holds = omega (arith, file_size);
  size = omega (arith, file_size);
}

read_at-write_at_within_example :
    (fs' : FileSystem) × (write_at 3 file_system file 4095 (1 ∷ 2 ∷ 3 ∷ [])
      ≡ returned (some (3, fs')))
    × (read_at 3 fs' file 4095 3 ≡ returned (some (1 ∷ 2 ∷ 3 ∷ [])))
    × (read_short_dirent fs' file ≡ read_short_dirent file_system file)
read_at-write_at_within_example =
    read_at-write_at_within file_system file mounted-IsMounted file-IsFile clusters_distinct 3 4095
      (1 ∷ 2 ∷ 3 ∷ []) (omega arith) (omega (arith, file_size)) (omega arith)
