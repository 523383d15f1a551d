-- ===== src/Fat32/FileContent/Tests.antt =====
-- A file of two clusters: a read and a write across their border.
use bitos.Base.{
  range, ℕ, zero, suc, ◌+◌, ◌≤◌, ◌<◌, ◌≡◌, refl, arith, ◌%◌, some, List, [], ◌∷◌, returned, length,
  get_or,
}
use bitos.Fat32.Volume.{Volume}
use bitos.Fat32.Table.{calculate_pos, low28, get_next_cluster}
use bitos.Fat32.Table.Chains.{last, link}
use bitos.Fat32.Table.Tests.{table, disk}
use bitos.Fat32.Manager.{Fat32Manager}
use bitos.Fat32.ShortDirEntry.{ShortDirEntry, is_dir, first_cluster}
use bitos.Fat32.FileContent.{read_at, write_at}
use bitos.Fat32.FileContent.Reading.{IsMounted, byte_at}
use bitos.Fat32.FileContent.Access.{IsFile, read_at-range}
use bitos.Fat32.FileContent.Slices.{Written}
use bitos.Fat32.FileContent.Writing.{write_at-Written}

abbrev pub mounted : Fat32Manager
mounted = record {
  fsinfo = record { sector_num = 1 };
  sectors_per_cluster = 8;
  bytes_per_sector = 512;
  bytes_per_cluster = 4096;
  fat = table;
  root_sec = 48;
  total_sectors = 1000;
}

abbrev numbered : Volume
numbered = record disk { bytes = λ s o. (s + o) % 256 }

abbrev two_clusters : ShortDirEntry
two_clusters = record {
  name = [];
  extension = [];
  attribute = 0x20;
  winnt_reserved = 0;
  creation_tenths = 0;
  creation_time = 0;
  creation_date = 0;
  last_acc_date = 0;
  cluster_high = 0;
  modification_time = 0;
  modification_date = 0;
  cluster_low = 2;
  size = 5000;
}

abbrev pub clusters : List ℕ
clusters = 2 ∷ 5 ∷ []

pub mounted-IsMounted : IsMounted mounted
mounted-IsMounted = record {
  sector = refl;
  cluster = refl;
  pos = omega arith;
  small = omega arith;
  entries = omega arith;
  root = omega arith;
}

pub clusters_low : (i : ℕ) → 2 ≤ get_or clusters i 2
clusters_low zero = omega arith
clusters_low (suc zero) = omega arith
clusters_low (suc (suc i)) = omega arith

pub clusters_distinct :
    (i j : ℕ)
    → i < length clusters
    → j < length clusters
    → get_or clusters i 2 ≡ get_or clusters j 2
    → i ≡ j
clusters_distinct zero zero hi hj e = refl
clusters_distinct zero (suc zero) hi hj e = absurd (omega arith)
clusters_distinct zero (suc (suc j)) hi hj e = absurd (omega arith)
clusters_distinct (suc zero) zero hi hj e = absurd (omega arith)
clusters_distinct (suc zero) (suc zero) hi hj e = refl
clusters_distinct (suc zero) (suc (suc j)) hi hj e = absurd (omega arith)
clusters_distinct (suc (suc i)) j hi hj e = absurd (omega arith)

two_clusters-IsFile : IsFile mounted numbered two_clusters clusters
unfolding is_dir first_cluster get_next_cluster low28 calculate_pos
two_clusters-IsFile = record {
  file = refl;
  chain =
      link {c = 2} {d = 5} (omega arith) (omega arith) refl refl
        (last {c = 5} (omega arith) (omega arith) refl);
  data_clusters = clusters_low;
  holds = omega arith;
  size = omega arith;
}

read_at-range_example :
    read_at 4 mounted numbered two_clusters 4094 4
    ≡ returned (some (range (byte_at numbered mounted clusters) 4094 4))
read_at-range_example =
    read_at-range mounted-IsMounted two_clusters-IsFile 4 4094 4 (omega arith) (omega arith)

write_at-Written_example :
    (vol' : Volume) × (write_at 3 mounted numbered two_clusters 4095 (1 ∷ 2 ∷ 3 ∷ [])
      ≡ returned (some (3, vol')))
    × Written mounted clusters numbered vol' 4095 3 (1 ∷ 2 ∷ 3 ∷ [])
write_at-Written_example =
    write_at-Written mounted-IsMounted two_clusters-IsFile clusters_distinct 3 4095 (1 ∷ 2 ∷ 3 ∷ [])
      (omega arith) (omega arith) (omega arith)

-- The border lies between sectors 55 and 72.
crossing_read :
    read_at 4 mounted numbered two_clusters 4094 4 ≡ returned (some (53 ∷ 54 ∷ 72 ∷ 73 ∷ []))
crossing_read = read_at-range_example
