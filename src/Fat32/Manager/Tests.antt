-- ===== src/Fat32/Manager/Tests.antt =====
-- Allocations on a small volume.
use bitos.Base.{ℕ, ◌<◌, ◌≡◌, refl, arith, some, [], ◌∷◌, returned}
use bitos.Fat32.FsInfo.{first_free_cluster, read_free_clusters}
use bitos.Fat32.Volume.{Volume}
use bitos.Fat32.Table.{get_all_cluster_of}
use bitos.Fat32.Table.Entries.{entry1}
use bitos.Fat32.Table.Tests.{table, table-IsLaidOut, disk}
use bitos.Fat32.Manager.{Fat32Manager, alloc_cluster, dealloc_cluster, free_clusters}
use bitos.Fat32.Manager.Runs.{Frees, nil, next}
use bitos.Fat32.Manager.Alloc.{Allocated}
use bitos.Fat32.Manager.WriteBack.{IsOrdered}
use bitos.Fat32.Manager.Closing.{alloc_cluster-Allocated}
use bitos.Fat32.FileContent.Reading.{IsMounted}
use bitos.Fat32.Manager.Dealloc.{dealloc_cluster-alloc_cluster}

abbrev manager : Fat32Manager
manager = record {
  fsinfo = record { sector_num = 1 };
  sectors_per_cluster = 8;
  bytes_per_sector = 512;
  bytes_per_cluster = 4096;
  fat = table;
  root_sec = 48;
  total_sectors = 1000;
}

manager-IsMounted : IsMounted manager
manager-IsMounted = record {
  sector = refl;
  cluster = refl;
  pos = omega arith;
  small = omega arith;
  entries = omega arith;
  root = omega arith;
}

manager-IsOrdered : IsOrdered manager
manager-IsOrdered = record { counted = omega arith; below = omega arith }

hint_at : 0 < first_free_cluster manager.fsinfo disk
unfolding first_free_cluster
hint_at = omega arith

-- Cluster 5 is in use.
free_run : Frees table disk (first_free_cluster manager.fsinfo disk) (3 ∷ 4 ∷ 6 ∷ [])
unfolding first_free_cluster
free_run =
    next (omega arith) (omega arith) (λ e lo hi. absurd (omega arith)) refl
      (next (omega arith) (omega arith) (λ e lo hi. absurd (omega arith)) refl
        (next (omega arith) (omega arith) (λ e lo hi. ground arith) refl nil))

alloc_cluster-Allocated_example :
    (vol' : Volume) × (alloc_cluster 100 manager disk 3 ≡ some (returned (some 3, vol')))
    × Allocated manager disk vol' 3 (4 ∷ 6 ∷ [])
unfolding free_clusters read_free_clusters
alloc_cluster-Allocated_example =
    alloc_cluster-Allocated manager manager-IsMounted table-IsLaidOut manager-IsOrdered
      (omega arith) 100 disk 3 (4 ∷ 6 ∷ []) (omega arith) (λ s h. refl) hint_at free_run
      (omega arith)

dealloc_cluster-alloc_cluster_example :
    (vol' : Volume) × (alloc_cluster 100 manager disk 3 ≡ some (returned (some 3, vol')))
    × (get_all_cluster_of 3 table vol' 3 ≡ some (3 ∷ 4 ∷ 6 ∷ []))
    × ((x : ℕ)
        → x < 100
        → entry1 table (dealloc_cluster manager vol' (3 ∷ 4 ∷ 6 ∷ [])) x ≡ entry1 table disk x)
    × (free_clusters manager (dealloc_cluster manager vol' (3 ∷ 4 ∷ 6 ∷ []))
        ≡ free_clusters manager disk)
unfolding free_clusters read_free_clusters
dealloc_cluster-alloc_cluster_example =
    dealloc_cluster-alloc_cluster manager manager-IsMounted table-IsLaidOut manager-IsOrdered
      (omega arith) 100 disk 3 (4 ∷ 6 ∷ []) (omega arith) (λ s h. refl) hint_at free_run
      (omega arith) (omega arith)
