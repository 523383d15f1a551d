-- ===== src/Fat32/Manager.antt =====
-- `FAT32Manager` of fat32/src/fat.rs: clusters and sectors, and the allocation of clusters. The
-- searches of the table take fuel, and `none` means that it ran out.
pub mod Alloc
pub mod Closing
pub mod WriteBack
pub mod Dealloc
pub mod Runs
pub mod Tests
use bitos.Base.{
  ℕ, zero, suc, ◌+◌, ◌-◌, ◌*◌, ◌/◌, ◌%◌, ◌^◌, Bool, true, false, Option, none, some, List, [], ◌∷◌,
  ◌==◌, ◌&&◌, ltb, leb, if◌then◌else◌, Outcome, returned, panicked, length,
}
use bitos.Fat32.FsInfo.{
  FsInfo, read_free_clusters, write_free_clusters, first_free_cluster, write_first_free_cluster,
  check_signature,
}
use bitos.Fat32.Table.{
  Fat, free_cluster, next_free_cluster, set_next_cluster, set_end, count_claster_num,
}
use bitos.Fat32.Volume.{Volume, clear_sector, write_to_dev}

pub record Fat32Manager : Type 0 where
  pub fsinfo : FsInfo
  pub sectors_per_cluster : ℕ
  pub bytes_per_sector : ℕ
  pub bytes_per_cluster : ℕ
  pub fat : Fat
  pub root_sec : ℕ
  pub total_sectors : ℕ

-- In `usize` arithmetic.
unfoldable pub first_sector_of_cluster : Fat32Manager → ℕ → ℕ
first_sector_of_cluster m cluster =
    ((cluster + 2 ^ 64 - 2) % 2 ^ 64 * m.sectors_per_cluster + m.root_sec) % 2 ^ 64

-- The loop of `clear_cluster`: `n` sectors are left, from `sector` on.
unfoldable pub clear_sectors : (n sector : ℕ) → Volume → Volume
clear_sectors zero sector vol = vol
clear_sectors (suc n) sector vol = clear_sectors n ((sector + 1) % 2 ^ 64) (clear_sector vol sector)

unfoldable pub clear_cluster : Fat32Manager → Volume → ℕ → Volume
clear_cluster m vol cluster_id =
    clear_sectors m.sectors_per_cluster (first_sector_of_cluster m cluster_id) vol

unfoldable pub free_clusters : Fat32Manager → Volume → ℕ
free_clusters m vol = read_free_clusters m.fsinfo vol

-- The loop of `alloc_cluster`: `n` rounds are left.
unfoldable pub alloc_loop : (n fuel : ℕ) → Fat32Manager → Volume → ℕ → Option (Outcome (ℕ × Volume))
alloc_loop zero fuel m vol current_cluster = some (returned (current_cluster, vol))
alloc_loop (suc n) fuel m vol current_cluster =
    let vol' = clear_cluster m vol current_cluster in
    elim (next_free_cluster fuel m.fat vol' current_cluster) [
      | none ↦ none
      | some next_cluster ↦
          let later =
            alloc_loop n fuel m (set_next_cluster m.fat vol' current_cluster next_cluster)
              next_cluster in
          if next_cluster == 0 then some panicked else later
    ]

unfoldable pub cache_write_back : Volume → Volume
cache_write_back vol = write_to_dev vol

-- The last cluster cleared and linked to the end, the counts written, and the caches written back.
unfoldable pub close_chain : Fat32Manager → (free num current_cluster : ℕ) → Volume → Volume
close_chain m free num current_cluster vol =
    let cleared = clear_cluster m vol current_cluster in
    let ended = set_end m.fat cleared current_cluster in
    let counted = write_free_clusters m.fsinfo ended (free - num) in
    cache_write_back (write_first_free_cluster m.fsinfo counted current_cluster)

-- The rest of `alloc_cluster`, from the first free cluster on.
unfoldable pub chain_from :
    (fuel : ℕ)
    → Fat32Manager
    → (free num first_cluster : ℕ) → Volume
    → Option (Outcome (Option ℕ × Volume))
chain_from fuel m free num first_cluster vol =
    elim (alloc_loop (num - 1) fuel m vol first_cluster) [
      | none ↦ none
      | some panicked ↦ some panicked
      | some (returned (current_cluster, vol')) ↦
          some (returned (some first_cluster, close_chain m free num current_cluster vol'))
    ]

unfoldable pub alloc_cluster :
    (fuel : ℕ) → Fat32Manager → Volume → (num : ℕ) → Option (Outcome (Option ℕ × Volume))
alloc_cluster fuel m vol num =
    let free = free_clusters m vol in
    let found = next_free_cluster fuel m.fat vol (first_free_cluster m.fsinfo vol) in
    if ltb free num then some (returned (none, vol)) else elim found [
      | none ↦ none
      | some first_cluster ↦ chain_from fuel m free num first_cluster vol
    ]

-- The loop of `dealloc_cluster`.
unfoldable pub release_all : Fat → List ℕ → Volume → Volume
release_all fat [] vol = vol
release_all fat (c ∷ cs) vol = release_all fat cs (set_next_cluster fat vol c free_cluster)

unfoldable pub dealloc_cluster : Fat32Manager → Volume → List ℕ → Volume
dealloc_cluster m vol [] = vol
dealloc_cluster m vol (c ∷ cs) =
    let free = free_clusters m vol in
    let released = release_all m.fat (c ∷ cs) vol in
    let counted = write_free_clusters m.fsinfo released ((free + length (c ∷ cs)) % 2 ^ 32) in
    if ltb 2 c && ltb c (first_free_cluster m.fsinfo counted)
    then write_first_free_cluster m.fsinfo counted (c - 1)
    else counted

-- In `u32` arithmetic.
unfoldable pub size_to_clusters : Fat32Manager → ℕ → ℕ
size_to_clusters m size = (size + m.bytes_per_cluster + 2 ^ 32 - 1) % 2 ^ 32 / m.bytes_per_cluster

unfoldable pub cluster_of_offset : Fat32Manager → ℕ → ℕ
cluster_of_offset m offset = offset % 2 ^ 32 / m.bytes_per_cluster

-- `none` means that the count of a directory's clusters ran out of fuel.
unfoldable pub cluster_num_needed :
    (fuel : ℕ)
    → Fat32Manager
    → Volume
    → (old_size new_size : ℕ) → (is_dir : Bool) → (first_cluster : ℕ) → Option ℕ
cluster_num_needed fuel m vol old_size new_size is_dir first_cluster =
    if leb new_size old_size
    then some 0
    else if is_dir
    then elim (count_claster_num fuel m.fat vol first_cluster) [
      | none ↦ none
      | some old_clusters ↦ some ((size_to_clusters m new_size + 2 ^ 32 - old_clusters) % 2 ^ 32)
    ]
    else some ((size_to_clusters m new_size + 2 ^ 32 - size_to_clusters m old_size) % 2 ^ 32)
