-- ===== src/Fat32/Table/Tests.antt =====
-- A small table, and the theorems on it.
use bitos.Base.{false, ℕ, ◌≡◌, refl, arith, some, [], ◌∷◌, ◌==◌, if◌then◌else◌, get_elem?, returned}
use bitos.Fat32.Volume.{Volume}
use bitos.Fat32.Table.{
  Fat, calculate_pos, low28, end_cluster, get_next_cluster, get_cluster_at, final_cluster,
  get_all_cluster_of, next_free_cluster,
}
use bitos.Fat32.Table.Entries.{IsLaidOut}
use bitos.Fat32.Table.Chains.{Chain, last, link, last_or, Chain-walks}
use bitos.Fat32.Table.Search.{next_free_cluster_finds}

abbrev pub table : Fat
table = record { fat1_sector = 32; fat2_sector = 40; n_sectors = 8; n_entry = 100 }

pub table-IsLaidOut : IsLaidOut table
table-IsLaidOut = record { apart = omega arith; fits = omega arith; room = omega arith }

-- Clusters 2 and 5 are a chain; 0 and 1 are reserved.
abbrev entries : ℕ → ℕ
entries o =
    if o == 8
    then 5
    else if o == 20
    then end_cluster
    else if o == 0
    then end_cluster
    else if o == 4
    then end_cluster
    else 0

-- Fifty free clusters are counted, and the hint is cluster 2.
abbrev counts : ℕ → ℕ
counts o = if o == 488 then 50 else if o == 492 then 2 else 0

abbrev pub disk : Volume
disk = record {
  info = λ s o.
      if s == 32 then entries o else if s == 40 then entries o else if s == 1 then counts o else 0;
  bytes = λ s o. 7;
  info_modified = λ s. false;
  bytes_modified = λ s. false;
}

disk-Chain : Chain table disk 2 (2 ∷ 5 ∷ [])
unfolding get_next_cluster low28 calculate_pos
disk-Chain =
    link {c = 2} {d = 5} (omega arith) (omega arith) refl refl
      (last {c = 5} (omega arith) (omega arith) refl)

Chain-walks_example :
    (get_all_cluster_of 4 table disk 2 ≡ some (2 ∷ 5 ∷ []))
    × (final_cluster 4 table disk 2 ≡ returned (some (last_or 0 (2 ∷ 5 ∷ []))))
    × ((i x : ℕ) → get_elem? (2 ∷ 5 ∷ []) i ≡ some x → get_cluster_at table disk 2 i ≡ x)
Chain-walks_example = Chain-walks (omega arith) 4 disk-Chain (omega arith)

next_free_cluster_finds_example : next_free_cluster 100 table disk 4 ≡ some 6
next_free_cluster_finds_example =
    next_free_cluster_finds table-IsLaidOut (omega arith) disk 100 4 6 (omega arith) (omega arith)
      (omega arith) (λ e lo hi. ground arith) refl
