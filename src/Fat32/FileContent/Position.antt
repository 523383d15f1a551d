-- ===== src/Fat32/FileContent/Position.antt =====
-- Where an offset within a chain lies.
use bitos.Base.{
  ℕ, ◌+◌, ◌-◌, ◌*◌, ◌/◌, ◌%◌, ◌^◌, ◌≤◌, ◌<◌, ◌≡◌, sym, ap, ◌∙◌, arith, List, length, get_or,
  get_elem?-eq-get_or,
}
use native.Mathlib.Nat.{mul_comm, div-add-mod}
use bitos.Fat32.Volume.{Volume}
use bitos.Fat32.Table.{get_cluster_at}
use bitos.Fat32.Table.Chains.{Chain, Chain-walks}
use bitos.Fat32.Manager.{Fat32Manager, cluster_of_offset}
use bitos.Fat32.ShortDirEntry.{ShortDirEntry, first_cluster}
use bitos.Fat32.FileContent.{get_pos}
use bitos.Fat32.FileContent.Blocks.{cluster_of, within}
use bitos.Fat32.FileContent.Reading.{IsMounted, cluster_at, block_at, block_bound}

pub cluster_of_offset-eq :
    {m : Fat32Manager} (v : IsMounted m) (offset : ℕ)
    → offset < 2 ^ 32
    → offset % 2 ^ 32 / m.bytes_per_cluster ≡ offset / 512 / m.sectors_per_cluster
cluster_of_offset-eq {m} v offset h =
    ap (λ (x : ℕ). x / m.bytes_per_cluster)
      (let small : offset % 2 ^ 32 ≡ offset = omega (arith, h) in small)
    ∙ ap (λ (x : ℕ). offset / x) v.cluster
    ∙ cluster_of m.sectors_per_cluster v.pos offset

module _ (e : ShortDirEntry) {m : Fat32Manager} {vol : Volume} {cs : List ℕ} (v : IsMounted m)
    (ch : Chain m.fat vol (first_cluster e) cs) (low : (i : ℕ) → 2 ≤ get_or cs i 2) {end : ℕ}
    (inside : end ≤ 512 * (m.sectors_per_cluster * length cs)) (bounded : end < 2 ^ 32) where
  pub get_pos-within :
      (offset : ℕ)
      → offset < end
      → ((get_pos m vol e offset).0 ≡ cluster_at m cs (offset / 512))
        × ((get_pos m vol e offset).1 ≡ block_at m cs (offset / 512))
  unfolding get_pos cluster_of_offset
  get_pos-within offset h =
      let b = offset / 512 in
      let bytes = 512 * m.sectors_per_cluster in
      let index = cluster_of_offset-eq v offset (omega (arith, bounded)) in
      let (there, small, first) = block_bound v ch low inside bounded b (omega (arith, h)) in
      let (_, _, at) = Chain-walks (omega (arith, v.entries)) (length cs) ch (omega arith) in
      let cluster : get_cluster_at m.fat vol (first_cluster e) (b / m.sectors_per_cluster)
          ≡ cluster_at m cs b =
        at _ _ (get_elem?-eq-get_or cs (b / m.sectors_per_cluster) 2 there) in
      let taken : offset % 2 ^ 32 / m.bytes_per_cluster * m.bytes_per_cluster
          ≡ bytes * (offset / bytes) =
        ap (λ (x : ℕ). x * m.bytes_per_cluster) index
        ∙ ap (λ (x : ℕ). b / m.sectors_per_cluster * x) v.cluster
        ∙ ap (λ (x : ℕ). x * bytes) (sym (cluster_of m.sectors_per_cluster v.pos offset))
        ∙ mul_comm (offset / bytes) bytes in
      let into : (offset
              + 2 ^ 64
              - offset % 2 ^ 32 / m.bytes_per_cluster * m.bytes_per_cluster % 2 ^ 64)
            % 2 ^ 64
            / m.bytes_per_sector
          ≡ b % m.sectors_per_cluster =
        ap (λ (x : ℕ). x / m.bytes_per_sector)
          (let rest : (offset
                    + 2 ^ 64
                    - offset % 2 ^ 32 / m.bytes_per_cluster * m.bytes_per_cluster % 2 ^ 64)
                  % 2 ^ 64
                ≡ offset % bytes =
              omega (arith, taken, div-add-mod offset bytes, bounded) in
            rest)
        ∙ ap (λ (x : ℕ). offset % bytes / x) v.sector
        ∙ within m.sectors_per_cluster v.pos offset in
      let found = ap (get_cluster_at m.fat vol (first_cluster e)) index ∙ cluster in
      (found, rw (found, into) (omega (arith, first, small)))
