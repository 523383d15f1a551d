-- ===== src/Fat32/Creation/Writing.antt =====
-- The write of an entry into the last cluster of a directory.
use bitos.Base.{
  ℕ, ◌+◌, ◌-◌, ◌*◌, ◌/◌, ◌%◌, ◌^◌, ◌≤◌, ◌<◌, ◌≡◌, inl, inr, refl, ap, ◌∙◌, arith, true, false, ◌==◌,
  leb, if◌then◌else◌, Bool-cases, Option, none, some, List, returned, length, get_or,
}
use native.Mathlib.Nat.{mul_assoc}
use bitos.Fat32.Volume.{Volume}
use bitos.Fat32.Manager.{Fat32Manager, size_to_clusters, cluster_num_needed}
use bitos.Fat32.ShortDirEntry.{
  ShortDirEntry, attribute_directory, to_ascii_uppercase, get_name_uppercase, set_case,
  first_cluster,
}
use bitos.Fat32.ShortDirEntry
use bitos.Fat32.DirentBytes.{dirent_sz, AllBytes}
use bitos.Fat32.FileContent.Blocks.{div-mod_unique}
use bitos.Fat32.FileContent.Reading.{IsMounted}
use bitos.Fat32.VirtualFile.{
  FileSystem, VFile, is_dir, read_short_dirent, increase_size, modify_short_dirent, enlarge,
  write_content, with_volume,
}
use bitos.Fat32.VirtualFile
use bitos.Fat32.Directory.Slots.{IsDirectory, slots, count-eq, fewer}
use bitos.Fat32.Directory.Writing.{SlotWritten, write_at-SlotWritten}
use bitos.Fat32.Creation.{write_dirent}

module _ (m : Fat32Manager) (v : IsMounted m) (cs : List ℕ) where
  -- The clusters that a directory needs up to a slot of its last one.
  size_to_clusters-last :
      (i : ℕ)
      → i < slots m cs
      → slots m cs ≤ i + 16 * m.sectors_per_cluster
      → 512 * (m.sectors_per_cluster * length cs) + 512 * m.sectors_per_cluster < 2 ^ 32
      → size_to_clusters m (32 * i + 32) ≡ length cs
  unfolding size_to_clusters
  size_to_clusters-last i h last small =
      let total = m.sectors_per_cluster * length cs in
      let b : m.bytes_per_cluster ≡ 512 * m.sectors_per_cluster = v.cluster in
      let wraps : (32 * i + 32 + m.bytes_per_cluster + 2 ^ 32 - 1) % 2 ^ 32
          ≡ 32 * i + 32 + 512 * m.sectors_per_cluster - 1 =
        omega (arith, b, small, h, v.pos) in
      let assoc : 512 * m.sectors_per_cluster * length cs ≡ 512 * total =
        mul_assoc 512 m.sectors_per_cluster (length cs) in
      let rest = 32 * i + 32 + 512 * m.sectors_per_cluster - 1 - 512 * total in
      let sum : 32 * i + 32 + 512 * m.sectors_per_cluster - 1
          ≡ 512 * m.sectors_per_cluster * length cs + rest =
        omega (arith, assoc, last, v.pos) in
      ap (λ (x : ℕ). x / m.bytes_per_cluster) wraps
      ∙ ap (λ (x : ℕ). (32 * i + 32 + 512 * m.sectors_per_cluster - 1) / x) b
      ∙ (div-mod_unique (512 * m.sectors_per_cluster) (omega (arith, v.pos))
          (32 * i + 32 + 512 * m.sectors_per_cluster - 1) (length cs) rest sum
          (omega (arith, h, v.pos))).0

module _ (fs : FileSystem) (dir : VFile) {cs : List ℕ} (v : IsMounted fs.manager)
    (w : IsDirectory fs.manager fs.vol (read_short_dirent fs dir) cs)
    (directory : is_dir dir ≡ true)
    (modest : 512 * (fs.manager.sectors_per_cluster * length cs) ≤ 2 ^ 31) where
  none_needed :
      (walk i : ℕ)
      → length cs ≤ walk
      → i < slots fs.manager cs
      → slots fs.manager cs ≤ i + 16 * fs.manager.sectors_per_cluster
      → leb (32 * i + 32) (read_short_dirent fs dir).size ≡ false
      → cluster_num_needed walk fs.manager fs.vol
          (read_short_dirent fs dir).size
          (32 * i + 32)
          (is_dir dir)
          (first_cluster (read_short_dirent fs dir))
        ≡ some 0
  unfolding cluster_num_needed
  none_needed walk i enough h last beyond =
      let all = size_to_clusters-last fs.manager v cs i h last (omega (arith, modest, v.small)) in
      rw (beyond, directory)
        (ap
            (λ (o : Option ℕ). elim o [
              | none ↦ none
              | some old_clusters ↦
                  some
                    ((size_to_clusters fs.manager (32 * i + 32) + 2 ^ 32 - old_clusters) % 2 ^ 32)
            ])
            (count-eq v w walk enough)
          ∙ ap (λ (n : ℕ). some n) (omega (arith, all, fewer v w, modest)))

  -- A slot of the last cluster needs no new clusters.
  increase_size-last :
      (walk i : ℕ)
      → length cs ≤ walk
      → i < slots fs.manager cs
      → slots fs.manager cs ≤ i + 16 * fs.manager.sectors_per_cluster
      → increase_size walk fs dir (32 * i + 32) ≡ returned (some fs)
  unfolding increase_size
  increase_size-last walk i enough h last =
      elim (Bool-cases (leb (32 * i + 32) (read_short_dirent fs dir).size)) [
        | inl within ↦ rw within refl
        | inr beyond ↦ rw beyond (
            ap
              (λ (o : Option ℕ). elim o [
                | none ↦ returned none
                | some needed ↦
                    if needed == 0
                    then returned (
                        some (
                          if is_dir dir
                          then fs
                          else modify_short_dirent fs dir
                              (λ s. ShortDirEntry.set_size s (32 * i + 32))))
                    else enlarge walk fs dir needed (32 * i + 32)
              ])
              (none_needed walk i enough h last beyond)
            ∙ rw directory refl)
      ]

  module _
      (distinct : (i j : ℕ)
        → i < length cs
        → j < length cs
        → get_or cs i 2 ≡ get_or cs j 2
        → i ≡ j) where
    pub write_dirent-SlotWritten :
        (walk i : ℕ) (bytes : List ℕ)
        → length bytes ≡ dirent_sz
        → AllBytes bytes
        → length cs ≤ walk
        → i < slots fs.manager cs
        → slots fs.manager cs ≤ i + 16 * fs.manager.sectors_per_cluster
        → (vol' : Volume) × (write_dirent walk fs dir (32 * i) bytes
            ≡ returned (some (record fs { vol = vol' })))
          × SlotWritten fs.manager cs fs.vol vol' i bytes
    unfolding write_dirent VirtualFile.write_at write_content
    write_dirent-SlotWritten walk i bytes whole small enough h last =
        let (vol', done_, written) =
          write_at-SlotWritten v w distinct i bytes whole h walk enough small in
        let wraps : (32 * i + length bytes) % 2 ^ 64 % 2 ^ 32 ≡ 32 * i + 32 =
          omega (arith, whole, h, modest) in
        (vol', rw (wraps, increase_size-last walk i enough h last, done_) refl, written)
