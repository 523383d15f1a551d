-- ===== src/Fat32/FileContent/Access.antt =====
-- Where an access to a file begins and ends, and `read_at`.
use bitos.Base.{
  range, ℕ, ◌+◌, ◌-◌, ◌*◌, ◌/◌, ◌^◌, ◌≤◌, ◌<◌, ◌≡◌, inl, inr, ap, ◌∙◌, arith, min, true, false, leb,
  Bool-cases, Option, some, none, List, returned, length, get_or,
}
use bitos.Fat32.Volume.{Volume}
use bitos.Fat32.Table.{end_cluster}
use bitos.Fat32.Table.Chains.{Chain}
use bitos.Fat32.Manager.{Fat32Manager}
use bitos.Fat32.ShortDirEntry.{ShortDirEntry, is_dir, first_cluster}
use bitos.Fat32.FileContent.{get_pos, access_end, read_to, read_at}
use bitos.Fat32.FileContent.Position.{get_pos-within}
use bitos.Fat32.FileContent.Reading.{
  IsMounted, cluster_at, block_at, byte_at, block_bound, Chain-bound, read_blocks-range,
}

-- A file with the clusters `cs`, all of them data clusters that hold its size.
pub record IsFile (m : Fat32Manager) (vol : Volume) (e : ShortDirEntry) (cs : List ℕ) : Type 0 where
  pub file : is_dir e ≡ false
  pub chain : Chain m.fat vol (first_cluster e) cs
  pub data_clusters : (i : ℕ) → 2 ≤ get_or cs i 2
  pub holds : e.size ≤ 512 * (m.sectors_per_cluster * length cs)
  pub size : e.size < 2 ^ 32

not_end : (c : ℕ) → c < end_cluster → leb end_cluster c ≡ false
not_end c h = ground arith

module _ {m : Fat32Manager} {vol : Volume} {e : ShortDirEntry} {cs : List ℕ} (v : IsMounted m)
    (w : IsFile m vol e cs) where
  pub access_end-eq :
      (fuel offset len : ℕ)
      → offset + len < 2 ^ 64
      → access_end fuel m vol e offset len ≡ some (min (offset + len) e.size)
  unfolding access_end
  access_end-eq fuel offset len h =
      rw w.file (ap (λ (x : ℕ). some (min x e.size)) (omega (arith, h)))

  pub get_pos-eq :
      (offset : ℕ)
      → offset < e.size
      → ((get_pos m vol e offset).0 ≡ cluster_at m cs (offset / 512))
        × ((get_pos m vol e offset).1 ≡ block_at m cs (offset / 512))
  get_pos-eq = get_pos-within e v w.chain w.data_clusters w.holds w.size

  read_to-range :
      (fuel offset end : ℕ)
      → end ≤ e.size
      → end - offset ≤ fuel
      → read_to fuel m vol e offset end
        ≡ returned (some (range (byte_at vol m cs) offset (end - offset)))
  unfolding read_to
  read_to-range fuel offset end inside enough = elim (Bool-cases (leb end offset)) [
    | inl past ↦
        rw past (ap (λ (n : ℕ). returned (some (range (byte_at vol m cs) offset n))) (nothing past))
    | inr more ↦
        let before_end : offset < end = ground arith in
        let (cluster, sector) = get_pos-eq offset (omega arith) in
        let (there, _, _) =
          block_bound v w.chain w.data_clusters w.holds w.size (offset / 512) (omega arith) in
        let going : leb end_cluster (cluster_at m cs (offset / 512)) ≡ false = not_end _ (
          omega (
            arith,
            Chain-bound (offset / 512 / m.sectors_per_cluster) 2 w.chain there,
            v.entries,
          )) in
        rw (more, cluster, sector, going, w.file)
          (read_blocks-range v w.chain w.data_clusters (omega (arith, w.holds))
            (omega (arith, w.size)) fuel offset before_end enough)
  ]
    where
      nothing : leb end offset ≡ true → 0 ≡ end - offset
      nothing past = ground arith

  -- `read_at` of a file gives the bytes of its chain from the offset on, up to the end of the buffer or of
  -- the file; with as much fuel as there are bytes.
  pub read_at-range :
      (fuel offset len : ℕ)
      → offset + len < 2 ^ 64
      → len ≤ fuel
      → read_at fuel m vol e offset len
        ≡ returned (some (range (byte_at vol m cs) offset (min (offset + len) e.size - offset)))
  unfolding read_at
  read_at-range fuel offset len fits enough =
      ap
        (λ (o : Option ℕ). elim o [
          | none ↦ returned none
          | some end ↦ read_to fuel m vol e offset end
        ])
        (access_end-eq fuel offset len fits)
      ∙ read_to-range fuel offset (min (offset + len) e.size) (omega arith) (omega arith)
