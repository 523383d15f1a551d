-- ===== src/Fat32/Manager/Dealloc.antt =====
-- What `dealloc_cluster` does to the table and to the counts.
use bitos.Base.{
  ℕ, suc, ◌+◌, ◌-◌, ◌%◌, ◌^◌, ◌≤◌, ◌<◌, ◌≡◌, refl, ◌∙◌, arith, Bool, true, false, List, [], ◌∷◌,
  ltb, ◌&&◌, if◌then◌else◌, contains, length, Bool-cases, inl, inr, some, returned, ==_self,
}
use bitos.Fat32.FsInfo.{
  read_free_clusters, write_free_clusters, first_free_cluster, write_first_free_cluster,
}
use bitos.Fat32.Volume.{Volume, set_info}
use bitos.Fat32.Table.{Fat, set_next_cluster, free_cluster, bad_cluster, get_all_cluster_of}
use bitos.Fat32.Table.Chains.{Chain-walks}
use bitos.Fat32.Table.Entries.{IsLaidOut, entry1, entries-set_next_cluster}
use bitos.Fat32.Manager.{Fat32Manager, alloc_cluster, release_all, dealloc_cluster, free_clusters}
use bitos.Fat32.Manager.Runs.{Frees, nil, next, IsClean}
use bitos.Fat32.FileContent.Reading.{IsMounted}
use bitos.Fat32.Manager.Alloc.{info-set_next_cluster}
use bitos.Fat32.Manager.WriteBack.{IsOrdered, Same-counts}
use bitos.Fat32.Manager.Closing.{alloc_cluster-Allocated}

-- All clusters of the list have entries in the table.
abbrev pub AllBelow : ℕ → List ℕ → Type 0
AllBelow n [] = Unit {0}
AllBelow n (c ∷ cs) = (c < n) × AllBelow n cs

module _ {fat : Fat} (laid : IsLaidOut fat) where
  release_all_frees :
      (cs : List ℕ) (vol : Volume) (x : ℕ)
      → AllBelow fat.n_entry cs
      → x < fat.n_entry
      → entry1 fat (release_all fat cs vol) x ≡ (if contains x cs then 0 else entry1 fat vol x)
  unfolding release_all
  release_all_frees [] vol x below h = refl
  release_all_frees (c ∷ cs) vol x (hc, below) h =
      let (e1, e2) = entries-set_next_cluster laid vol c free_cluster x hc h in
      ground (arith, e1, release_all_frees cs (set_next_cluster fat vol c free_cluster) x below h)

  info-release_all :
      (cs : List ℕ) (vol : Volume) (s o : ℕ)
      → AllBelow fat.n_entry cs
      → s < fat.fat1_sector
      → Volume.info (release_all fat cs vol) s o ≡ vol.info s o
  unfolding release_all
  info-release_all [] vol s o below h = refl
  info-release_all (c ∷ cs) vol s o (hc, below) h =
      info-release_all cs (set_next_cluster fat vol c free_cluster) s o below h
      ∙ info-set_next_cluster laid vol c free_cluster s o hc h

module _ (m : Fat32Manager) (v : IsMounted m) (laid : IsLaidOut m.fat) (ordered : IsOrdered m) where
  -- Lowering the hint, or not, changes neither the table nor the count.
  hint_apart :
      (lower : Bool) (vol : Volume) (h : ℕ)
      → ((x : ℕ)
          → x < m.fat.n_entry
          → entry1 m.fat (if lower then write_first_free_cluster m.fsinfo vol h else vol) x
            ≡ entry1 m.fat vol x)
        × (free_clusters m (if lower then write_first_free_cluster m.fsinfo vol h else vol)
            ≡ free_clusters m vol)
  unfolding write_first_free_cluster set_info free_clusters read_free_clusters
  hint_apart true vol h = (
    λ x room. (Same-counts m v laid ordered vol 492 h x room).0,
    rw (==_self m.fsinfo.sector_num) refl,
  )
  hint_apart false vol h = (λ x room. refl, refl)

  counted_apart :
      (vol : Volume) (total : ℕ)
      → ((x : ℕ)
          → x < m.fat.n_entry
          → entry1 m.fat (write_free_clusters m.fsinfo vol total) x ≡ entry1 m.fat vol x)
        × (free_clusters m (write_free_clusters m.fsinfo vol total) ≡ total)
  unfolding write_free_clusters set_info free_clusters read_free_clusters
  counted_apart vol total = (
    λ x room. (Same-counts m v laid ordered vol 488 total x room).0,
    rw (==_self m.fsinfo.sector_num) refl,
  )

  -- `dealloc_cluster` of clusters of the table frees their entries in the first copy and no other, and
  -- adds their number to the count of free clusters, in 32 bits. The copies of the table do not overlap,
  -- the counts stand before it, and the count is below 2 ^ 32.
  pub dealloc_cluster_frees :
      (vol : Volume) (cs : List ℕ)
      → AllBelow m.fat.n_entry cs
      → free_clusters m vol < 2 ^ 32
      → ((x : ℕ)
          → x < m.fat.n_entry
          → entry1 m.fat (dealloc_cluster m vol cs) x
            ≡ (if contains x cs then 0 else entry1 m.fat vol x))
        × (free_clusters m (dealloc_cluster m vol cs) ≡ (free_clusters m vol + length cs) % 2 ^ 32)
  unfolding dealloc_cluster
  dealloc_cluster_frees vol [] below small = (λ x h. refl, omega arith)
  dealloc_cluster_frees vol (c ∷ cs) below small =
      let released = release_all m.fat (c ∷ cs) vol in
      let total = (free_clusters m vol + length (c ∷ cs)) % 2 ^ 32 in
      let written = write_free_clusters m.fsinfo released total in
      let (h1, h2) =
        hint_apart (ltb 2 c && ltb c (first_free_cluster m.fsinfo written)) written (c - 1) in
      let (t1, t2) = counted_apart released total in
      (λ x h. h1 x h ∙ t1 x h ∙ release_all_frees laid (c ∷ cs) vol x below h, h2 ∙ t2)

  -- The clusters of a run are in the table and free.
  Frees_below :
      {vol : Volume} {cur : ℕ} {cs : List ℕ} → Frees m.fat vol cur cs → AllBelow m.fat.n_entry cs
  Frees_below nil = tt
  Frees_below (next lt room used free rest) = (room, Frees_below rest)

  Frees_free :
      {vol : Volume} {cur : ℕ} {cs : List ℕ} (x : ℕ)
      → Frees m.fat vol cur cs
      → contains x cs ≡ true
      → entry1 m.fat vol x ≡ 0
  Frees_free x nil at = absurd (cc)
  Frees_free x (next lt room used free rest) at = ground (arith, Frees_free x rest)

  -- The clusters that `alloc_cluster` chains are those that `get_all_cluster_of` collects from the first
  -- of them, and when `dealloc_cluster` gives them back, the first copy of the table and the count of
  -- free clusters are as before. The conditions are those of `alloc_cluster`, and the count is
  -- below 2 ^ 32.
  pub dealloc_cluster-alloc_cluster :
      (small : m.fat.n_entry ≤ bad_cluster) (fuel : ℕ) (vol : Volume) (c : ℕ) (cs : List ℕ)
      → m.fat.n_entry ≤ fuel
      → IsClean m vol
      → 0 < first_free_cluster m.fsinfo vol
      → Frees m.fat vol (first_free_cluster m.fsinfo vol) (c ∷ cs)
      → suc (length cs) ≤ free_clusters m vol
      → free_clusters m vol < 2 ^ 32
      → (vol' : Volume) × (alloc_cluster fuel m vol (suc (length cs))
          ≡ some (returned (some c, vol')))
        × (get_all_cluster_of (suc (length cs)) m.fat vol' c ≡ some (c ∷ cs))
        × ((x : ℕ)
            → x < m.fat.n_entry
            → entry1 m.fat (dealloc_cluster m vol' (c ∷ cs)) x ≡ entry1 m.fat vol x)
        × (free_clusters m (dealloc_cluster m vol' (c ∷ cs)) ≡ free_clusters m vol)
  dealloc_cluster-alloc_cluster small fuel vol c cs enough clean begun run many few =
      let (vol', e, after) =
        alloc_cluster-Allocated m v laid ordered small fuel vol c cs enough clean begun run many in
      let less : free_clusters m vol' < 2 ^ 32 = omega (arith, after.count) in
      let (freed, total) = dealloc_cluster_frees vol' (c ∷ cs) (Frees_below run) less in
      (
        vol',
        e,
        (Chain-walks (omega arith) (suc (length cs)) after.chain (omega arith)).0,
        λ x h. elim (Bool-cases (contains x (c ∷ cs))) [
          | inl at ↦ freed x h ∙ ground (arith, Frees_free x run at)
          | inr out ↦ freed x h ∙ ground (arith, after.others x h out)
        ],
        omega (arith, total, after.count),
      )
