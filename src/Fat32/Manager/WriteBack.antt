-- ===== src/Fat32/Manager/WriteBack.antt =====
-- The end of `alloc_cluster`, and what writing the caches back leaves of the table and the counts.
use bitos.Base.{
  ℕ, ◌+◌, ◌-◌, ◌*◌, ◌/◌, ◌%◌, ◌^◌, ◌≤◌, ◌<◌, ◌≡◌, ◌≢◌, refl, ap, ◌∙◌, arith, ◌==◌, if◌then◌else◌,
  ==_of_ne, ==_self,
}
use bitos.Fat32.FsInfo.{
  read_free_clusters, write_free_clusters, first_free_cluster, write_first_free_cluster,
}
use bitos.Fat32.Volume.{Volume, set_info, write_to_dev}
use bitos.Fat32.Table.{set_next_cluster, set_end, end_cluster}
use bitos.Fat32.Table.Entries.{IsLaidOut, entry1, entry2, entries-set_next_cluster}
use bitos.Fat32.Manager.{Fat32Manager, clear_cluster, close_chain, free_clusters, cache_write_back}
use bitos.Fat32.Manager.Runs.{Same, info-clear_cluster, IsClean, clear_cluster-IsClean}
use bitos.Fat32.Manager.Alloc.{set_next_cluster-IsClean}
use bitos.Fat32.FileContent.Reading.{IsMounted}

-- What is written back before the clusters shows as it did.
info-cache_write_back :
    (m : Fat32Manager) (vol : Volume) (s o : ℕ)
    → IsClean m vol
    → s < m.root_sec
    → Volume.info (cache_write_back vol) s o ≡ vol.info s o
unfolding cache_write_back write_to_dev
info-cache_write_back m vol s o clean h = rw (clean s h) refl

-- The counts stand before the table, and the table before the clusters.
pub record IsOrdered (m : Fat32Manager) : Type 0 where
  pub counted : m.fsinfo.sector_num < m.fat.fat1_sector
  pub below : m.fat.fat2_sector + m.fat.n_sectors ≤ m.root_sec

module _ (m : Fat32Manager) (v : IsMounted m) (laid : IsLaidOut m.fat) (ordered : IsOrdered m) where
  -- The counts stand before the table.
  pub Same-counts :
      (vol : Volume) (o v x : ℕ)
      → x < m.fat.n_entry
      → Same m.fat vol (set_info vol m.fsinfo.sector_num o v) x
  unfolding set_info
  Same-counts vol o v x h =
      let apart1 : m.fat.fat1_sector + x / 128 ≢ m.fsinfo.sector_num =
        λ e. omega (arith, ordered.counted) in
      let apart2 : m.fat.fat2_sector + x / 128 ≢ m.fsinfo.sector_num =
        λ e. omega (arith, laid.apart, ordered.counted) in
      rw (==_of_ne _ _ apart1, ==_of_ne _ _ apart2) (refl, refl)

  -- The end of the chain before the caches are written back, which changes neither the table nor the counts.
  closing : (free num c : ℕ) → Volume → Volume
  closing free num c vol =
      write_first_free_cluster m.fsinfo
        (write_free_clusters m.fsinfo (set_end m.fat (clear_cluster m vol c) c) (free - num)) c

  closing-IsClean :
      (free num c : ℕ) (vol : Volume)
      → 2 ≤ c
      → c < 2 ^ 28
      → IsClean m vol
      → IsClean m (closing free num c vol)
  unfolding closing set_end write_free_clusters write_first_free_cluster set_info
  closing-IsClean free num c vol low high clean =
      set_next_cluster-IsClean m (clear_cluster m vol c) c end_cluster
        (clear_cluster-IsClean v vol c low high clean)

  info-close_chain :
      (free num c : ℕ) (vol : Volume) (s o : ℕ)
      → 2 ≤ c
      → c < 2 ^ 28
      → IsClean m vol
      → s < m.root_sec
      → Volume.info (close_chain m free num c vol) s o ≡ Volume.info (closing free num c vol) s o
  unfolding close_chain closing
  info-close_chain free num c vol s o low high clean h =
      info-cache_write_back m (closing free num c vol) s o
        (closing-IsClean free num c vol low high clean) h

  entries-closing :
      (free num c x : ℕ) (vol : Volume)
      → c < m.fat.n_entry
      → x < m.fat.n_entry
      → (entry1 m.fat (closing free num c vol) x
          ≡ (if x == c then end_cluster else entry1 m.fat vol x))
        × (entry2 m.fat (closing free num c vol) x
            ≡ (if x == c then end_cluster else entry2 m.fat vol x))
  unfolding closing set_end write_free_clusters write_first_free_cluster
  entries-closing free num c x vol hc hx =
      let cleared = clear_cluster m vol c in
      let linked = set_next_cluster m.fat cleared c end_cluster in
      let counted1 = set_info linked m.fsinfo.sector_num 488 (free - num) in
      let (e1, e2) = entries-set_next_cluster laid cleared c end_cluster x hc hx in
      let (f1, f2) = Same-counts linked 488 (free - num) x hx in
      let (g1, g2) = Same-counts counted1 492 c x hx in
      let kept = info-clear_cluster m vol c in
      (
        (g1 ∙ f1 ∙ e1)
            ∙ ap
                (λ i.
                  if x == c then end_cluster else i (m.fat.fat1_sector + x / 128) (4 * (x % 128)))
                kept,
        (g2 ∙ f2 ∙ e2)
            ∙ ap
                (λ i.
                  if x == c then end_cluster else i (m.fat.fat2_sector + x / 128) (4 * (x % 128)))
                kept,
      )

  pub entries-close_chain :
      (free num c x : ℕ) (vol : Volume)
      → 2 ≤ c
      → c < m.fat.n_entry
      → c < 2 ^ 28
      → IsClean m vol
      → x < m.fat.n_entry
      → (entry1 m.fat (close_chain m free num c vol) x
          ≡ (if x == c then end_cluster else entry1 m.fat vol x))
        × (entry2 m.fat (close_chain m free num c vol) x
            ≡ (if x == c then end_cluster else entry2 m.fat vol x))
  entries-close_chain free num c x vol low hc high clean hx =
      let (e1, e2) = entries-closing free num c x vol hc hx in
      (
        info-close_chain free num c vol (m.fat.fat1_sector + x / 128) (4 * (x % 128)) low high clean
              (omega (arith, laid.apart, laid.room, ordered.below))
            ∙ e1,
        info-close_chain free num c vol (m.fat.fat2_sector + x / 128) (4 * (x % 128)) low high clean
              (omega (arith, laid.room, ordered.below))
            ∙ e2,
      )

  counts-closing :
      (free num c : ℕ) (vol : Volume)
      → (free_clusters m (closing free num c vol) ≡ free - num)
        × (first_free_cluster m.fsinfo (closing free num c vol) ≡ c)
  unfolding closing write_free_clusters write_first_free_cluster set_info free_clusters
      read_free_clusters first_free_cluster
  counts-closing free num c vol = rw (==_self m.fsinfo.sector_num) (refl, refl)

  pub counts-close_chain :
      (free num c : ℕ) (vol : Volume)
      → 2 ≤ c
      → c < 2 ^ 28
      → IsClean m vol
      → (free_clusters m (close_chain m free num c vol) ≡ free - num)
        × (first_free_cluster m.fsinfo (close_chain m free num c vol) ≡ c)
  unfolding free_clusters read_free_clusters first_free_cluster
  counts-close_chain free num c vol low high clean =
      let before : m.fsinfo.sector_num < m.root_sec =
        omega (arith, laid.apart, ordered.counted, ordered.below) in
      let (e1, e2) = counts-closing free num c vol in
      (
        info-close_chain free num c vol m.fsinfo.sector_num 488 low high clean before ∙ e1,
        info-close_chain free num c vol m.fsinfo.sector_num 492 low high clean before ∙ e2,
      )
