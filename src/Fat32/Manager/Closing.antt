-- ===== src/Fat32/Manager/Closing.antt =====
-- The whole of `alloc_cluster`.
use bitos.Base.{
  ℕ, suc, ◌^◌, ◌≤◌, ◌<◌, ◌≡◌, refl, ◌∙◌, arith, true, false, some, List, [], ◌∷◌, ◌==◌, contains,
  length, returned, ==_self,
}
use bitos.Fat32.FsInfo.{first_free_cluster}
use bitos.Fat32.Volume.{Volume}
use bitos.Fat32.Table.{low28, get_next_cluster, bad_cluster}
use bitos.Fat32.Table.Entries.{IsLaidOut, get_next_cluster_lem}
use bitos.Fat32.Table.Chains.{ends}
use bitos.Fat32.Table.Search.{next_free_cluster_finds}
use bitos.Fat32.Manager.{Fat32Manager, close_chain, chain_from, alloc_cluster, free_clusters}
use bitos.Fat32.Manager.Runs.{
  Frees, nil, next, last_of, all_but_last, Same, last-not-contains, Linked-mono, Linked-Chain,
  IsClean,
}
use bitos.Fat32.Manager.Alloc.{Extended, Allocated, alloc_loop-Extended}
use bitos.Fat32.FileContent.Reading.{IsMounted}
use bitos.Fat32.Manager.WriteBack.{IsOrdered, entries-close_chain, counts-close_chain}

module _ (m : Fat32Manager) (v : IsMounted m) (laid : IsLaidOut m.fat) (ordered : IsOrdered m) where
  last_of_room :
      {vol : Volume} {c : ℕ} {cs : List ℕ}
      → c < m.fat.n_entry
      → Frees m.fat vol c cs
      → last_of c cs < m.fat.n_entry
  last_of_room h nil = h
  last_of_room h (next lt room used free rest) = last_of_room room rest

  not-contains-parts :
      (x c : ℕ) (cs : List ℕ)
      → contains x (c ∷ cs) ≡ false
      → (contains x (all_but_last c cs) ≡ false) × ((x == last_of c cs) ≡ false)
  not-contains-parts x c [] out = ground arith
  not-contains-parts x c (d ∷ cs) out = ground (arith, not-contains-parts x d cs)

  module _ (small : m.fat.n_entry ≤ bad_cluster) where
    Allocated-close_chain :
        (vol vol1 : Volume) {c : ℕ} {cs : List ℕ}
        → 2 ≤ c
        → c < m.fat.n_entry
        → IsClean m vol
        → Frees m.fat vol c cs
        → Extended m vol vol1 c cs
        → Allocated m vol
            (close_chain m (free_clusters m vol) (suc (length cs)) (last_of c cs) vol1)
            c
            cs
    unfolding low28
    Allocated-close_chain vol vol1 {c} {cs} pos room clean run after =
        let end = last_of c cs in
        let vol' = close_chain m (free_clusters m vol) (suc (length cs)) end vol1 in
        let last_room = last_of_room room run in
        let (out_last, le) = last-not-contains run in
        let low : 2 ≤ end = omega (arith, pos, le) in
        let high : end < 2 ^ 28 = omega (arith, last_room, small) in
        let clean1 = after.clean clean in
        let closed : (x : ℕ) → x < m.fat.n_entry → (x == end) ≡ false → Same m.fat vol1 vol' x =
          λ x h out.
            let (e1, e2) =
              entries-close_chain m v laid ordered (free_clusters m vol) (suc (length cs)) end x
                vol1 low last_room high clean1 h in
            ground (arith, e1, e2) in
        let (hit, hint) =
          counts-close_chain m v laid ordered (free_clusters m vol) (suc (length cs)) end vol1 low
            high clean1 in
        let (f1, f2) =
          entries-close_chain m v laid ordered (free_clusters m vol) (suc (length cs)) end end vol1
            low last_room high clean1 last_room in
        let ended : ends (get_next_cluster m.fat vol' end) ≡ true =
          rw (get_next_cluster_lem laid vol' end last_room, f1, f2, ==_self end) refl in
        let before : (x : ℕ) → contains x (all_but_last c cs) ≡ true → (x == end) ≡ false =
          λ x at. ground arith in
        record {
          chain =
              Linked-Chain laid small vol' (omega arith) room run
                (Linked-mono laid vol1 vol' (λ x h at. closed x h (before x at)) run after.linked)
                ended;
          others = λ x h out.
              let (out1, out2) = not-contains-parts x c cs out in
              let (a1, a2) = after.others x h out1 in
              let (b1, b2) = closed x h out2 in (b1 ∙ a1, b2 ∙ a2);
          count = hit;
          hint = hint;
        }

    -- Where the counted free clusters suffice, and the first free clusters behind the hint, which is not 0, are
    -- `c ∷ cs`, and with fuel for the table, `alloc_cluster` returns `c`. Then `c ∷ cs` is a chain, the words of all
    -- other clusters are unchanged, the count is down by its length, and the hint is its last cluster; also once
    -- the clusters that it cleared are written back. The volume is mounted, the copies of the table do not
    -- overlap and stand behind the counts and before the clusters, where the data queue has changed no sector, and
    -- the table has at most as many entries as the mark of a bad cluster.
    pub alloc_cluster-Allocated :
        (fuel : ℕ) (vol : Volume) (c : ℕ) (cs : List ℕ)
        → m.fat.n_entry ≤ fuel
        → IsClean m vol
        → 0 < first_free_cluster m.fsinfo vol
        → Frees m.fat vol (first_free_cluster m.fsinfo vol) (c ∷ cs)
        → suc (length cs) ≤ free_clusters m vol
        → (vol' : Volume) × (alloc_cluster fuel m vol (suc (length cs))
            ≡ some (returned (some c, vol')))
          × Allocated m vol vol' c cs
    unfolding alloc_cluster chain_from
    alloc_cluster-Allocated fuel vol c cs enough clean begun (next lt room used free run) many =
        let found =
          next_free_cluster_finds laid (omega arith) vol fuel (first_free_cluster m.fsinfo vol) c
            room lt (omega arith) used free in
        let (vol1, e, after) =
          alloc_loop-Extended m v laid small fuel vol c cs enough (omega arith) room run in
        (
          close_chain m (free_clusters m vol) (suc (length cs)) (last_of c cs) vol1,
          ground (arith, found, e),
          Allocated-close_chain vol vol1 (omega arith) room clean run after,
        )
