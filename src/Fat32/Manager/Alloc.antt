-- ===== src/Fat32/Manager/Alloc.antt =====
-- What `alloc_cluster` does to the table and to the counts.
use bitos.Base.{
  ℕ, suc, ◌+◌, ◌-◌, ◌/◌, ◌≤◌, ◌<◌, ◌≡◌, ◌≢◌, refl, ap, ◌∙◌, sym, arith, false, some, List, [], ◌∷◌,
  contains, length, returned, ==_of_ne,
}
use bitos.Fat32.FsInfo.{first_free_cluster}
use bitos.Fat32.Volume.{Volume, set_info}
use bitos.Fat32.Table.{Fat, get_next_cluster, set_next_cluster, next_free_cluster, bad_cluster}
use bitos.Fat32.Table.Entries.{
  IsLaidOut, entry1, get_next_cluster-set_next_cluster, entries-set_next_cluster, low28-eq-mod,
  calculate_pos_fits,
}
use bitos.Fat32.Table.Chains.{Chain}
use bitos.Fat32.Table.Search.{next_free_cluster_finds}
use bitos.Fat32.Manager.{Fat32Manager, clear_cluster, alloc_loop, free_clusters}
use bitos.Fat32.FileContent.Reading.{IsMounted}
use bitos.Fat32.Manager.Runs.{
  Frees, nil, next, Linked, last_of, all_but_last, Same, info-clear_cluster, Frees-mono, IsClean,
  clear_cluster-IsClean, not-contains-run, get_next_cluster-Same,
}

-- What the loop of `alloc_cluster` leaves, from `cur` on and over the run `cs`.
pub record Extended (m : Fat32Manager) (vol vol' : Volume) (cur : ℕ) (cs : List ℕ) : Type 0 where
  pub linked : Linked m.fat vol' cur cs
  pub others :
      (x : ℕ) → x < m.fat.n_entry → contains x (all_but_last cur cs) ≡ false → Same m.fat vol vol' x
  pub counts : (s o : ℕ) → s < m.fat.fat1_sector → vol'.info s o ≡ vol.info s o
  pub clean : IsClean m vol → IsClean m vol'

-- The links are words.
pub set_next_cluster-IsClean :
    (m : Fat32Manager) (vol : Volume) (c n : ℕ)
    → IsClean m vol
    → IsClean m (set_next_cluster m.fat vol c n)
unfolding set_next_cluster set_info
set_next_cluster-IsClean m vol c n clean = clean

pub info-set_next_cluster :
    {fat : Fat} (laid : IsLaidOut fat) (vol : Volume) (c n s o : ℕ)
    → c < fat.n_entry
    → s < fat.fat1_sector
    → Volume.info (set_next_cluster fat vol c n) s o ≡ vol.info s o
unfolding set_next_cluster set_info
info-set_next_cluster {fat} laid vol c n s o h below =
    let apart1 : s ≢ fat.fat1_sector + c / 128 = λ e. omega arith in
    let apart2 : s ≢ fat.fat2_sector + c / 128 = λ e. omega (arith, laid.apart) in
    rw (calculate_pos_fits laid c h, ==_of_ne _ _ apart1, ==_of_ne _ _ apart2) refl

module _ (m : Fat32Manager) (v : IsMounted m) (laid : IsLaidOut m.fat)
    (small : m.fat.n_entry ≤ bad_cluster) where
  Same-clear_cluster : (vol : Volume) (c x : ℕ) → Same m.fat vol (clear_cluster m vol c) x
  Same-clear_cluster vol c x = rw (info-clear_cluster m vol c) (refl, refl)

  Same-link :
      (vol : Volume) (c n x : ℕ)
      → c < m.fat.n_entry
      → x < m.fat.n_entry
      → x ≢ c
      → Same m.fat vol (set_next_cluster m.fat (clear_cluster m vol c) c n) x
  Same-link vol c n x hc hx differ =
      let (e1, e2) = entries-set_next_cluster laid (clear_cluster m vol c) c n x hc hx in
      let (c1, c2) = Same-clear_cluster vol c x in (ground (arith, e1, c1), ground (arith, e2, c2))

  -- A round of the loop: `cur` is cleared and linked to `r`.
  linked_to : Volume → ℕ → ℕ → Volume
  linked_to vol cur r = set_next_cluster m.fat (clear_cluster m vol cur) cur r

  module _ (vol : Volume) {cur r : ℕ} (pos : 2 ≤ cur) (lt : cur < r)
      (room : r < m.fat.n_entry) where
    Frees-linked_to : {rs : List ℕ} → Frees m.fat vol r rs → Frees m.fat (linked_to vol cur r) r rs
    unfolding linked_to
    Frees-linked_to =
        Frees-mono {fat = m.fat} {vol = vol} (linked_to vol cur r)
          (λ e lo hi. (Same-link vol cur r e (omega arith) hi (λ q. omega arith)).0)

    finds :
        (fuel : ℕ)
        → m.fat.n_entry ≤ fuel
        → ((e : ℕ) → cur < e → e < r → entry1 m.fat vol e ≢ 0)
        → entry1 m.fat vol r ≡ 0
        → next_free_cluster fuel m.fat (clear_cluster m vol cur) cur ≡ some r
    finds fuel enough used free =
        let kept : (e : ℕ) → entry1 m.fat (clear_cluster m vol cur) e ≡ entry1 m.fat vol e =
          λ e. (Same-clear_cluster vol cur e).0 in
        next_free_cluster_finds laid (omega arith) (clear_cluster m vol cur) fuel cur r room lt
          (omega arith) (λ e lo hi z. used e lo hi (sym (kept e) ∙ z)) (kept r ∙ free)

    read_linked_to : get_next_cluster m.fat (linked_to vol cur r) cur ≡ r
    unfolding linked_to
    read_linked_to = ground (
      arith,
      get_next_cluster-set_next_cluster laid (clear_cluster m vol cur) cur r cur (omega arith)
          (omega arith),
      low28-eq-mod r,
    )

    Extended-linked_to :
        {vol' : Volume} {rs : List ℕ}
        → Frees m.fat vol r rs
        → Extended m (linked_to vol cur r) vol' r rs
        → Extended m vol vol' cur (r ∷ rs)
    unfolding linked_to
    Extended-linked_to {vol'} rest after = record {
      linked = (
        get_next_cluster-Same laid (linked_to vol cur r) vol' cur (omega arith)
              (after.others cur (omega arith) (not-contains-run cur lt rest))
            ∙ read_linked_to,
        after.linked,
      );
      others = λ x hx out.
          let differ : x ≢ cur = ground arith in
          let (a1, a2) = after.others x hx (ground arith) in
          let (b1, b2) = Same-link vol cur r x (omega arith) hx differ in (a1 ∙ b1, a2 ∙ b2);
      counts = λ s o h.
          after.counts s o h
          ∙ info-set_next_cluster laid (clear_cluster m vol cur) cur r s o (omega arith) h
          ∙ ap (λ f. f s o) (info-clear_cluster m vol cur);
      clean = λ k. after.clean (
          set_next_cluster-IsClean m (clear_cluster m vol cur) cur r
            (clear_cluster-IsClean v vol cur pos (omega arith) k));
    }

  alloc_loop_round :
      (n fuel : ℕ) (vol : Volume) (cur r : ℕ)
      → next_free_cluster fuel m.fat (clear_cluster m vol cur) cur ≡ some r
      → r ≢ 0
      → alloc_loop (suc n) fuel m vol cur ≡ alloc_loop n fuel m (linked_to vol cur r) r
  unfolding alloc_loop linked_to
  alloc_loop_round n fuel vol cur r e not0 = ground (arith, e)

  pub alloc_loop-Extended :
      (fuel : ℕ) (vol : Volume) (cur : ℕ) (cs : List ℕ)
      → m.fat.n_entry ≤ fuel
      → 2 ≤ cur
      → cur < m.fat.n_entry
      → Frees m.fat vol cur cs
      → (vol' : Volume) × (alloc_loop (length cs) fuel m vol cur
          ≡ some (returned (last_of cur cs, vol')))
        × Extended m vol vol' cur cs
  unfolding alloc_loop linked_to
  alloc_loop-Extended fuel vol cur [] enough pos room nil = (
    vol,
    refl,
    record {
      linked = tt;
      others = λ x hx out. (refl, refl);
      counts = λ s o h. refl;
      clean = λ k. k;
    },
  )
  alloc_loop-Extended fuel vol cur (r ∷ rs) enough pos room (next lt room' used free rest) =
      let (vol', e, after) =
        alloc_loop-Extended fuel (linked_to vol cur r) r rs enough (omega arith) room'
          (Frees-linked_to vol pos lt room' rest) in
      let not0 : r ≢ 0 = λ q. omega arith in
      (
        vol',
        alloc_loop_round (length rs) fuel vol cur r (finds vol pos lt room' fuel enough used free)
              not0
            ∙ e,
        Extended-linked_to vol pos lt room' rest after,
      )

-- What an allocation of the chain `c ∷ cs` promises.
pub record Allocated (m : Fat32Manager) (vol vol' : Volume) (c : ℕ) (cs : List ℕ) : Type 0 where
  pub chain : Chain m.fat vol' c (c ∷ cs)
  pub others : (x : ℕ) → x < m.fat.n_entry → contains x (c ∷ cs) ≡ false → Same m.fat vol vol' x
  pub count : free_clusters m vol' ≡ free_clusters m vol - suc (length cs)
  pub hint : first_free_cluster m.fsinfo vol' ≡ last_of c cs
