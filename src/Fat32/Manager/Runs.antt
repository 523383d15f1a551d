-- ===== src/Fat32/Manager/Runs.antt =====
-- Runs of free clusters, and what the steps of the allocation leave alone.
use bitos.Base.{
  ℕ, zero, suc, ◌+◌, ◌%◌, ◌^◌, ==_of_ne, ◌≤◌, ◌<◌, ◌≡◌, ◌≢◌, refl, ◌∙◌, sym, arith, true, false,
  List, [], ◌∷◌, contains,
}
use bitos.Fat32.Volume.{Volume, clear_sector}
use bitos.Fat32.Table.{Fat, get_next_cluster, bad_cluster}
use bitos.Fat32.Table.Entries.{IsLaidOut, entry1, entry2, get_next_cluster_lem}
use bitos.Fat32.Table.Chains.{Chain, last, link, ends}
use bitos.Fat32.Manager.{Fat32Manager, clear_sectors, clear_cluster, first_sector_of_cluster}
use bitos.Fat32.FileContent.Reading.{IsMounted, first_sector_of_cluster-eq}

-- The first free clusters behind `cur`, in order.
pub data Frees (fat : Fat) (vol : Volume) : ℕ → List ℕ → Type 0 where
  nil : {cur : ℕ} → Frees fat vol cur []
  next :
      {cur r : ℕ} {rs : List ℕ}
      → cur < r
      → r < fat.n_entry
      → ((e : ℕ) → cur < e → e < r → entry1 fat vol e ≢ 0)
      → entry1 fat vol r ≡ 0
      → Frees fat vol r rs
      → Frees fat vol cur (r ∷ rs)

-- From `cur` the links lead through the list.
abbrev pub Linked : Fat → Volume → ℕ → List ℕ → Type 0
Linked fat vol cur [] = Unit {0}
Linked fat vol cur (c ∷ cs) = (get_next_cluster fat vol cur ≡ c) × Linked fat vol c cs

abbrev pub last_of : ℕ → List ℕ → ℕ
last_of cur [] = cur
last_of cur (c ∷ cs) = last_of c cs

abbrev pub all_but_last : ℕ → List ℕ → List ℕ
all_but_last cur [] = []
all_but_last cur (c ∷ cs) = cur ∷ all_but_last c cs

-- The words of cluster `x` are the same.
abbrev pub Same : Fat → Volume → Volume → ℕ → Type 0
Same fat vol vol' x =
    (entry1 fat vol' x ≡ entry1 fat vol x) × (entry2 fat vol' x ≡ entry2 fat vol x)

pub info-clear_sectors :
    (n sector : ℕ) (vol : Volume) → Volume.info (clear_sectors n sector vol) ≡ vol.info
unfolding clear_sectors clear_sector
info-clear_sectors zero sector vol = refl
info-clear_sectors (suc n) sector vol =
    info-clear_sectors n ((sector + 1) % 2 ^ 64) (clear_sector vol sector)

pub info-clear_cluster :
    (m : Fat32Manager) (vol : Volume) (c : ℕ) → Volume.info (clear_cluster m vol c) ≡ vol.info
unfolding clear_cluster
info-clear_cluster m vol c = info-clear_sectors _ _ vol

-- The data queue has changed none of the sectors before the clusters.
abbrev pub IsClean : Fat32Manager → Volume → Type 0
IsClean m vol = (s : ℕ) → s < m.root_sec → vol.bytes_modified s ≡ false

bytes_modified-clear_sectors :
    (n sector s : ℕ) (vol : Volume)
    → s < sector
    → sector + n < 2 ^ 64
    → Volume.bytes_modified (clear_sectors n sector vol) s ≡ vol.bytes_modified s
unfolding clear_sectors clear_sector
bytes_modified-clear_sectors zero sector s vol before fits = refl
bytes_modified-clear_sectors (suc n) sector s vol before fits =
    bytes_modified-clear_sectors n ((sector + 1) % 2 ^ 64) s (clear_sector vol sector)
      (omega (arith, fits)) (omega (arith, fits))
    ∙ rw (==_of_ne s sector (omega arith)) refl

-- A cluster of data lies behind these sectors.
pub clear_cluster-IsClean :
    {m : Fat32Manager} (v : IsMounted m) (vol : Volume) (c : ℕ)
    → 2 ≤ c
    → c < 2 ^ 28
    → IsClean m vol
    → IsClean m (clear_cluster m vol c)
unfolding clear_cluster
clear_cluster-IsClean {m} v vol c low high clean s h =
    let (e, small) = first_sector_of_cluster-eq v c low high in
    bytes_modified-clear_sectors m.sectors_per_cluster (first_sector_of_cluster m c) s vol
      (omega (arith, e)) (omega (arith, e, small, v.small))
    ∙ clean s h

module _ {fat : Fat} where
  pub Frees-mono :
      {vol : Volume} {cur : ℕ} {cs : List ℕ} (vol' : Volume)
      → ((e : ℕ) → cur < e → e < fat.n_entry → entry1 fat vol' e ≡ entry1 fat vol e)
      → Frees fat vol cur cs
      → Frees fat vol' cur cs
  Frees-mono vol' same nil = nil
  Frees-mono vol' same (next {cur} {r} lt room used free rest) =
      next lt room (λ e lo hi z. used e lo hi (sym (same e lo (omega arith)) ∙ z))
        (same r lt room ∙ free) (Frees-mono vol' (λ e lo hi. same e (omega arith) hi) rest)

  -- The clusters of a run lie behind its start.
  pub not-contains-run :
      {vol : Volume} {cur : ℕ} {cs : List ℕ} (x : ℕ)
      → x < cur
      → Frees fat vol cur cs
      → contains x (all_but_last cur cs) ≡ false
  not-contains-run x lt nil = refl
  not-contains-run x lt (next more room used free rest) =
      ground (arith, not-contains-run x (omega arith) rest)

  pub last-not-contains :
      {vol : Volume} {cur : ℕ} {cs : List ℕ}
      → Frees fat vol cur cs
      → (contains (last_of cur cs) (all_but_last cur cs) ≡ false) × (cur ≤ last_of cur cs)
  last-not-contains nil = (refl, omega arith)
  last-not-contains (next more room used free rest) = ground (arith, last-not-contains rest)

module _ {fat : Fat} (laid : IsLaidOut fat) where
  pub get_next_cluster-Same :
      (vol vol' : Volume) (x : ℕ)
      → x < fat.n_entry
      → Same fat vol vol' x
      → get_next_cluster fat vol' x ≡ get_next_cluster fat vol x
  get_next_cluster-Same vol vol' x h same =
      ground (arith, get_next_cluster_lem laid vol x h, get_next_cluster_lem laid vol' x h)

  -- Links survive where the clusters before the last keep their words.
  pub Linked-mono :
      {vol0 : Volume} {cur : ℕ} {cs : List ℕ} (vol vol' : Volume)
      → ((x : ℕ) → x < fat.n_entry → contains x (all_but_last cur cs) ≡ true → Same fat vol vol' x)
      → Frees fat vol0 cur cs
      → Linked fat vol cur cs
      → Linked fat vol' cur cs
  Linked-mono vol vol' same nil l = tt
  Linked-mono vol vol' same (next {cur} lt room used free rest) (e, l) = (
    get_next_cluster-Same vol vol' cur (omega arith) (same cur (omega arith) (ground arith)) ∙ e,
    Linked-mono vol vol' (λ x h at. same x h (ground arith)) rest l,
  )

  -- Links through a run of free clusters, the last of which ends it, make a chain.
  pub Linked-Chain :
      (small : fat.n_entry ≤ bad_cluster) {vol0 : Volume} {cur : ℕ} {cs : List ℕ} (vol : Volume)
      → 0 < cur
      → cur < fat.n_entry
      → Frees fat vol0 cur cs
      → Linked fat vol cur cs
      → ends (get_next_cluster fat vol (last_of cur cs)) ≡ true
      → Chain fat vol cur (cur ∷ cs)
  Linked-Chain small vol pos room nil l e = last pos room e
  Linked-Chain small vol pos room (next lt room' used free rest) (d, l) e =
      link pos room d (ground arith) (Linked-Chain small vol (omega arith) room' rest l e)
