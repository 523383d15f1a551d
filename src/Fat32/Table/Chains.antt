-- ===== src/Fat32/Table/Chains.antt =====
-- Chains of clusters, and the loops that walk them.
use bitos.Base.{
  ℕ, zero, suc, ◌^◌, ◌≤◌, ◌<◌, ◌≡◌, refl, arith, Bool, true, false, ◌||◌, some, List, [], ◌∷◌, ◌==◌,
  leb, length, get_elem?, contains, returned,
}
use bitos.Fat32.Volume.{Volume}
use bitos.Fat32.Table.{
  Fat, low28, end_cluster, get_next_cluster, set_next_cluster, get_cluster_at, follow,
  final_cluster, seek_final, get_all_cluster_of,
}
use bitos.Fat32.Table.Entries.{IsLaidOut, low28-eq-mod, get_next_cluster-set_next_cluster}

-- A link that ends a chain.
abbrev pub ends : ℕ → Bool
ends n = leb end_cluster n || n == 0

-- From `c` the links lead through the clusters of the list, which have entries, to an end.
pub data Chain (fat : Fat) (vol : Volume) : ℕ → List ℕ → Type 0 where
  last :
      {c : ℕ}
      → 0 < c
      → c < fat.n_entry
      → ends (get_next_cluster fat vol c) ≡ true
      → Chain fat vol c (c ∷ [])
  link :
      {c d : ℕ} {cs : List ℕ}
      → 0 < c
      → c < fat.n_entry
      → get_next_cluster fat vol c ≡ d
      → ends d ≡ false
      → Chain fat vol d cs
      → Chain fat vol c (c ∷ cs)

abbrev pub last_or : ℕ → List ℕ → ℕ
last_or d [] = d
last_or d (x ∷ xs) = last_or x xs

low28_small : (c : ℕ) → c < 2 ^ 28 → low28 c ≡ c
low28_small c h = omega (arith, low28-eq-mod c)

module _ {fat : Fat} (small : fat.n_entry ≤ 2 ^ 28) where
  pub get_all_cluster_of-Chain :
      {vol : Volume} {c : ℕ} {cs : List ℕ} (k : ℕ)
      → Chain fat vol c cs
      → length cs ≤ k
      → get_all_cluster_of k fat vol c ≡ some cs
  unfolding get_all_cluster_of
  get_all_cluster_of-Chain zero (last p h e) fuel = absurd (omega arith)
  get_all_cluster_of-Chain zero (link p h e n ch) fuel = absurd (omega arith)
  get_all_cluster_of-Chain (suc k) (last {c} p h e) fuel = ground (arith, low28_small c)
  get_all_cluster_of-Chain (suc k) (link {c} {d} p h e n ch) fuel =
      ground (arith, low28_small c, get_all_cluster_of-Chain k ch)

  pub last_or-Chain :
      {vol : Volume} (c : ℕ) {d : ℕ} {cs : List ℕ}
      → Chain fat vol d cs
      → last_or 0 (c ∷ cs) ≡ last_or 0 cs
  last_or-Chain c (last p h e) = refl
  last_or-Chain c (link p h e n ch) = refl

  seek_final-Chain :
      {vol : Volume} {c : ℕ} {cs : List ℕ} (k : ℕ)
      → Chain fat vol c cs
      → length cs ≤ k
      → seek_final k fat vol c ≡ some (last_or 0 cs)
  unfolding seek_final
  seek_final-Chain zero (last p h e) fuel = absurd (omega arith)
  seek_final-Chain zero (link p h e n ch) fuel = absurd (omega arith)
  seek_final-Chain (suc k) (last {c} p h e) fuel = ground (arith, low28_small c)
  seek_final-Chain (suc k) (link {c} {d} p h e n ch) fuel =
      ground (arith, low28_small c, seek_final-Chain k ch, last_or-Chain c ch)

  pub follow-Chain :
      {vol : Volume} {c : ℕ} {cs : List ℕ} (i x : ℕ)
      → Chain fat vol c cs
      → get_elem? cs i ≡ some x
      → follow fat vol i c ≡ x
  unfolding follow
  follow-Chain zero x (last p h e) at = ground arith
  follow-Chain zero x (link p h e n ch) at = ground arith
  follow-Chain (suc i) x (last p h e) at = absurd (cc)
  follow-Chain (suc i) x (link {d} p h e n ch) at = ground (arith, follow-Chain i x ch at)

  member_small :
      {vol : Volume} {c : ℕ} {cs : List ℕ} (i x : ℕ)
      → Chain fat vol c cs
      → get_elem? cs i ≡ some x
      → x < 2 ^ 28
  member_small zero x (last p h e) at = ground arith
  member_small zero x (link p h e n ch) at = ground arith
  member_small (suc i) x (last p h e) at = absurd (cc)
  member_small (suc i) x (link p h e n ch) at = member_small i x ch at

  -- On a chain, with as much fuel as it has clusters, `get_all_cluster_of` collects it,
  -- `final_cluster` finds its last cluster and `get_cluster_at` the cluster at each index of it. The
  -- table has at most 2 ^ 28 entries.
  pub Chain-walks :
      {vol : Volume} {c : ℕ} {cs : List ℕ} (k : ℕ)
      → Chain fat vol c cs
      → length cs ≤ k
      → (get_all_cluster_of k fat vol c ≡ some cs)
        × (final_cluster k fat vol c ≡ returned (some (last_or 0 cs)))
        × ((i x : ℕ) → get_elem? cs i ≡ some x → get_cluster_at fat vol c i ≡ x)
  unfolding final_cluster get_cluster_at
  Chain-walks {c} k ch fuel = (
    get_all_cluster_of-Chain k ch fuel,
    ground (arith, start_positive ch, seek_final-Chain k ch),
    λ i x at. rw (follow-Chain i x ch at) (low28_small x (member_small i x ch at)),
  )
    where
      start_positive : {vol : Volume} {c : ℕ} {cs : List ℕ} → Chain fat vol c cs → 0 < c
      start_positive (last p h e) = p
      start_positive (link p h e n ch) = p

module _ {fat : Fat} (laid : IsLaidOut fat) where
  -- A chain is left alone by a new link of a cluster that is not on it.
  pub Chain-set_next_cluster :
      {vol : Volume} {c : ℕ} {cs : List ℕ} (x n : ℕ)
      → x < fat.n_entry
      → Chain fat vol c cs
      → contains x cs ≡ false
      → Chain fat (set_next_cluster fat vol x n) c cs
  Chain-set_next_cluster {vol} x n hx (last {c} p h e) out =
      last p h (ground (arith, get_next_cluster-set_next_cluster laid vol x n c hx h))
  Chain-set_next_cluster {vol} x n hx (link {c} {d} p h e more ch) out =
      link p h (ground (arith, get_next_cluster-set_next_cluster laid vol x n c hx h)) more
        (Chain-set_next_cluster x n hx ch (ground arith))
