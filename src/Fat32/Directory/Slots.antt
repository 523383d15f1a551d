-- ===== src/Fat32/Directory/Slots.antt =====
-- A directory as a sequence of slots of 32 bytes, over the chain of its clusters.
use bitos.Base.{
  ℕ, zero, suc, ◌+◌, ◌-◌, ◌*◌, ◌/◌, ◌%◌, ◌^◌, ◌≤◌, ◌<◌, ◌≡◌, ◌≢◌, refl, sym, ap, subst, ◌∙◌, arith,
  min, Bool, true, false, ◌==◌, leb, ltb, if◌then◌else◌, Option, none, some, List, [], returned,
  length, get_or, ==_self, ==_of_ne, leb_of_le,
}
use native.Mathlib.Nat.{mul-le-mul, mul_assoc, mul-div_cancel_left}
use bitos.Fat32.Volume.{Volume}
use bitos.Fat32.Table.{
  Fat, end_cluster, get_next_cluster, get_cluster_at, follow, low28, count_claster_num, count_from,
}
use bitos.Fat32.Table.Entries.{low28-eq-mod}
use bitos.Fat32.Table.Chains.{Chain, last, link, last_or, last_or-Chain, ends}
use bitos.Fat32.Manager.{Fat32Manager, cluster_of_offset}
use bitos.Fat32.ShortDirEntry.{ShortDirEntry, is_dir, first_cluster}
use bitos.Fat32.DirentBytes.{dirent_sz}
use bitos.Fat32.FileContent.{
  get_slice, get_pos, access_end, block_end, read_blocks, read_to, read_at,
}
use bitos.Fat32.FileContent.Reading.{IsMounted, cluster_at, block_at, block_bound, Chain-bound}
use bitos.Fat32.FileContent.Position.{get_pos-within, cluster_of_offset-eq}

-- A directory with the clusters `cs`, all of them data clusters of a table of no more than 0xF000000 entries,
-- whose last link is an end.
pub record IsDirectory (m : Fat32Manager) (vol : Volume) (e : ShortDirEntry) (cs : List ℕ)
    : Type 0 where
  pub dir : is_dir e ≡ true
  pub chain : Chain m.fat vol (first_cluster e) cs
  pub data_clusters : (i : ℕ) → 2 ≤ get_or cs i 2
  pub ending : end_cluster ≤ get_next_cluster m.fat vol (last_or 0 cs)
  pub small : 512 * (m.sectors_per_cluster * length cs) < 2 ^ 32
  pub few : m.fat.n_entry ≤ 0xF000000

abbrev pub slots : Fat32Manager → List ℕ → ℕ
slots m cs = 16 * (m.sectors_per_cluster * length cs)

abbrev pub slot : Volume → Fat32Manager → List ℕ → ℕ → List ℕ
slot vol m cs i = get_slice dirent_sz vol true (block_at m cs (i / 16)) (32 * (i % 16))

Chain-start :
    {fat : Fat} {vol : Volume} {c : ℕ} {cs : List ℕ} → Chain fat vol c cs → c < fat.n_entry
Chain-start (last p h e) = h
Chain-start (link p h e n ch) = h

leb_of_lt : (a b : ℕ) → b < a → leb a b ≡ false
leb_of_lt a b h = ground arith

ltb_of_le : (a b : ℕ) → b ≤ a → ltb a b ≡ false
ltb_of_le a b h = ground arith

not_zero : (d : ℕ) → ends d ≡ false → d ≢ 0
not_zero d n = ground arith

module _ {fat : Fat} (few : fat.n_entry ≤ 0xF000000) where
  -- The count of a chain's clusters.
  count_from-Chain :
      {vol : Volume} {c : ℕ} {cs : List ℕ} (k count : ℕ)
      → Chain fat vol c cs
      → length cs ≤ k
      → count + length cs < 2 ^ 32
      → end_cluster ≤ get_next_cluster fat vol (last_or 0 cs)
      → count_from k fat vol c count ≡ some (count + length cs)
  unfolding count_from
  count_from-Chain zero count (last p h e) f s ending = absurd (omega arith)
  count_from-Chain zero count (link p h e n ch) f s ending = absurd (omega arith)
  count_from-Chain {vol} (suc k) count (last {c} p h e) f s ending =
      rw (leb_of_le end_cluster (get_next_cluster fat vol c) ending)
        (ap (λ (n : ℕ). some n) (omega arith))
  count_from-Chain {vol} (suc k) count (link {c} {d} {cs} p h e n ch) f s ending =
      let more : d < fat.n_entry = Chain-start ch in
      let step : (count + 1) % 2 ^ 32 ≡ count + 1 = omega arith in
      rw
        (
          e,
          leb_of_lt end_cluster d (omega (arith, few, more)),
          ltb_of_le 0xF000000 d (omega (arith, few, more)),
          step,
        )
        (count_from-Chain k (count + 1) ch (omega arith) (omega arith) (
            subst (λ (x : ℕ). end_cluster ≤ get_next_cluster fat vol x)
              (last_or-Chain (omega (arith, few)) c ch) ending)
          ∙ ap (λ (n : ℕ). some n) (omega arith))

  -- What lies behind the last cluster.
  follow-Chain_end :
      {vol : Volume} {c : ℕ} {cs : List ℕ}
      → Chain fat vol c cs
      → end_cluster ≤ get_next_cluster fat vol (last_or 0 cs)
      → follow fat vol (length cs) c ≡ get_next_cluster fat vol (last_or 0 cs)
  unfolding follow
  follow-Chain_end {vol} (last {c} p h e) ending =
      rw (==_of_ne (get_next_cluster fat vol c) 0 (omega (arith, ending))) refl
  follow-Chain_end {vol} (link {c} {d} {cs} p h e n ch) ending =
      let joined = last_or-Chain (omega (arith, few)) c ch in
      rw (e, ==_of_ne d 0 (not_zero d n))
        (follow-Chain_end ch
            (subst (λ (x : ℕ). end_cluster ≤ get_next_cluster fat vol x) joined ending)
          ∙ ap (get_next_cluster fat vol) (sym joined))

low28-small : (x : ℕ) → low28 x < 2 ^ 28
low28-small x = omega (arith, low28-eq-mod x)

chosen_small : (x y : Bool) (a b : ℕ) → (if x then (if y then 0 else low28 b) else low28 a) < 2 ^ 28
chosen_small true true a b = omega arith
chosen_small true false a b = low28-small b
chosen_small false y a b = low28-small a

get_next_cluster-small : (fat : Fat) (vol : Volume) (c : ℕ) → get_next_cluster fat vol c < 2 ^ 28
unfolding get_next_cluster
get_next_cluster-small fat vol c = chosen_small _ _ _ _

module _ {m : Fat32Manager} {vol : Volume} {e : ShortDirEntry} {cs : List ℕ} (v : IsMounted m)
    (w : IsDirectory m vol e cs) where
  pub some_cluster : 0 < length cs
  some_cluster = positive w.chain
    where
      positive : {c : ℕ} {xs : List ℕ} → Chain m.fat vol c xs → 0 < length xs
      positive (last p h e) = omega arith
      positive (link p h e n ch) = omega arith

  first_nonzero : (first_cluster e == 0) ≡ false
  first_nonzero = ==_of_ne (first_cluster e) 0 (positive w.chain)
    where
      positive : {c : ℕ} {xs : List ℕ} → Chain m.fat vol c xs → c ≢ 0
      positive (last p h e) = omega (arith, p)
      positive (link p h e n ch) = omega (arith, p)

  pub fewer : length cs ≤ m.sectors_per_cluster * length cs
  fewer =
      let h : 1 * length cs ≤ m.sectors_per_cluster * length cs =
        mul-le-mul {n₂ = m.sectors_per_cluster} {m₂ = length cs} v.pos (omega arith) in
      omega (arith, h)

  pub count-eq :
      (walk : ℕ)
      → length cs ≤ walk
      → count_claster_num walk m.fat vol (first_cluster e) ≡ some (length cs)
  unfolding count_claster_num
  count-eq walk enough = rw first_nonzero (
      count_from-Chain w.few walk 0 w.chain enough (omega (arith, w.small, fewer)) w.ending
      ∙ ap (λ (n : ℕ). some n) (omega arith))

  -- An access to the bytes of a slot.
  pub access_end-slot :
      (walk i : ℕ)
      → length cs ≤ walk
      → i ≤ slots m cs
      → access_end walk m vol e (32 * i) dirent_sz ≡ some (32 * i + 32)
  unfolding access_end
  access_end-slot walk i enough h =
      let total : m.bytes_per_cluster * length cs ≡ 512 * (m.sectors_per_cluster * length cs) =
        ap (λ (x : ℕ). x * length cs) v.cluster ∙ mul_assoc 512 m.sectors_per_cluster (length cs) in
      rw w.dir (
        ap
          (λ (o : Option ℕ). elim o [
            | none ↦ none
            | some count ↦ some ((32 * i + min dirent_sz (m.bytes_per_cluster * count)) % 2 ^ 64)
          ])
          (count-eq walk enough)
        ∙ ap (λ (n : ℕ). some n) (omega (arith, total, fewer, some_cluster, w.small, h)))

  pub slot_place :
      (i : ℕ)
      → i < slots m cs
      → ((get_pos m vol e (32 * i)).0 ≡ cluster_at m cs (i / 16))
        × ((get_pos m vol e (32 * i)).1 ≡ block_at m cs (i / 16))
  slot_place i h =
      let (c, s) =
        get_pos-within e v w.chain w.data_clusters (omega arith) w.small (32 * i)
          (omega (arith, h)) in
      let at : 32 * i / 512 ≡ i / 16 = omega arith in
      (c ∙ ap (cluster_at m cs) at, s ∙ ap (block_at m cs) at)

  cluster_going : (i : ℕ) → i < slots m cs → leb end_cluster (cluster_at m cs (i / 16)) ≡ false
  cluster_going i h =
      let (there, _, _) =
        block_bound v w.chain w.data_clusters (omega arith) w.small (i / 16) (omega (arith, h)) in
      leb_of_lt end_cluster (cluster_at m cs (i / 16))
        (omega (arith, Chain-bound (i / 16 / m.sectors_per_cluster) 2 w.chain there, w.few))

  pub slot_end : (i : ℕ) → i < slots m cs → block_end m (32 * i) (32 * i + 32) ≡ 32 * i + 32
  slot_end i h = rw v.sector (omega (arith, w.small, h))

  one_block :
      (fuel i c s : ℕ)
      → 0 < fuel
      → i < slots m cs
      → read_blocks fuel m vol true (32 * i + 32) (32 * i) c s
        ≡ returned (some (get_slice dirent_sz vol true s (32 * (i % 16))))
  unfolding read_blocks
  one_block zero i c s f h = absurd (omega arith)
  one_block (suc fuel) i c s f h =
      let size : 32 * i + 32 - 32 * i ≡ 32 = omega arith in
      let into : 32 * i % 512 ≡ 32 * (i % 16) = omega arith in
      rw
        (
          slot_end i h,
          size,
          into,
          leb_of_le (32 * i) (32 * i + 32) (omega arith),
          leb_of_le (32 * (i % 16) + 32) 512 (omega arith),
          ==_self (32 * i + 32),
        )
        refl

  read_to-slot :
      (walk i : ℕ)
      → length cs ≤ walk
      → i < slots m cs
      → read_to walk m vol e (32 * i) (32 * i + 32) ≡ returned (some (slot vol m cs i))
  unfolding read_to
  read_to-slot walk i enough h =
      let (c, s) = slot_place i h in
      rw (leb_of_lt (32 * i + 32) (32 * i) (omega arith), c, s, cluster_going i h, w.dir)
        (one_block walk i (cluster_at m cs (i / 16)) (block_at m cs (i / 16))
          (omega (arith, some_cluster)) h)

  cluster_behind : end_cluster ≤ (get_pos m vol e (32 * slots m cs)).0
  unfolding get_pos get_cluster_at cluster_of_offset
  cluster_behind =
      let p = m.sectors_per_cluster * length cs in
      let blocks : 32 * slots m cs / 512 ≡ p = omega arith in
      let index : 32 * slots m cs % 2 ^ 32 / m.bytes_per_cluster ≡ length cs =
        cluster_of_offset-eq v (32 * slots m cs) (omega (arith, w.small))
        ∙ ap (λ (x : ℕ). x / m.sectors_per_cluster) blocks
        ∙ mul-div_cancel_left (length cs) v.pos in
      rw (index, follow-Chain_end w.few w.chain w.ending)
        (omega (
          arith,
          low28-eq-mod (get_next_cluster m.fat vol (last_or 0 cs)),
          get_next_cluster-small m.fat vol (last_or 0 cs),
          w.ending,
        ))

  read_to-behind :
      (walk : ℕ)
      → read_to walk m vol e (32 * slots m cs) (32 * slots m cs + 32) ≡ returned (some [])
  unfolding read_to
  read_to-behind walk =
      rw
        (
          leb_of_lt (32 * slots m cs + 32) (32 * slots m cs) (omega arith),
          leb_of_le end_cluster (get_pos m vol e (32 * slots m cs)).0 cluster_behind,
        )
        refl

  -- A slot is read whole.
  pub read_at-slot :
      (walk i : ℕ)
      → length cs ≤ walk
      → i < slots m cs
      → read_at walk m vol e (32 * i) dirent_sz ≡ returned (some (slot vol m cs i))
  unfolding read_at
  read_at-slot walk i enough h =
      ap
        (λ (o : Option ℕ). elim o [
          | none ↦ returned none
          | some end ↦ read_to walk m vol e (32 * i) end
        ])
        (access_end-slot walk i enough (omega arith))
      ∙ read_to-slot walk i enough h

  -- Nothing is read behind the last slot.
  pub read_at-behind :
      (walk : ℕ)
      → length cs ≤ walk
      → read_at walk m vol e (32 * slots m cs) dirent_sz ≡ returned (some [])
  unfolding read_at
  read_at-behind walk enough =
      ap
        (λ (o : Option ℕ). elim o [
          | none ↦ returned none
          | some end ↦ read_to walk m vol e (32 * slots m cs) end
        ])
        (access_end-slot walk (slots m cs) enough (omega arith))
      ∙ read_to-behind walk
