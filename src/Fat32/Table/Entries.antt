-- ===== src/Fat32/Table/Entries.antt =====
-- The table as a function from clusters to entries.
use bitos.Base.{ℕ, ◌+◌, ◌*◌, ◌/◌, ◌%◌, ◌^◌, ◌≤◌, ◌<◌, ◌≡◌, ◌≢◌, refl, arith, ◌==◌, if◌then◌else◌}
use bitos.Base.Bits.{and_low_mask}
use bitos.Fat32.Volume.{Volume, set_info}
use bitos.Fat32.Table.{Fat, calculate_pos, low28, get_next_cluster, set_next_cluster, bad_cluster}

-- The copies do not overlap, and hold the entries of all clusters below `n_entry`.
pub record IsLaidOut (fat : Fat) : Type 0 where
  pub apart : fat.fat1_sector + fat.n_sectors ≤ fat.fat2_sector
  pub fits : fat.fat2_sector + fat.n_sectors < 2 ^ 32
  pub room : fat.n_entry ≤ fat.n_sectors * 128

-- The words of a cluster in the two copies.
abbrev pub entry1 : Fat → Volume → ℕ → ℕ
entry1 fat vol c = vol.info (fat.fat1_sector + c / 128) (4 * (c % 128))

abbrev pub entry2 : Fat → Volume → ℕ → ℕ
entry2 fat vol c = vol.info (fat.fat2_sector + c / 128) (4 * (c % 128))

-- What `get_next_cluster` makes of the words of the copies.
abbrev pub link_of : ℕ → ℕ → ℕ
link_of e1 e2 = if e1 == bad_cluster then (if e2 == bad_cluster then 0 else low28 e2) else low28 e1

pub low28-eq-mod : (x : ℕ) → low28 x ≡ x % 2 ^ 28
unfolding low28
low28-eq-mod x = and_low_mask 28 x

module _ {fat : Fat} (laid : IsLaidOut fat) where
  pub calculate_pos_fits :
      (c : ℕ)
      → c < fat.n_entry
      → calculate_pos fat c ≡ (fat.fat1_sector + c / 128, fat.fat2_sector + c / 128, 4 * (c % 128))
  unfolding calculate_pos
  calculate_pos_fits c h =
      let first : (fat.fat1_sector + c / 128) % 2 ^ 32 ≡ fat.fat1_sector + c / 128 =
        omega (arith, laid.apart, laid.fits, laid.room) in
      let second : (fat.fat2_sector + c / 128) % 2 ^ 32 ≡ fat.fat2_sector + c / 128 =
        omega (arith, laid.apart, laid.fits, laid.room) in
      rw (first, second) refl

  pub get_next_cluster_lem :
      (vol : Volume) (c : ℕ)
      → c < fat.n_entry
      → get_next_cluster fat vol c ≡ link_of (entry1 fat vol c) (entry2 fat vol c)
  unfolding get_next_cluster
  get_next_cluster_lem vol c h = rw (calculate_pos_fits c h) refl

  -- Different clusters have different places, and the copies share none.
  places :
      (c d : ℕ)
      → c < fat.n_entry
      → d < fat.n_entry
      → (d ≢ c
          → (fat.fat1_sector + d / 128 ≡ fat.fat1_sector + c / 128)
          → 4 * (d % 128) ≢ 4 * (c % 128))
        × (fat.fat1_sector + d / 128 ≢ fat.fat2_sector + c / 128)
  places c d hc hd = (λ differ e1 e2. omega arith, omega (arith, laid.apart, laid.room))

  pub entries-set_next_cluster :
      (vol : Volume) (c n d : ℕ)
      → c < fat.n_entry
      → d < fat.n_entry
      → (entry1 fat (set_next_cluster fat vol c n) d ≡ (if d == c then n else entry1 fat vol d))
        × (entry2 fat (set_next_cluster fat vol c n) d ≡ (if d == c then n else entry2 fat vol d))
  unfolding set_next_cluster set_info
  entries-set_next_cluster vol c n d hc hd =
      rw (calculate_pos_fits c hc)
        (ground (arith, (places c d hc hd).1), ground (arith, (places d c hd hc).1))

  -- Where the copies of the table do not overlap, a link that was set is the one that is read, cut to 28
  -- bits, or 0 if it marks a bad cluster; the links of all other clusters stay. The clusters have
  -- entries in the table.
  pub get_next_cluster-set_next_cluster :
      (vol : Volume) (c n d : ℕ)
      → c < fat.n_entry
      → d < fat.n_entry
      → get_next_cluster fat (set_next_cluster fat vol c n) d
        ≡ (if d == c then (if n == bad_cluster then 0 else low28 n) else get_next_cluster fat vol d)
  get_next_cluster-set_next_cluster vol c n d hc hd = ground (
    arith,
    get_next_cluster_lem (set_next_cluster fat vol c n) d hd,
    get_next_cluster_lem vol d hd,
    entries-set_next_cluster vol c n d hc hd,
  )
