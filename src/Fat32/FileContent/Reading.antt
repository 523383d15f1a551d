-- ===== src/Fat32/FileContent/Reading.antt =====
-- The content of a file, and what `read_at` gives of it.
use bitos.Base.{
  range, range-append, ℕ, zero, suc, ◌+◌, ◌-◌, ◌*◌, ◌/◌, ◌%◌, ◌^◌, ◌≤◌, ◌<◌, ◌≡◌, inl, inr, refl,
  sym, ap, subst, ◌∙◌, arith, min, Bool, true, false, ◌==◌, leb, Bool-cases, ==_self, ==_of_ne,
  ◌||◌, some, List, ◌∷◌, ◌++◌, returned, length, get_or, leb_of_le,
}
use native.Mathlib.Nat.{mod-lt, mul-le-mul, mul_comm, div-lt_iff_lt-mul}
use bitos.Fat32.Volume.{Volume}
use bitos.Fat32.Table.{Fat, end_cluster, get_next_cluster}
use bitos.Fat32.Table.Chains.{Chain, last, link, ends}
use bitos.Fat32.Manager.{Fat32Manager, first_sector_of_cluster}
use bitos.Fat32.FileContent.{get_byte, get_slice, block_end, prepend, read_blocks}
use bitos.Fat32.FileContent.Blocks.{next_block, border}

-- A volume of 512-byte sectors with at most 128 in a cluster.
pub record IsMounted (m : Fat32Manager) : Type 0 where
  pub sector : m.bytes_per_sector ≡ 512
  pub cluster : m.bytes_per_cluster ≡ 512 * m.sectors_per_cluster
  pub pos : 0 < m.sectors_per_cluster
  pub small : m.sectors_per_cluster ≤ 128
  pub entries : m.fat.n_entry ≤ end_cluster
  pub root : m.root_sec < 2 ^ 32

-- The sector of block `b` of the file with the clusters `cs`, and a byte of the file.
abbrev pub cluster_at : Fat32Manager → List ℕ → ℕ → ℕ
cluster_at m cs b = get_or cs (b / m.sectors_per_cluster) 2

abbrev pub block_at : Fat32Manager → List ℕ → ℕ → ℕ
block_at m cs b =
    (cluster_at m cs b - 2) * m.sectors_per_cluster + m.root_sec + b % m.sectors_per_cluster

abbrev pub byte_at : Volume → Fat32Manager → List ℕ → ℕ → ℕ
byte_at vol m cs o = vol.bytes (block_at m cs (o / 512)) (o % 512)

Chain-next :
    {fat : Fat} {vol : Volume} {c : ℕ} {cs : List ℕ} (i d : ℕ)
    → Chain fat vol c cs
    → suc i < length cs
    → (get_next_cluster fat vol (get_or cs i d) ≡ get_or cs (suc i) d)
      × (ends (get_or cs (suc i) d) ≡ false)
Chain-next i d (last p h e) lt = absurd (omega arith)
Chain-next zero d (link p h e n (last p' h' e')) lt = (e, n)
Chain-next zero d (link p h e n (link p' h' e' n' ch)) lt = (e, n)
Chain-next (suc i) d (link p h e n ch) lt = Chain-next i d ch (omega arith)

pub Chain-bound :
    {fat : Fat} {vol : Volume} {c : ℕ} {cs : List ℕ} (i d : ℕ)
    → Chain fat vol c cs
    → i < length cs
    → get_or cs i d < fat.n_entry
Chain-bound zero d (last p h e) lt = h
Chain-bound (suc i) d (last p h e) lt = absurd (omega arith)
Chain-bound zero d (link p h e n ch) lt = h
Chain-bound (suc i) d (link p h e n ch) lt = Chain-bound i d ch (omega arith)

-- A slice of a block is a part of the file.
get_slice-range :
    (n : ℕ) (vol : Volume) (m : Fat32Manager) (cs : List ℕ) (off : ℕ)
    → off % 512 + n ≤ 512
    → get_slice n vol false (block_at m cs (off / 512)) (off % 512) ≡ range (byte_at vol m cs) off n
unfolding get_slice get_byte
get_slice-range zero vol m cs off h = refl
get_slice-range (suc zero) vol m cs off h = refl
get_slice-range (suc (suc n)) vol m cs off h =
    let same : suc off / 512 ≡ off / 512 = omega arith in
    let next : suc off % 512 ≡ suc (off % 512) = omega arith in
    ap (◌∷◌ (byte_at vol m cs off)) (
      ap (λ (k : ℕ). get_slice (suc n) vol false (block_at m cs (off / 512)) k) (sym next)
      ∙ ap (λ (b : ℕ). get_slice (suc n) vol false (block_at m cs b) (suc off % 512)) (sym same)
      ∙ get_slice-range (suc n) vol m cs (suc off) (omega arith))

or_left : (a b : Bool) → a || b ≡ false → a ≡ false
or_left a b h = ground arith

module _ {m : Fat32Manager} (v : IsMounted m) where
  -- Of a cluster with data.
  pub first_sector_of_cluster-eq :
      (c : ℕ)
      → 2 ≤ c
      → c < 2 ^ 28
      → (first_sector_of_cluster m c ≡ (c - 2) * m.sectors_per_cluster + m.root_sec)
        × ((c - 2) * m.sectors_per_cluster + m.root_sec < 2 ^ 36)
  unfolding first_sector_of_cluster
  first_sector_of_cluster-eq c low high =
      let shifted : (c + 2 ^ 64 - 2) % 2 ^ 64 ≡ c - 2 = omega arith in
      let bounded : (c - 2) * m.sectors_per_cluster ≤ 2 ^ 28 * 128 =
        mul-le-mul {n₂ = 2 ^ 28} (omega arith) v.small in
      (rw shifted (omega (arith, v.root, bounded)), omega (arith, v.root, bounded))

  module _ {vol : Volume} {start : ℕ} {cs : List ℕ} (ch : Chain m.fat vol start cs)
      (low : (i : ℕ) → 2 ≤ get_or cs i 2) {end : ℕ}
      (inside : end ≤ 512 * (m.sectors_per_cluster * length cs)) (bounded : end < 2 ^ 32) where
    -- The sector of a block, and the step from a block to the next.
    pub block_bound :
        (b : ℕ)
        → 512 * b < end
        → (b / m.sectors_per_cluster < length cs)
          × (block_at m cs b < 2 ^ 37)
          × (first_sector_of_cluster m (cluster_at m cs b)
              ≡ (cluster_at m cs b - 2) * m.sectors_per_cluster + m.root_sec)
    block_bound b h =
        let there : b / m.sectors_per_cluster < length cs =
          (div-lt_iff_lt-mul v.pos).1 (omega (arith, mul_comm m.sectors_per_cluster (length cs))) in
        let c = Chain-bound (b / m.sectors_per_cluster) 2 ch there in
        let (eq, small) =
          first_sector_of_cluster-eq (cluster_at m cs b) (low _) (omega (arith, c, v.entries)) in
        (there, omega (arith, small, mod-lt b v.pos, v.small), eq)

    pub step_same :
        (b : ℕ)
        → 512 * b < end
        → (b + 1) / m.sectors_per_cluster ≡ b / m.sectors_per_cluster
        → (b + 1) % m.sectors_per_cluster ≡ b % m.sectors_per_cluster + 1
        → (block_at m cs b + 1) % 2 ^ 64 ≡ block_at m cs (b + 1)
    step_same b h d r = let (_, small, _) = block_bound b h in rw (d, r) (omega (arith, small))

    pub step_next :
        (b : ℕ)
        → 512 * (b + 1) < end
        → (b + 1) / m.sectors_per_cluster ≡ b / m.sectors_per_cluster + 1
        → (b + 1) % m.sectors_per_cluster ≡ 0
        → (get_next_cluster m.fat vol (cluster_at m cs b) ≡ cluster_at m cs (b + 1))
          × (leb end_cluster (cluster_at m cs (b + 1)) ≡ false)
          × (first_sector_of_cluster m (cluster_at m cs (b + 1)) ≡ block_at m cs (b + 1))
    step_next b h d r =
        let (there, small, eq) = block_bound (b + 1) h in
        let (next, more) = Chain-next (b / m.sectors_per_cluster) 2 ch (omega (arith, there, d)) in
        let same : get_or cs (suc (b / m.sectors_per_cluster)) 2 ≡ cluster_at m cs (b + 1) =
          ap (λ (i : ℕ). get_or cs i 2) (omega (arith, d)) in
        (next ∙ same, or_left _ _ (ap ends (sym same) ∙ more), omega (arith, eq, r))

    pub end_of_block : (off : ℕ) → off < end → block_end m off end ≡ min (512 * (off / 512 + 1)) end
    end_of_block off h = rw v.sector (omega (arith, bounded))

    part_rest :
        (vol : Volume) (off next_off : ℕ)
        → off ≤ next_off
        → next_off ≤ end
        → off % 512 + (next_off - off) ≤ 512
        → returned (
            prepend
              (get_slice (next_off - off) vol false (block_at m cs (off / 512)) (off % 512))
              (some (range (byte_at vol m cs) next_off (end - next_off))))
          ≡ returned (some (range (byte_at vol m cs) off (end - off)))
    part_rest vol off next_off h h' fits =
        let f = byte_at vol m cs in
        ap (λ (l : List ℕ). returned (some l))
          (ap (λ (l : List ℕ). l ++ range f next_off (end - next_off))
              (get_slice-range (next_off - off) vol m cs off fits)
            ∙ ap (λ (x : ℕ). range f off (next_off - off) ++ range f x (end - next_off))
                (let g : next_off ≡ off + (next_off - off) = omega arith in g)
            ∙ range-append f off (next_off - off) (end - next_off)
            ∙ ap (range f off) (omega arith))

    -- The round that reaches the end, and one that does not.
    last_round :
        (fuel off : ℕ)
        → off < end
        → end ≤ 512 * (off / 512 + 1)
        → read_blocks
            (suc fuel)
            m
            vol
            false
            end
            off
            (cluster_at m cs (off / 512))
            (block_at m cs (off / 512))
          ≡ returned (some (range (byte_at vol m cs) off (end - off)))
    unfolding read_blocks
    last_round fuel off h near =
        let e : block_end m off end ≡ end = end_of_block off h ∙ omega arith in
        rw
          (
            e,
            leb_of_le off end (omega arith),
            leb_of_le (off % 512 + (end - off)) 512 (omega arith),
            ==_self end,
          )
          (ap (λ (l : List ℕ). returned (some l))
            (get_slice-range (end - off) vol m cs off (omega arith)))

    pub read_blocks-range :
        (fuel off : ℕ)
        → off < end
        → end - off ≤ fuel
        → read_blocks fuel m vol false end off
            (cluster_at m cs (off / 512))
            (block_at m cs (off / 512))
          ≡ returned (some (range (byte_at vol m cs) off (end - off)))
    unfolding read_blocks
    read_blocks-range zero off h f = absurd (omega arith)
    read_blocks-range (suc fuel) off h f = elim (Bool-cases (leb end (512 * (off / 512 + 1)))) [
      | inl near ↦ last_round fuel off h (ground arith)
      | inr far ↦
          let b = off / 512 in
          let next_off = 512 * (b + 1) in
          let more : next_off < end = ground arith in
          let e : block_end m off end ≡ next_off = end_of_block off h ∙ omega arith in
          let rest : (c sector : ℕ)
              → c ≡ cluster_at m cs (b + 1)
              → sector ≡ block_at m cs (b + 1)
              → read_blocks fuel m vol false end next_off c sector
                ≡ returned (some (range (byte_at vol m cs) next_off (end - next_off))) =
            λ c sector ec es.
              rw (ec, es)
                (subst
                  (λ (x : ℕ).
                    read_blocks fuel m vol false end next_off (cluster_at m cs x) (block_at m cs x)
                    ≡ returned (some (range (byte_at vol m cs) next_off (end - next_off))))
                  (omega arith) (read_blocks-range fuel next_off more (omega arith))) in
          let joined = part_rest vol off next_off (omega arith) (omega arith) (omega arith) in
          let here : next_off % m.bytes_per_cluster ≡ 512 * ((b + 1) % m.sectors_per_cluster) =
            ap (λ (k : ℕ). next_off % k) v.cluster ∙ border m.sectors_per_cluster v.pos (b + 1) in
          rw
            (
              e,
              leb_of_le off next_off (omega arith),
              leb_of_le (off % 512 + (next_off - off)) 512 (omega arith),
              ==_of_ne next_off end (omega arith),
            )
            (elim (next_block m.sectors_per_cluster v.pos b) [
              | inl (less, d, r) ↦
                  rw
                    (
                      ==_of_ne (next_off % m.bytes_per_cluster) 0 (omega (arith, here, r)),
                      rest (cluster_at m cs b) _ (ap (λ (i : ℕ). get_or cs i 2) (sym d))
                          (step_same b (omega arith) d r),
                    )
                    joined
              | inr (d, r) ↦
                  let (next, going, sector) = step_next b more d r in
                  let zero_there : next_off % m.bytes_per_cluster ≡ 0 = omega (arith, here, r) in
                  let crosses : (next_off % m.bytes_per_cluster == 0) ≡ true =
                    ap (λ (x : ℕ). x == 0) zero_there in
                  rw (crosses, next, going, rest (cluster_at m cs (b + 1)) _ refl sector) joined
            ])
    ]
