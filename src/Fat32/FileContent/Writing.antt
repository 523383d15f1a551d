-- ===== src/Fat32/FileContent/Writing.antt =====
-- What `write_at` changes of a file.
use bitos.Base.{
  ℕ, zero, suc, ◌+◌, ◌-◌, ◌*◌, ◌/◌, ◌%◌, ◌^◌, ◌≤◌, ◌<◌, ◌≡◌, inl, inr, refl, sym, ap, subst, ◌∙◌,
  arith, min, true, false, ◌==◌, leb, Bool-cases, ==_self, ==_of_ne, Option, none, some, List,
  Outcome, returned, length, get_or, take, drop, length-drop, get_or-drop, leb_of_le,
}
use bitos.Fat32.Volume.{Volume}
use bitos.Fat32.Table.Chains.{Chain}
use bitos.Fat32.Manager.{Fat32Manager}
use bitos.Fat32.ShortDirEntry.{ShortDirEntry}
use bitos.Fat32.FileContent.{put_slice, block_end, add_written, write_blocks, write_to, write_at}
use bitos.Fat32.FileContent.Blocks.{next_block, border}
use bitos.Fat32.FileContent.Reading.{
  IsMounted, cluster_at, block_at, block_bound, step_same, step_next, end_of_block,
}
use bitos.Fat32.FileContent.Slices.{Written, put_slice-Written, Chain-info}
use bitos.Fat32.FileContent.Access.{IsFile, access_end-eq, get_pos-eq}

written_sum :
    (n k t : ℕ) (vol : Volume)
    → n + k ≡ t
    → returned (add_written n (some (k, vol))) ≡ returned (some (t, vol))
written_sum n k t vol e = ap (λ (x : ℕ). returned (some (x, vol))) e

-- A write up to `end` that returns, with what it has written.
abbrev Ends :
    Fat32Manager
    → List ℕ
    → (end : ℕ) → Volume
    → (off : ℕ) → List ℕ
    → Outcome (Option (ℕ × Volume))
    → Type 0
Ends m cs end vol off buf o =
    (vol' : Volume) × (o ≡ returned (some (end - off, vol')))
    × Written m cs vol vol' off (end - off) buf

-- A write that goes on where another ended.
Written-then :
    {m : Fat32Manager} {cs : List ℕ} {vol vol1 vol2 : Volume} {off n : ℕ} {buf : List ℕ}
    (next_off n2 : ℕ)
    → Written m cs vol vol1 off n buf
    → Written m cs vol1 vol2 next_off n2 (drop n buf)
    → next_off ≡ off + n
    → Written m cs vol vol2 off (n + n2) buf
Written-then {off = off} {n} {buf} next_off n2 w w2 at = record {
  info = w2.info ∙ w.info;
  bytes = λ o there. w2.bytes o there ∙ ground (arith, w.bytes o there, shifted o at);
  elsewhere = λ s k out. w2.elsewhere s k out ∙ w.elsewhere s k out;
}
  where
    shifted :
        (o : ℕ)
        → next_off ≡ off + n
        → next_off ≤ o
        → get_or (drop n buf) (o - next_off) 0 ≡ get_or buf (o - off) 0
    shifted o at h =
        get_or-drop n buf (o - next_off) 0 ∙ ap (λ (k : ℕ). get_or buf k 0) (omega (arith, at, h))

module _ {m : Fat32Manager} (v : IsMounted m) {cs : List ℕ} (low : (i : ℕ) → 2 ≤ get_or cs i 2)
    (distinct : (i j : ℕ) → i < length cs → j < length cs → get_or cs i 2 ≡ get_or cs j 2 → i ≡ j)
    {start end : ℕ} (inside : end ≤ 512 * (m.sectors_per_cluster * length cs))
    (bounded : end < 2 ^ 32) where
  last_write :
      (fuel off : ℕ) (vol : Volume) (buf : List ℕ)
      → Chain m.fat vol start cs
      → off < end
      → end - off ≤ length buf
      → end ≤ 512 * (off / 512 + 1)
      → Ends m cs end vol off buf (
          write_blocks
            (suc fuel)
            m
            vol
            false
            end
            off
            (cluster_at m cs (off / 512))
            (block_at m cs (off / 512))
            buf)
  unfolding write_blocks
  last_write fuel off vol buf ch h enough near =
      let e : block_end m off end ≡ end =
        end_of_block v ch low inside bounded off h ∙ omega arith in
      let (there, _, _) = block_bound v ch low inside bounded (off / 512) (omega arith) in
      rw
        (
          e,
          leb_of_le off end (omega arith),
          leb_of_le (end - off) (length buf) enough,
          leb_of_le (off % 512 + (end - off)) 512 (omega arith),
          ==_self end,
        )
        (
          put_slice (take (end - off) buf) vol false (block_at m cs (off / 512)) (off % 512),
          refl,
          put_slice-Written v cs low distinct vol off (end - off) buf there (omega arith) enough,
        )

  pub write_blocks-Written :
      (fuel off : ℕ) (vol : Volume) (buf : List ℕ)
      → Chain m.fat vol start cs
      → off < end
      → end - off ≤ fuel
      → end - off ≤ length buf
      → Ends m cs end vol off buf (
          write_blocks fuel m vol false end off
            (cluster_at m cs (off / 512))
            (block_at m cs (off / 512))
            buf)
  unfolding write_blocks
  write_blocks-Written zero off vol buf ch h f enough = absurd (omega arith)
  write_blocks-Written (suc fuel) off vol buf ch h f enough =
      elim (Bool-cases (leb end (512 * (off / 512 + 1)))) [
        | inl near ↦ last_write fuel off vol buf ch h enough (ground arith)
        | inr far ↦
            let b = off / 512 in
            let next_off = 512 * (b + 1) in
            let n = next_off - off in
            let more : next_off < end = ground arith in
            let e : block_end m off end ≡ next_off =
              end_of_block v ch low inside bounded off h ∙ omega arith in
            let (there, _, _) = block_bound v ch low inside bounded b (omega arith) in
            let vol1 = put_slice (take n buf) vol false (block_at m cs b) (off % 512) in
            let w1 =
              put_slice-Written v cs low distinct vol off n buf there (omega arith)
                (omega (arith, enough)) in
            let ch1 = Chain-info vol1 w1.info ch in
            let (vol2, e2, w2) =
              write_blocks-Written fuel next_off vol1 (drop n buf) ch1 more (omega arith)
                (omega (arith, length-drop n buf)) in
            let total : n + (end - next_off) ≡ end - off = omega arith in
            let rest : (c sector : ℕ)
                → c ≡ cluster_at m cs (b + 1)
                → sector ≡ block_at m cs (b + 1)
                → write_blocks fuel m vol1 false end next_off c sector (drop n buf)
                  ≡ returned (some (end - next_off, vol2)) =
              λ c sector ec es.
                rw (ec, es)
                  (subst
                    (λ (x : ℕ).
                      write_blocks fuel m vol1 false end next_off (cluster_at m cs x)
                        (block_at m cs x) (drop n buf)
                      ≡ returned (some (end - next_off, vol2)))
                    (omega arith) e2) in
            let joined = written_sum n (end - next_off) (end - off) vol2 total in
            let here : next_off % m.bytes_per_cluster ≡ 512 * ((b + 1) % m.sectors_per_cluster) =
              ap (λ (k : ℕ). next_off % k) v.cluster ∙ border m.sectors_per_cluster v.pos (b + 1) in
            rw
              (
                e,
                leb_of_le off next_off (omega arith),
                leb_of_le n (length buf) (omega (arith, enough)),
                leb_of_le (off % 512 + n) 512 (omega arith),
                ==_of_ne next_off end (omega arith),
              )
              (
                vol2,
                elim (next_block m.sectors_per_cluster v.pos b) [
                  | inl (less, d, r) ↦
                      rw
                        (
                          ==_of_ne (next_off % m.bytes_per_cluster) 0 (omega (arith, here, r)),
                          rest (cluster_at m cs b) _ (ap (λ (i : ℕ). get_or cs i 2) (sym d))
                              (step_same v ch low inside bounded b (omega arith) d r),
                        )
                        joined
                  | inr (d, r) ↦
                      let (next, going, sector) = step_next v ch1 low inside bounded b more d r in
                      let zero_there : next_off % m.bytes_per_cluster ≡ 0 =
                        omega (arith, here, r) in
                      let crosses : (next_off % m.bytes_per_cluster == 0) ≡ true =
                        ap (λ (x : ℕ). x == 0) zero_there in
                      rw (crosses, next, going, rest (cluster_at m cs (b + 1)) _ refl sector) joined
                ],
                subst (λ (k : ℕ). Written m cs vol vol2 off k buf) total
                    (Written-then next_off (end - next_off) w1 w2 (omega arith)),
              )
      ]

module _ {m : Fat32Manager} {vol : Volume} {e : ShortDirEntry} {cs : List ℕ} (v : IsMounted m)
    (w : IsFile m vol e cs)
    (distinct : (i j : ℕ)
      → i < length cs
      → j < length cs
      → get_or cs i 2 ≡ get_or cs j 2
      → i ≡ j) where
  -- `write_at` of a file, from an offset within it, writes the bytes of the buffer up to the end of the
  -- file and returns their number: these bytes of the file are then those of the buffer, its others stay,
  -- as do the links of the table and the sectors that are not the file's.
  pub write_at-Written :
      (fuel offset : ℕ) (buf : List ℕ)
      → offset + length buf < 2 ^ 64
      → offset < min (offset + length buf) e.size
      → length buf ≤ fuel
      → (vol' : Volume) × (write_at fuel m vol e offset buf
          ≡ returned (some (min (offset + length buf) e.size - offset, vol')))
        × Written m cs vol vol' offset (min (offset + length buf) e.size - offset) buf
  unfolding write_at write_to
  write_at-Written fuel offset buf fits begins enough =
      let end = min (offset + length buf) e.size in
      let (cluster, sector) = get_pos-eq v w offset (omega arith) in
      let (vol', done, written) =
        write_blocks-Written v w.data_clusters distinct (omega (arith, w.holds))
          (omega (arith, w.size)) fuel offset vol buf w.chain begins (omega arith) (omega arith) in
      (
        vol',
        ap
              (λ (o : Option ℕ). elim o [
                | none ↦ returned none
                | some end ↦ write_to fuel m vol e offset end buf
              ])
              (access_end-eq v w fuel offset (length buf) fits)
            ∙ rw (cluster, sector, w.file) done,
        written,
      )
