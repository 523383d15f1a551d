-- ===== src/Fat32/FileContent/Slices.antt =====
-- What a write into a block changes of a file.
use bitos.Base.{
  ℕ, suc, ◌+◌, ◌-◌, ◌*◌, ◌/◌, ◌%◌, ◌≤◌, ◌<◌, ◌≡◌, ◌≢◌, inl, inr, refl, sym, ap, ◌∙◌, arith, Bool,
  true, false, ◌&&◌, ◌==◌, leb, ltb, if◌then◌else◌, Bool-cases, eq_of_==, ne_of_==, ==_self,
  ==_of_ne, List, [], ◌∷◌, length, get_or, take, length-take, get_or-take,
}
use native.Mathlib.Nat.{mod-lt, mul_comm, div-add-mod}
use bitos.Fat32.Volume.{Volume}
use bitos.Fat32.Table.{Fat, get_next_cluster}
use bitos.Fat32.Table.Chains.{Chain, last, link, ends}
use bitos.Fat32.Manager.{Fat32Manager}
use bitos.Fat32.FileContent.{put_byte, put_slice}
use bitos.Fat32.FileContent.Blocks.{div-mod_unique}
use bitos.Fat32.FileContent.Reading.{IsMounted, cluster_at, block_at, byte_at}

abbrev pub between : ℕ → ℕ → ℕ → Bool
between off n o = leb off o && ltb o (off + n)

pub put_slice-info :
    (bs : List ℕ) (vol : Volume) (s k : ℕ) → (put_slice bs vol false s k).info ≡ vol.info
unfolding put_slice put_byte
put_slice-info [] vol s k = refl
put_slice-info (b ∷ bs) vol s k = put_slice-info bs _ s (suc k)

pub get_or-cons :
    (b : ℕ) (bs : List ℕ) (k o : ℕ) → k < o → get_or (b ∷ bs) (o - k) 0 ≡ get_or bs (o - suc k) 0
get_or-cons b bs k o h =
    ap (λ (i : ℕ). get_or (b ∷ bs) i 0) (let e : o - k ≡ suc (o - suc k) = omega arith in e)

pub get_or-first : (b : ℕ) (bs : List ℕ) (k o : ℕ) → o ≡ k → get_or (b ∷ bs) (o - k) 0 ≡ b
get_or-first b bs k o h = ap (λ (i : ℕ). get_or (b ∷ bs) i 0) (let e : o - k ≡ 0 = omega arith in e)

pub put_slice-bytes :
    (bs : List ℕ) (vol : Volume) (s k s' o : ℕ)
    → (put_slice bs vol false s k).bytes s' o
      ≡ (if s' == s && between k (length bs) o then get_or bs (o - k) 0 else vol.bytes s' o)
unfolding put_slice put_byte
put_slice-bytes [] vol s k s' o = ground arith
put_slice-bytes (b ∷ bs) vol s k s' o =
    put_slice-bytes bs (put_byte vol false s k b) s (suc k) s' o
    ∙ ground (arith, get_or-cons b bs k o, get_or-first b bs k o)

get_next_cluster-info :
    (vol : Volume) (fat : Fat) (vol' : Volume) (c : ℕ)
    → vol'.info ≡ vol.info
    → get_next_cluster fat vol' c ≡ get_next_cluster fat vol c
unfolding get_next_cluster
get_next_cluster-info vol fat vol' c same =
    ap (λ i. get_next_cluster fat (record vol { info = i }) c) same

-- The links are words of the table, which a write of bytes leaves.
pub Chain-info :
    {fat : Fat} {vol : Volume} {c : ℕ} {cs : List ℕ} (vol' : Volume)
    → vol'.info ≡ vol.info
    → Chain fat vol c cs
    → Chain fat vol' c cs
Chain-info vol' same (last p h e) = last p h (ap ends (get_next_cluster-info _ _ vol' _ same) ∙ e)
Chain-info vol' same (link p h e n ch) =
    link p h (get_next_cluster-info _ _ vol' _ same ∙ e) n (Chain-info vol' same ch)

module _ {m : Fat32Manager} (v : IsMounted m) (cs : List ℕ) (low : (i : ℕ) → 2 ≤ get_or cs i 2)
    (distinct : (i j : ℕ)
      → i < length cs
      → j < length cs
      → get_or cs i 2 ≡ get_or cs j 2
      → i ≡ j) where
  -- Two blocks of a file lie in different sectors.
  pub block_at-injective :
      (a b : ℕ)
      → a / m.sectors_per_cluster < length cs
      → b / m.sectors_per_cluster < length cs
      → block_at m cs a ≡ block_at m cs b
      → a ≡ b
  block_at-injective a b ha hb e =
      let spc = m.sectors_per_cluster in
      let sum : (x : ℕ) → block_at m cs x - m.root_sec ≡ spc * (cluster_at m cs x - 2) + x % spc =
        λ x. omega (arith, mul_comm spc (cluster_at m cs x - 2)) in
      let (qa, ra) =
        div-mod_unique spc v.pos (block_at m cs a - m.root_sec) (cluster_at m cs a - 2) (a % spc)
          (sum a) (mod-lt a v.pos) in
      let (qb, rb) =
        div-mod_unique spc v.pos (block_at m cs a - m.root_sec) (cluster_at m cs b - 2) (b % spc)
          (omega (arith, sum b, e)) (mod-lt b v.pos) in
      let same : a / spc ≡ b / spc =
        distinct _ _ ha hb (omega (arith, qa, qb, low (a / spc), low (b / spc))) in
      omega (arith, div-add-mod a spc, div-add-mod b spc, ap (λ (q : ℕ). spc * q) same, ra, rb)

-- What is written: the links stay, the file has the bytes of the buffer from `off` on, and its others, like
-- the sectors of other files, stay.
pub record Written (m : Fat32Manager) (cs : List ℕ) (vol vol' : Volume) (off n : ℕ) (buf : List ℕ)
    : Type 0 where
  pub info : vol'.info ≡ vol.info
  pub bytes :
      (o : ℕ)
      → o / 512 / m.sectors_per_cluster < length cs
      → byte_at vol' m cs o
        ≡ (if between off n o then get_or buf (o - off) 0 else byte_at vol m cs o)
  pub elsewhere :
      (s k : ℕ)
      → ((b : ℕ) → b / m.sectors_per_cluster < length cs → block_at m cs b ≢ s)
      → vol'.bytes s k ≡ vol.bytes s k

window_same :
    (off n o : ℕ) → o / 512 ≡ off / 512 → between (off % 512) n (o % 512) ≡ between off n o
window_same off n o e = ground arith

window_other : (off n o : ℕ) → o / 512 ≢ off / 512 → off % 512 + n ≤ 512 → between off n o ≡ false
window_other off n o ne fits = ground arith

-- A write within a block.
pub put_slice-Written :
    {m : Fat32Manager} (v : IsMounted m) (cs : List ℕ) (low : (i : ℕ) → 2 ≤ get_or cs i 2)
    (distinct : (i j : ℕ) → i < length cs → j < length cs → get_or cs i 2 ≡ get_or cs j 2 → i ≡ j)
    (vol : Volume) (off n : ℕ) (buf : List ℕ)
    → off / 512 / m.sectors_per_cluster < length cs
    → off % 512 + n ≤ 512
    → n ≤ length buf
    → Written m cs vol
        (put_slice (take n buf) vol false (block_at m cs (off / 512)) (off % 512))
        off
        n
        buf
put_slice-Written {m} v cs low distinct vol off n buf inside fits enough =
    let b = off / 512 in
    let len = length-take n buf enough in
    record {
      info = put_slice-info (take n buf) vol (block_at m cs b) (off % 512);
      bytes = λ o there.
          put_slice-bytes (take n buf) vol (block_at m cs b) (off % 512) (block_at m cs (o / 512))
            (o % 512)
          ∙ elim (Bool-cases (o / 512 == b)) [
            | inl e ↦
                let same : o / 512 ≡ b = eq_of_== (o / 512) b e in
                let sector : (block_at m cs (o / 512) == block_at m cs b) ≡ true =
                  ap (λ (x : ℕ). block_at m cs x == block_at m cs b) same
                  ∙ ==_self (block_at m cs b) in
                let window : between (off % 512) (length (take n buf)) (o % 512) ≡ between off n o =
                  ap (λ (l : ℕ). between (off % 512) l (o % 512)) len ∙ window_same off n o same in
                let place : o % 512 - off % 512 ≡ o - off = omega (arith, same) in
                rw (sector, window, place) (ground (arith, get_or-take n buf (o - off) 0))
            | inr ne ↦
                let sector : (block_at m cs (o / 512) == block_at m cs b) ≡ false =
                  ==_of_ne _ _ (λ e.
                    ne_of_== (o / 512) b ne
                      (block_at-injective v cs low distinct (o / 512) b there inside e)) in
                let window : between off n o ≡ false =
                  window_other off n o (ne_of_== (o / 512) b ne) fits in
                rw (sector, window) refl
          ];
      elsewhere = λ s k out.
          put_slice-bytes (take n buf) vol (block_at m cs b) (off % 512) s k
          ∙ rw (==_of_ne s (block_at m cs b) (λ e. out b inside (sym e))) refl;
    }
