-- ===== src/Fat32/Directory/Writing.antt =====
-- What a write of a slot changes of a directory.
use bitos.Base.{
  ℕ, zero, suc, ◌+◌, ◌-◌, ◌*◌, ◌/◌, ◌%◌, ◌≤◌, ◌<◌, ◌≡◌, ◌≢◌, inl, inr, refl, sym, ap, ap₂, subst,
  ◌∙◌, arith, true, false, ◌&&◌, ◌==◌, if◌then◌else◌, Bool-cases, Option, none, some, List, [], ◌∷◌,
  returned, length, get_or, ==_self, eq_of_==, ne_of_==, take_all, leb_of_le,
}
use bitos.Fat32.Volume.{Volume}
use bitos.Fat32.Table.{Fat, calculate_pos, end_cluster, get_next_cluster, low28, bad_cluster}
use bitos.Fat32.Table.Entries.{IsLaidOut}
use bitos.Fat32.Table.Chains.{Chain, last, link, last_or, ends}
use bitos.Fat32.Manager.{Fat32Manager}
use bitos.Fat32.ShortDirEntry.{ShortDirEntry}
use bitos.Fat32.DirentBytes.{dirent_sz, AllBytes}
use bitos.Fat32.FileContent.{
  get_byte, get_slice, put_slice, access_end, write_blocks, write_to, write_at,
}
use bitos.Fat32.FileContent.Reading.{IsMounted, cluster_at, block_at, block_bound}
use bitos.Fat32.FileContent.Slices.{between, block_at-injective}
use bitos.Fat32.Directory.Words.{get_byte-put_slice, put_slice-elsewhere, put_slice-bytes_stay}
use bitos.Fat32.Directory.Slots.{
  IsDirectory, slots, slot, access_end-slot, slot_place, slot_end, some_cluster,
}

get_slice-eq :
    (n : ℕ) (bs : List ℕ) (vol : Volume) (s k : ℕ)
    → length bs ≡ n
    → ((o : ℕ) → o < n → get_byte vol true s (k + o) ≡ get_or bs o 0)
    → get_slice n vol true s k ≡ bs
unfolding get_slice
get_slice-eq zero [] vol s k h same = refl
get_slice-eq zero (b ∷ bs) vol s k h same = absurd (omega arith)
get_slice-eq (suc n) [] vol s k h same = absurd (omega arith)
get_slice-eq (suc n) (b ∷ bs) vol s k h same =
    ap₂ ◌∷◌ (ap (get_byte vol true s) (let z : k ≡ k + 0 = omega arith in z) ∙ same 0 (omega arith))
      (get_slice-eq n bs vol s (suc k) (omega arith) (λ o lt.
        ap (get_byte vol true s) (let z : suc k + o ≡ k + suc o = omega arith in z)
        ∙ same (suc o) (omega arith)))

pub get_slice-same :
    (n : ℕ) (vol vol' : Volume) (s k : ℕ)
    → ((o : ℕ) → o < n → get_byte vol' true s (k + o) ≡ get_byte vol true s (k + o))
    → get_slice n vol' true s k ≡ get_slice n vol true s k
unfolding get_slice
get_slice-same zero vol vol' s k same = refl
get_slice-same (suc n) vol vol' s k same =
    ap₂ ◌∷◌
      (ap (get_byte vol' true s) (let z : k ≡ k + 0 = omega arith in z)
        ∙ same 0 (omega arith)
        ∙ ap (get_byte vol true s) (let z : k + 0 ≡ k = omega arith in z))
      (get_slice-same n vol vol' s (suc k) (λ o lt.
        ap (get_byte vol' true s) (let z : suc k + o ≡ k + suc o = omega arith in z)
        ∙ same (suc o) (omega arith)
        ∙ ap (get_byte vol true s) (let z : k + suc o ≡ suc k + o = omega arith in z)))

-- The words of the table lie below the first sector of the clusters.
abbrev pub Agree : Fat32Manager → Volume → Volume → Type 0
Agree m vol vol' = (s o : ℕ) → s < m.root_sec → vol'.info s o ≡ vol.info s o

last_small :
    {fat : Fat} {vol : Volume} {c : ℕ} {cs : List ℕ}
    → Chain fat vol c cs
    → last_or 0 cs < fat.n_entry
last_small (last p h e) = h
last_small (link p h e n (last p' h' e')) = h'
last_small (link p h e n (link p' h' e' n' ch)) = last_small (link p' h' e' n' ch)

module _ (m : Fat32Manager) (laid : IsLaidOut m.fat)
    (below : m.fat.fat2_sector + m.fat.n_sectors ≤ m.root_sec) where
  get_next_cluster-Agree :
      (vol vol' : Volume) (c : ℕ)
      → Agree m vol vol'
      → c < m.fat.n_entry
      → get_next_cluster m.fat vol' c ≡ get_next_cluster m.fat vol c
  unfolding get_next_cluster calculate_pos
  get_next_cluster-Agree vol vol' c same h =
      ap₂
        (λ (a b : ℕ).
          if a == bad_cluster then (if b == bad_cluster then 0 else low28 b) else low28 a)
        (same _ _ (omega (arith, laid.room, laid.apart, laid.fits, below)))
        (same _ _ (omega (arith, laid.room, laid.apart, laid.fits, below)))

  pub Chain-Agree :
      {vol : Volume} {c : ℕ} {cs : List ℕ} (vol' : Volume)
      → Agree m vol vol'
      → Chain m.fat vol c cs
      → Chain m.fat vol' c cs
  Chain-Agree {vol} vol' same (last {c} p h e) =
      last p h (ap ends (get_next_cluster-Agree vol vol' c same h) ∙ e)
  Chain-Agree {vol} vol' same (link {c} p h e n ch) =
      link p h (get_next_cluster-Agree vol vol' c same h ∙ e) n (Chain-Agree vol' same ch)

  pub IsDirectory-Agree :
      {vol : Volume} {e : ShortDirEntry} {cs : List ℕ} (vol' : Volume)
      → Agree m vol vol'
      → IsDirectory m vol e cs
      → IsDirectory m vol' e cs
  IsDirectory-Agree {vol} {cs = cs} vol' same w = record {
    dir = w.dir;
    chain = Chain-Agree vol' same w.chain;
    data_clusters = w.data_clusters;
    ending =
        subst (λ (x : ℕ). end_cluster ≤ x)
          (sym (get_next_cluster-Agree vol vol' (last_or 0 cs) same (last_small w.chain))) w.ending;
    small = w.small;
    few = w.few;
  }

-- What is written: slot `i` has the bytes, and the other slots, all other sectors and the files stay.
pub record SlotWritten (m : Fat32Manager) (cs : List ℕ) (vol vol' : Volume) (i : ℕ) (bytes : List ℕ)
    : Type 0 where
  pub slot :
      (j : ℕ) → j < slots m cs → slot vol' m cs j ≡ (if j == i then bytes else slot vol m cs j)
  pub elsewhere : (s o : ℕ) → s ≢ block_at m cs (i / 16) → vol'.info s o ≡ vol.info s o
  pub files : vol'.bytes ≡ vol.bytes

module _ {m : Fat32Manager} {vol : Volume} {e : ShortDirEntry} {cs : List ℕ} (v : IsMounted m)
    (w : IsDirectory m vol e cs)
    (distinct : (i j : ℕ) → i < length cs → j < length cs → get_or cs i 2 ≡ get_or cs j 2 → i ≡ j)
    (i : ℕ) (bytes : List ℕ) (whole : length bytes ≡ dirent_sz) (h : i < slots m cs) where
  put : Volume
  put = put_slice bytes vol true (block_at m cs (i / 16)) (32 * (i % 16))

  put-slot :
      AllBytes bytes
      → (j : ℕ) → j < slots m cs
      → slot put m cs j ≡ (if j == i then bytes else slot vol m cs j)
  unfolding put put_slice
  put-slot small j hj = elim (Bool-cases (j == i)) [
    | inl e ↦
        let at : j ≡ i = eq_of_== j i e in
        rw (at, ==_self i)
          (get_slice-eq dirent_sz bytes put (block_at m cs (i / 16)) (32 * (i % 16)) whole (λ o lt.
            written small (block_at m cs (i / 16)) (32 * (i % 16) + o)
            ∙ rw
                (
                  ==_self (block_at m cs (i / 16)),
                  inside (32 * (i % 16)) (length bytes) o (omega (arith, whole, lt)),
                )
                (ap (λ (x : ℕ). get_or bytes x 0) (omega arith))))
    | inr ne ↦ rw ne (
        get_slice-same dirent_sz vol put (block_at m cs (j / 16)) (32 * (j % 16)) (λ o lt.
          written small (block_at m cs (j / 16)) (32 * (j % 16) + o)
          ∙ elim (Bool-cases (block_at m cs (j / 16) == block_at m cs (i / 16))) [
            | inr apart ↦ rw apart refl
            | inl same ↦
                rw
                  (
                    outside o lt (ne_of_== j i ne)
                        (eq_of_== (block_at m cs (j / 16)) (block_at m cs (i / 16)) same),
                    same,
                  )
                  refl
          ]))
  ]
    where
      written :
          AllBytes bytes
          → (s o : ℕ)
          → get_byte put true s o ≡ (
              if s == block_at m cs (i / 16) && between (32 * (i % 16)) (length bytes) o
              then get_or bytes (o - 32 * (i % 16)) 0
              else get_byte vol true s o)
      written small s o =
          get_byte-put_slice bytes vol (block_at m cs (i / 16)) (32 * (i % 16)) s o small

      inside : (k n o : ℕ) → o < n → between k n (k + o) ≡ true
      inside k n o lt = ground arith

      outside_of :
          (j i n o : ℕ)
          → n ≡ 32
          → o < 32
          → j ≢ i
          → j / 16 ≡ i / 16
          → between (32 * (i % 16)) n (32 * (j % 16) + o) ≡ false
      outside_of j i n o e lt ne same = ground arith

      block_of : (x : ℕ) → x < slots m cs → x / 16 / m.sectors_per_cluster < length cs
      block_of x hx =
          (block_bound v w.chain w.data_clusters (omega arith) w.small (x / 16)
            (omega (arith, hx))).0

      outside :
          (o : ℕ)
          → o < 32
          → j ≢ i
          → block_at m cs (j / 16) ≡ block_at m cs (i / 16)
          → between (32 * (i % 16)) (length bytes) (32 * (j % 16) + o) ≡ false
      outside o lt ne same = outside_of j i (length bytes) o whole lt ne (
          block_at-injective v cs w.data_clusters distinct (j / 16) (i / 16) (block_of j hj)
            (block_of i h) same)

  one_write :
      (fuel c s : ℕ)
      → 0 < fuel
      → write_blocks fuel m vol true (32 * i + 32) (32 * i) c s bytes
        ≡ returned (some (32, put_slice bytes vol true s (32 * (i % 16))))
  unfolding write_blocks
  one_write zero c s f = absurd (omega arith)
  one_write (suc fuel) c s f =
      let size : 32 * i + 32 - 32 * i ≡ 32 = omega arith in
      let into : 32 * i % 512 ≡ 32 * (i % 16) = omega arith in
      rw
        (
          slot_end v w i h,
          size,
          into,
          leb_of_le (32 * i) (32 * i + 32) (omega arith),
          leb_of_le 32 (length bytes) (omega (arith, whole)),
          leb_of_le (32 * (i % 16) + 32) 512 (omega arith),
          ==_self (32 * i + 32),
          take_all bytes 32 (omega (arith, whole)),
        )
        refl

  write_to-slot :
      (walk : ℕ)
      → 0 < walk
      → write_to walk m vol e (32 * i) (32 * i + 32) bytes ≡ returned (some (32, put))
  unfolding write_to put
  write_to-slot walk f =
      let (c, s) = slot_place v w i h in
      rw (c, s, w.dir) (one_write walk (cluster_at m cs (i / 16)) (block_at m cs (i / 16)) f)

  -- `write_at` of a slot of a directory writes its 32 bytes, and leaves the other slots, all other sectors
  -- and the bytes of files as they were; with as much fuel as the directory has clusters.
  pub write_at-SlotWritten :
      (walk : ℕ)
      → length cs ≤ walk
      → AllBytes bytes
      → (vol' : Volume) × (write_at walk m vol e (32 * i) bytes ≡ returned (some (32, vol')))
        × SlotWritten m cs vol vol' i bytes
  unfolding write_at put
  write_at-SlotWritten walk enough small = (
    put,
    ap
          (λ (o : Option ℕ). elim o [
            | none ↦ returned none
            | some end ↦ write_to walk m vol e (32 * i) end bytes
          ])
          (ap (access_end_of walk) whole ∙ access_end-slot v w walk i enough (omega (arith, h)))
        ∙ write_to-slot walk (omega (arith, some_cluster v w)),
    record {
      slot = put-slot small;
      elsewhere =
          λ s o ne. put_slice-elsewhere bytes vol (block_at m cs (i / 16)) (32 * (i % 16)) s o ne;
      files = put_slice-bytes_stay bytes vol (block_at m cs (i / 16)) (32 * (i % 16));
    },
  )
    where
      access_end_of : ℕ → ℕ → Option ℕ
      access_end_of walk n = access_end walk m vol e (32 * i) n
