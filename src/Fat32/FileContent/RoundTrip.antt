-- ===== src/Fat32/FileContent/RoundTrip.antt =====
-- A file that is written and read.
use bitos.Base.{
  range, ℕ, zero, suc, ◌+◌, ◌-◌, ◌/◌, ◌^◌, ◌≤◌, ◌<◌, ◌≡◌, refl, ap, ap₂, ◌∙◌, arith, min, true,
  some, List, [], ◌∷◌, returned, length, get_or, take,
}
use bitos.Fat32.Volume.{Volume}
use bitos.Fat32.Manager.{Fat32Manager}
use bitos.Fat32.ShortDirEntry.{ShortDirEntry}
use bitos.Fat32.FileContent.{read_at, write_at}
use bitos.Fat32.FileContent.Reading.{IsMounted, byte_at, block_bound}
use bitos.Fat32.FileContent.Slices.{between, Written, Chain-info}
use bitos.Fat32.FileContent.Access.{IsFile, read_at-range}
use bitos.Fat32.FileContent.Writing.{write_at-Written}

pub range-eq-take :
    (f : ℕ → ℕ) (off n : ℕ) (buf : List ℕ)
    → n ≤ length buf
    → ((i : ℕ) → i < n → f (off + i) ≡ get_or buf i 0)
    → range f off n ≡ take n buf
range-eq-take f off zero buf h e = refl
range-eq-take f off (suc n) [] h e = absurd (omega arith)
range-eq-take f off (suc n) (b ∷ buf) h e =
    ap₂ ◌∷◌ (ap f (let z : off ≡ off + 0 = omega arith in z) ∙ e 0 (omega arith)) (
      range-eq-take f (suc off) n buf (omega arith) (λ i lt.
        ap f (let z : suc off + i ≡ off + suc i = omega arith in z) ∙ e (suc i) (omega arith)))

pub inside_window : (off n i : ℕ) → i < n → between off n (off + i) ≡ true
inside_window off n i h = ground arith

module _ {m : Fat32Manager} {vol : Volume} {e : ShortDirEntry} {cs : List ℕ} (v : IsMounted m)
    (w : IsFile m vol e cs)
    (distinct : (i j : ℕ)
      → i < length cs
      → j < length cs
      → get_or cs i 2 ≡ get_or cs j 2
      → i ≡ j) where
  pub still_IsFile : (vol' : Volume) → vol'.info ≡ vol.info → IsFile m vol' e cs
  still_IsFile vol' same = record {
    file = w.file;
    chain = Chain-info vol' same w.chain;
    data_clusters = w.data_clusters;
    holds = w.holds;
    size = w.size;
  }

  -- What was written is read.
  pub read_at-Written :
      (fuel offset : ℕ) (buf : List ℕ) (vol' : Volume)
      → offset + length buf < 2 ^ 64
      → offset < min (offset + length buf) e.size
      → length buf ≤ fuel
      → Written m cs vol vol' offset (min (offset + length buf) e.size - offset) buf
      → read_at fuel m vol' e offset (length buf)
        ≡ returned (some (take (min (offset + length buf) e.size - offset) buf))
  read_at-Written fuel offset buf vol' fits begins enough written =
      let n = min (offset + length buf) e.size - offset in
      let back : (i : ℕ) → i < n → byte_at vol' m cs (offset + i) ≡ get_or buf i 0 = λ i h.
        let (there, _, _) =
          block_bound v w.chain w.data_clusters w.holds w.size ((offset + i) / 512)
            (omega (arith, begins, h)) in
        written.bytes (offset + i) there
        ∙ rw (inside_window offset n i h) (ap (λ (k : ℕ). get_or buf k 0) (omega arith)) in
      read_at-range v (still_IsFile vol' written.info) fuel offset (length buf) fits enough
      ∙ ap (λ (l : List ℕ). returned (some l))
          (range-eq-take (byte_at vol' m cs) offset n buf (omega arith) back)

  -- What `write_at` writes to a file from an offset within it, `read_at` gives back from there: the bytes of
  -- the buffer, up to the end of the file.
  pub read_at-write_at :
      (fuel offset : ℕ) (buf : List ℕ)
      → offset + length buf < 2 ^ 64
      → offset < min (offset + length buf) e.size
      → length buf ≤ fuel
      → (vol' : Volume) × (write_at fuel m vol e offset buf
          ≡ returned (some (min (offset + length buf) e.size - offset, vol')))
        × (read_at fuel m vol' e offset (length buf)
            ≡ returned (some (take (min (offset + length buf) e.size - offset) buf)))
  read_at-write_at fuel offset buf fits begins enough =
      let (vol', done, written) =
        write_at-Written v w distinct fuel offset buf fits begins enough in
      (vol', done, read_at-Written fuel offset buf vol' fits begins enough written)
