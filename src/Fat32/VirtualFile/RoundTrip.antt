-- ===== src/Fat32/VirtualFile/RoundTrip.antt =====
-- A write within a virtual file, and what it reads then.
use bitos.Base.{
  ℕ, zero, suc, ◌+◌, ◌-◌, ◌*◌, ◌/◌, ◌%◌, ◌^◌, ◌≤◌, ◌<◌, ◌≡◌, refl, ap, ap₂, ◌∙◌, arith, min, true,
  some, List, ◌∷◌, returned, length, get_or, take_all, leb_of_le,
}
use bitos.Fat32.Volume.{Volume}
use bitos.Fat32.ShortDirEntry.{ShortDirEntry}
use bitos.Fat32.DirentBytes.{dirent_sz}
use bitos.Fat32.FileContent.{get_byte, get_slice}
use bitos.Fat32.FileContent
use bitos.Fat32.FileContent.Reading.{IsMounted}
use bitos.Fat32.FileContent.Access.{IsFile}
use bitos.Fat32.FileContent.Writing.{write_at-Written}
use bitos.Fat32.FileContent.RoundTrip.{read_at-Written}
use bitos.Fat32.VirtualFile.{
  FileSystem, VFile, read_short_dirent, increase_size, write_content, read_at, write_at,
}

pub get_slice-info :
    (n : ℕ) (vol vol' : Volume) (s k : ℕ)
    → vol'.info ≡ vol.info
    → get_slice n vol' true s k ≡ get_slice n vol true s k
unfolding get_slice get_byte
get_slice-info zero vol vol' s k same = refl
get_slice-info (suc n) vol vol' s k same =
    ap₂ ◌∷◌ (ap (λ (info : ℕ → ℕ → ℕ). info s (k / 4 * 4) / 2 ^ (8 * (k % 4)) % 2 ^ 8) same)
      (get_slice-info n vol vol' s (suc k) same)

-- The entry of a file is in the words of its directory, which a write of a file leaves.
pub read_short_dirent-info :
    (fs : FileSystem) (vol' : Volume) (f : VFile)
    → vol'.info ≡ fs.vol.info
    → read_short_dirent (record fs { vol = vol' }) f ≡ read_short_dirent fs f
unfolding read_short_dirent
read_short_dirent-info fs vol' f same =
    rw (get_slice-info dirent_sz fs.vol vol' f.short_sector f.short_offset same) refl

pub increase_size-within :
    (fuel : ℕ) (fs : FileSystem) (f : VFile) (new_size : ℕ)
    → new_size ≤ (read_short_dirent fs f).size
    → increase_size fuel fs f new_size ≡ returned (some fs)
unfolding increase_size
increase_size-within fuel fs f new_size h =
    rw (leb_of_le new_size (read_short_dirent fs f).size h) refl

module _ (fs : FileSystem) (f : VFile) {cs : List ℕ} (v : IsMounted fs.manager)
    (w : IsFile fs.manager fs.vol (read_short_dirent fs f) cs)
    (distinct : (i j : ℕ)
      → i < length cs
      → j < length cs
      → get_or cs i 2 ≡ get_or cs j 2
      → i ≡ j) where
  -- A buffer that is not empty and fits into a file from an offset on is written whole, and a read of as many
  -- bytes from there gives it back, through the entry of the file, which stays as it was.
  pub read_at-write_at_within :
      (fuel offset : ℕ) (buf : List ℕ)
      → 0 < length buf
      → offset + length buf ≤ (read_short_dirent fs f).size
      → length buf ≤ fuel
      → (fs' : FileSystem) × (write_at fuel fs f offset buf ≡ returned (some (length buf, fs')))
        × (read_at fuel fs' f offset (length buf) ≡ returned (some buf))
        × (read_short_dirent fs' f ≡ read_short_dirent fs f)
  unfolding write_at write_content read_at
  read_at-write_at_within fuel offset buf more fits enough =
      let size = (read_short_dirent fs f).size in
      let n = min (offset + length buf) size - offset in
      let whole : n ≡ length buf = omega (arith, fits) in
      let (vol', done, written) =
        write_at-Written v w distinct fuel offset buf (omega (arith, w.size, fits))
          (omega (arith, more, fits)) enough in
      let stays = read_short_dirent-info fs vol' f written.info in
      let wraps : (offset + length buf) % 2 ^ 64 % 2 ^ 32 ≤ size = omega (arith, w.size, fits) in
      (
        record fs { vol = vol' },
        rw (increase_size-within fuel fs f ((offset + length buf) % 2 ^ 64 % 2 ^ 32) wraps, done)
            (ap (λ (k : ℕ). returned (some (k, record fs { vol = vol' }))) whole),
        ap (λ (e : ShortDirEntry). FileContent.read_at fuel fs.manager vol' e offset (length buf))
              stays
            ∙ read_at-Written v w distinct fuel offset buf vol' (omega (arith, w.size, fits))
                (omega (arith, more, fits)) enough written
            ∙ ap (λ (l : List ℕ). returned (some l)) (take_all buf n (omega (arith, whole))),
        stays,
      )
