-- ===== src/Fs/Inode/Writing.antt =====
-- What an `OSInode` writes.
use bitos.Base.{
  ℕ, ◌+◌, ◌-◌, ◌/◌, ◌%◌, ◌^◌, ◌≤◌, ◌<◌, ◌≡◌, refl, sym, ap, ap₂, subst, ◌∙◌, arith, min, ==_self,
  Option, some, List, [], ◌∷◌, ◌++◌, Outcome, returned, length, get_or, length-append, range,
  get_or-append_left, get_or-append_right, take_all,
}
use bitos.Fat32.Volume.{Volume}
use bitos.Fat32.Manager.{Fat32Manager}
use bitos.Fat32.ShortDirEntry.{ShortDirEntry}
use bitos.Fat32.FileContent.Reading.{IsMounted, byte_at, block_bound}
use bitos.Fat32.FileContent.Slices.{Written}
use bitos.Fat32.FileContent.Access.{IsFile}
use bitos.Fat32.FileContent.Writing.{write_at-Written}
use bitos.Fat32.FileContent.RoundTrip.{range-eq-take, inside_window, still_IsFile}
use bitos.Fat32.VirtualFile.{FileSystem, VFile, read_short_dirent, write_content}
use bitos.Fat32.VirtualFile
use bitos.Fat32.VirtualFile.RoundTrip.{read_short_dirent-info, increase_size-within}
use bitos.Fs.Inode.{OsInode, read, write_slices, write}
use bitos.Fs.Inode.Reading.{flatten, sum, AllPositive, read-content}

-- No slice is empty.
abbrev pub AllFilled : List (List ℕ) → Type 0
AllFilled [] = Unit
AllFilled (slice ∷ slices) = (0 < length slice) × AllFilled slices

-- Nothing written, and a write behind a write.
Written-none :
    {m : Fat32Manager} {cs : List ℕ} {vol : Volume} (off : ℕ) → Written m cs vol vol off 0 []
Written-none off = record {
  info = refl;
  bytes = λ o there. ground arith;
  elsewhere = λ s k out. refl;
}

Written-append :
    {m : Fat32Manager} {cs : List ℕ} {vol vol1 vol2 : Volume} {off : ℕ} (xs ys : List ℕ)
    → Written m cs vol vol1 off (length xs) xs
    → Written m cs vol1 vol2 (off + length xs) (length ys) ys
    → Written m cs vol vol2 off (length xs + length ys) (xs ++ ys)
Written-append {off = off} xs ys w w2 = record {
  info = w2.info ∙ w.info;
  bytes =
      λ o there. w2.bytes o there ∙ ground (arith, w.bytes o there, first_part o, second_part o);
  elsewhere = λ s k out. w2.elsewhere s k out ∙ w.elsewhere s k out;
}
  where
    first_part :
        (o : ℕ) → o - off < length xs → get_or (xs ++ ys) (o - off) 0 ≡ get_or xs (o - off) 0
    first_part o h = get_or-append_left xs ys (o - off) 0 h

    second_part :
        (o : ℕ)
        → off + length xs ≤ o
        → get_or (xs ++ ys) (o - off) 0 ≡ get_or ys (o - (off + length xs)) 0
    second_part o h =
        ap (λ (k : ℕ). get_or (xs ++ ys) k 0)
          (let e : o - off ≡ length xs + (o - (off + length xs)) = omega arith in e)
        ∙ get_or-append_right xs ys (o - (off + length xs)) 0

write_step :
    (walk : ℕ) (fs fs1 fs2 : FileSystem) (f : VFile) (offset total next counted k n : ℕ)
    (slice : List ℕ) (slices : List (List ℕ))
    → VirtualFile.write_at walk fs f offset slice ≡ returned (some (length slice, fs1))
    → (offset + length slice) % 2 ^ 64 ≡ next
    → (total + length slice) % 2 ^ 64 ≡ counted
    → write_slices slices walk fs1 f next counted ≡ returned (some (fs2, k, n))
    → write_slices (slice ∷ slices) walk fs f offset total ≡ returned (some (fs2, k, n))
unfolding write_slices
write_step walk fs fs1 fs2 f offset total next counted k n slice slices here moved added rest =
    rw (here, ==_self (length slice), moved, added, rest) refl

-- What a loop over slices writes of the file with the clusters `cs`.
abbrev Writes :
    (cs : List ℕ)
    → FileSystem
    → (offset total : ℕ) → List ℕ
    → Outcome (Option (FileSystem × ℕ × ℕ))
    → Type 0
Writes cs fs offset total bytes o =
    (vol' : Volume) × (o
      ≡ returned (some (record fs { vol = vol' }, offset + length bytes, total + length bytes)))
    × Written fs.manager cs fs.vol vol' offset (length bytes) bytes

module _ (f : VFile) {cs : List ℕ}
    (distinct : (i j : ℕ)
      → i < length cs
      → j < length cs
      → get_or cs i 2 ≡ get_or cs j 2
      → i ≡ j) where
  write_at-within :
      (fs : FileSystem) (walk offset : ℕ) (slice : List ℕ)
      → IsMounted fs.manager
      → IsFile fs.manager fs.vol (read_short_dirent fs f) cs
      → 0 < length slice
      → offset + length slice ≤ (read_short_dirent fs f).size
      → length slice ≤ walk
      → (vol' : Volume) × (VirtualFile.write_at walk fs f offset slice
          ≡ returned (some (length slice, record fs { vol = vol' })))
        × Written fs.manager cs fs.vol vol' offset (length slice) slice
  unfolding VirtualFile.write_at write_content
  write_at-within fs walk offset slice v w more fits enough =
      let size = (read_short_dirent fs f).size in
      let n = min (offset + length slice) size - offset in
      let whole : n ≡ length slice = omega (arith, fits) in
      let (vol', done, written) =
        write_at-Written v w distinct walk offset slice (omega (arith, w.size, fits))
          (omega (arith, more, fits)) enough in
      let wraps : (offset + length slice) % 2 ^ 64 % 2 ^ 32 ≤ size = omega (arith, w.size, fits) in
      (
        vol',
        rw (increase_size-within walk fs f ((offset + length slice) % 2 ^ 64 % 2 ^ 32) wraps, done)
            (ap (λ (k : ℕ). returned (some (k, record fs { vol = vol' }))) whole),
        subst (λ (k : ℕ). Written fs.manager cs fs.vol vol' offset k slice) whole written,
      )

  write_slices-Writes :
      (fs : FileSystem) (walk offset total : ℕ) (slices : List (List ℕ))
      → IsMounted fs.manager
      → IsFile fs.manager fs.vol (read_short_dirent fs f) cs
      → AllFilled slices
      → offset + length (flatten slices) ≤ (read_short_dirent fs f).size
      → total + length (flatten slices) < 2 ^ 64
      → length (flatten slices) ≤ walk
      → Writes cs fs offset total (flatten slices) (write_slices slices walk fs f offset total)
  unfolding write_slices
  write_slices-Writes fs walk offset total [] v w filled fits small enough = (
    fs.vol,
    ap₂ (λ (k x : ℕ). returned (some (fs, k, x))) (let z : offset ≡ offset + 0 = omega arith in z)
        (let z : total ≡ total + 0 = omega arith in z),
    Written-none offset,
  )
  write_slices-Writes fs walk offset total (slice ∷ slices) v w (more, filled) fits small enough =
      let counted = length-append slice (flatten slices) in
      let (vol1, here, written) =
        write_at-within fs walk offset slice v w more (omega (arith, counted, fits))
          (omega (arith, counted, enough)) in
      let stays = read_short_dirent-info fs vol1 f written.info in
      let w1 =
        subst (λ (e : ShortDirEntry). IsFile fs.manager vol1 e cs) (sym stays)
          (still_IsFile v w distinct vol1 written.info) in
      let (vol2, rest, written2) =
        write_slices-Writes (record fs { vol = vol1 }) walk (offset + length slice)
          (total + length slice) slices v w1 filled
          (omega (arith, counted, fits, ap (λ (e : ShortDirEntry). e.size) stays))
          (omega (arith, counted, small)) (omega (arith, counted, enough)) in
      let together : length slice + length (flatten slices) ≡ length (slice ++ flatten slices) =
        omega (arith, counted) in
      let sums : (k : ℕ)
          → k + length slice + length (flatten slices) ≡ k + length (slice ++ flatten slices) =
        λ k. omega (arith, counted) in
      (
        vol2,
        write_step walk fs (record fs { vol = vol1 }) (record fs { vol = vol2 }) f offset total
              (offset + length slice) (total + length slice)
              (offset + length slice + length (flatten slices))
              (total + length slice + length (flatten slices)) slice slices here
              (omega (arith, counted, fits, w.size)) (omega (arith, counted, small)) rest
            ∙ ap₂ (λ (k x : ℕ). returned (some (record fs { vol = vol2 }, k, x))) (sums offset)
                (sums total),
        subst (λ (k : ℕ). Written fs.manager cs fs.vol vol2 offset k (slice ++ flatten slices))
            together (Written-append slice (flatten slices) written written2),
      )

  read_back :
      (fs : FileSystem) (vol' : Volume) (offset : ℕ) (bytes : List ℕ)
      → IsMounted fs.manager
      → IsFile fs.manager fs.vol (read_short_dirent fs f) cs
      → offset + length bytes ≤ (read_short_dirent fs f).size
      → Written fs.manager cs fs.vol vol' offset (length bytes) bytes
      → range (byte_at vol' fs.manager cs) offset (length bytes) ≡ bytes
  read_back fs vol' offset bytes v w fits written =
      let n = length bytes in
      let back : (i : ℕ) → i < n → byte_at vol' fs.manager cs (offset + i) ≡ get_or bytes i 0 =
        λ i h.
          let (there, _, _) =
            block_bound v w.chain w.data_clusters w.holds w.size ((offset + i) / 512)
              (omega (arith, fits, h)) in
          written.bytes (offset + i) there
          ∙ rw (inside_window offset n i h) (ap (λ (k : ℕ). get_or bytes k 0) (omega arith)) in
      range-eq-take (byte_at vol' fs.manager cs) offset n bytes (omega arith) back
      ∙ take_all bytes n (omega arith)

  -- What `OSInode::write` of a file writes through slices, none of them empty, that end within the file, another
  -- `read` from the same offset into slices of as many bytes gives back, on a mounted volume and with as much
  -- fuel as there are bytes; both return the number of the bytes and leave the offset behind them.
  pub read-write :
      (fs : FileSystem) (o : OsInode) (slices : List (List ℕ)) (lens : List ℕ) (walk : ℕ)
      → o.inode ≡ f
      → IsMounted fs.manager
      → IsFile fs.manager fs.vol (read_short_dirent fs f) cs
      → AllFilled slices
      → AllPositive lens
      → sum lens ≡ length (flatten slices)
      → o.offset + length (flatten slices) ≤ (read_short_dirent fs f).size
      → length (flatten slices) ≤ walk
      → (fs' : FileSystem) × (o' : OsInode) × (parts : List (List ℕ)) × (write walk fs o slices
          ≡ returned (some (fs', length (flatten slices), o')))
        × (read walk fs' o lens ≡ returned (some (parts, length (flatten slices), o')))
        × (flatten parts ≡ flatten slices)
  unfolding write
  read-write fs o slices lens walk same v w filled ps counted fits enough =
      let size = (read_short_dirent fs f).size in
      let (vol', wrote, written) =
        write_slices-Writes fs walk o.offset 0 slices v w filled fits (omega (arith, fits, w.size))
          enough in
      let stays = read_short_dirent-info fs vol' f written.info in
      let fs' = record fs { vol = vol' } in
      let sizes : (read_short_dirent fs' f).size ≡ size =
        ap (λ (e : ShortDirEntry). e.size) stays in
      let w' =
        subst (λ (e : ShortDirEntry). IsFile fs.manager vol' e cs) (sym stays)
          (still_IsFile v w distinct vol' written.info) in
      let (parts, got, bytes) =
        read-content fs' f v w' o lens walk same ps (omega (arith, counted, fits, w.size))
          (omega (arith, counted, enough)) in
      let n : min (o.offset + sum lens) (read_short_dirent fs' f).size - o.offset
          ≡ length (flatten slices) =
        omega (arith, counted, fits, sizes) in
      let from_zero : 0 + length (flatten slices) ≡ length (flatten slices) = omega arith in
      (
        fs',
        record o { offset = o.offset + length (flatten slices) },
        parts,
        rw (same, wrote, from_zero) refl,
        got ∙ ap (λ (k : ℕ). returned (some (parts, k, record o { offset = o.offset + k }))) n,
        bytes
            ∙ ap (range (byte_at vol' fs.manager cs) o.offset) n
            ∙ read_back fs vol' o.offset (flatten slices) v w fits written,
      )
