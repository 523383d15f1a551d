-- ===== src/Fat32/Directory/Search.antt =====
-- The searches of a directory, against searches of the list of its entries.
use bitos.Base.{
  ℕ, zero, suc, ◌+◌, ◌*◌, ◌/◌, ◌%◌, ◌^◌, ◌≤◌, ◌<◌, ◌≡◌, inl, inr, refl, ap, ◌∙◌, arith, Bool, true,
  false, ◌&&◌, ◌||◌, if◌then◌else◌, Bool-cases, Option, none, some, List, [], ◌∷◌, returned, length,
  range, replicate, map,
}
use mathlib.Core.List.{append-nil}
use bitos.Fat32.Volume.{Volume}
use bitos.Fat32.Manager.{Fat32Manager}
use bitos.Fat32.ShortDirEntry.{ShortDirEntry, to_ascii_uppercase, get_name_uppercase}
use bitos.Fat32.ShortDirEntry
use bitos.Fat32.DirentBytes.{dirent_sz, from_bytes}
use bitos.Fat32.FileContent.{get_slice}
use bitos.Fat32.FileContent.Reading.{IsMounted, block_at}
use bitos.Fat32.VirtualFile.{FileSystem, VFile, is_dir, read_short_dirent}
use bitos.Fat32.Directory.{
  string_eq, read_dirent, seek_free_dirent, find_free_dirent, found_at, seek_short_name,
  find_short_name,
}
use bitos.Fat32.Directory.Slots.{IsDirectory, slots, slot, read_at-slot, read_at-behind}

-- The entries of a directory.
abbrev pub entry_at : Volume → Fat32Manager → List ℕ → ℕ → ShortDirEntry
entry_at vol m cs i = from_bytes (slot vol m cs i)

abbrev pub entries : Volume → Fat32Manager → List ℕ → List ShortDirEntry
entries vol m cs = range (entry_at vol m cs) 0 (slots m cs)

-- The place of the first empty entry, or the end.
abbrev pub first_empty : List ShortDirEntry → ℕ
first_empty [] = 0
first_empty (e ∷ es) = if ShortDirEntry.is_empty e then 0 else suc (first_empty es)

-- The first valid entry with the name, before the first that is empty.
abbrev pub first_named :
    (name_upper : List ℕ) → List ShortDirEntry → (i : ℕ) → Option (ℕ × ShortDirEntry)
first_named name_upper [] i = none
first_named name_upper (e ∷ es) i =
    if ShortDirEntry.is_empty e
    then none
    else if ShortDirEntry.is_valid e && string_eq name_upper (get_name_uppercase e)
    then some (i, e)
    else first_named name_upper es (suc i)

length-get_slice : (n : ℕ) (vol : Volume) (s k : ℕ) → length (get_slice n vol true s k) ≡ n
unfolding get_slice
length-get_slice zero vol s k = refl
length-get_slice (suc n) vol s k = ap suc (length-get_slice n vol s (suc k))

or_true : (b : Bool) → b || true ≡ true
or_true true = refl
or_true false = refl

or_false : (b : Bool) → b || false ≡ b
or_false true = refl
or_false false = refl

-- The file of an entry.
abbrev pub named_file :
    FileSystem → (dir : VFile) → (name : List ℕ) → Option (ℕ × ShortDirEntry) → Option VFile
named_file fs dir name none = none
named_file fs dir name (some (i, x)) = some (found_at fs dir name x (32 * i) [])

module _ (fs : FileSystem) (e : ShortDirEntry) {cs : List ℕ} (v : IsMounted fs.manager)
    (w : IsDirectory fs.manager fs.vol e cs) where
  read_dirent-slot :
      (walk i : ℕ)
      → length cs ≤ walk
      → i < slots fs.manager cs
      → read_dirent walk fs e (32 * i) ≡ returned (some (slot fs.vol fs.manager cs i))
  unfolding read_dirent
  read_dirent-slot walk i enough h = read_at-slot v w walk i enough h

  read_dirent-behind :
      (walk : ℕ)
      → length cs ≤ walk
      → read_dirent walk fs e (32 * slots fs.manager cs) ≡ returned (some [])
  unfolding read_dirent
  read_dirent-behind walk enough = read_at-behind v w walk enough

  next_slot : (i : ℕ) → i < slots fs.manager cs → (32 * i + dirent_sz) % 2 ^ 64 ≡ 32 * suc i
  next_slot i h = omega (arith, w.small)

  seek_free_dirent-first_empty :
      (fuel walk i n : ℕ)
      → length cs ≤ walk
      → i + n ≡ slots fs.manager cs
      → n < fuel
      → seek_free_dirent fuel walk fs e (32 * i)
        ≡ returned (some (32 * (i + first_empty (range (entry_at fs.vol fs.manager cs) i n))))
  unfolding seek_free_dirent
  seek_free_dirent-first_empty zero walk i n enough all f = absurd (omega arith)
  seek_free_dirent-first_empty (suc fuel) walk i zero enough all f =
      let at : i ≡ slots fs.manager cs = omega (arith, all) in
      rw
        (
          at,
          read_dirent-behind walk enough,
          or_true (ShortDirEntry.is_empty (from_bytes (replicate 32 0))),
        )
        (ap (λ (x : ℕ). returned (some x)) (omega arith))
  seek_free_dirent-first_empty (suc fuel) walk i (suc n) enough all f =
      let size =
        length-get_slice dirent_sz fs.vol (block_at fs.manager cs (i / 16)) (32 * (i % 16)) in
      rw
        (
          read_dirent-slot walk i enough (omega (arith, all)),
          size,
          append-nil (slot fs.vol fs.manager cs i),
          or_false (ShortDirEntry.is_empty (entry_at fs.vol fs.manager cs i)),
        )
        (elim (Bool-cases (ShortDirEntry.is_empty (entry_at fs.vol fs.manager cs i))) [
          | inl free ↦ rw free (ap (λ (x : ℕ). returned (some x)) (omega arith))
          | inr taken ↦
              rw (taken, next_slot i (omega (arith, all)))
                (seek_free_dirent-first_empty fuel walk (suc i) n enough (omega arith) (omega arith)
                  ∙ ap (λ (x : ℕ). returned (some (32 * x))) (omega arith))
        ])

  -- `find_free_dirent` of a directory gives the offset of its first empty entry, or of its end; with as much
  -- fuel for each walk as the directory has clusters, and more for the loop than it has slots.
  pub find_free_dirent-first_empty :
      (f : VFile) (fuel walk : ℕ)
      → is_dir f ≡ true
      → read_short_dirent fs f ≡ e
      → length cs ≤ walk
      → slots fs.manager cs < fuel
      → find_free_dirent fuel walk fs f
        ≡ returned (some (some (32 * first_empty (entries fs.vol fs.manager cs))))
  unfolding find_free_dirent
  find_free_dirent-first_empty f fuel walk dir same enough more =
      rw
        (
          dir,
          same,
          seek_free_dirent-first_empty fuel walk 0 (slots fs.manager cs) enough (omega arith) more,
        )
        (ap (λ (x : ℕ). returned (some (some (32 * x)))) (omega arith))

  seek_short_name-first_named :
      (dir : VFile) (name name_upper : List ℕ) (fuel walk i n : ℕ)
      → length cs ≤ walk
      → i + n ≡ slots fs.manager cs
      → n < fuel
      → seek_short_name fuel walk fs dir name name_upper e (32 * i)
        ≡ returned (
            some (
              named_file fs dir name
                (first_named name_upper (range (entry_at fs.vol fs.manager cs) i n) i)))
  unfolding seek_short_name
  seek_short_name-first_named dir name name_upper zero walk i n enough all f = absurd (omega arith)
  seek_short_name-first_named dir name name_upper (suc fuel) walk i zero enough all f =
      let at : i ≡ slots fs.manager cs = omega (arith, all) in
      rw (at, read_dirent-behind walk enough) refl
  seek_short_name-first_named dir name name_upper (suc fuel) walk i (suc n) enough all f =
      let size =
        length-get_slice dirent_sz fs.vol (block_at fs.manager cs (i / 16)) (32 * (i % 16)) in
      let x = entry_at fs.vol fs.manager cs i in
      rw (read_dirent-slot walk i enough (omega (arith, all)), size)
        (elim (Bool-cases (ShortDirEntry.is_empty x)) [
          | inl free ↦ rw free refl
          | inr taken ↦
              elim (Bool-cases
                (ShortDirEntry.is_valid x && string_eq name_upper (get_name_uppercase x))) [
                  | inl found ↦ rw (taken, found) refl
                  | inr other ↦
                      rw (taken, other, next_slot i (omega (arith, all)))
                        (seek_short_name-first_named dir name name_upper fuel walk (suc i) n enough
                          (omega arith) (omega arith))
                ]
        ])

  pub find_short_name-first_named :
      (dir : VFile) (name : List ℕ) (fuel walk : ℕ)
      → length cs ≤ walk
      → slots fs.manager cs < fuel
      → find_short_name fuel walk fs dir name e
        ≡ returned (
            some (
              named_file fs dir name
                (first_named (map to_ascii_uppercase name) (entries fs.vol fs.manager cs) 0)))
  unfolding find_short_name
  find_short_name-first_named dir name fuel walk enough more =
      seek_short_name-first_named dir name (map to_ascii_uppercase name) fuel walk 0
        (slots fs.manager cs) enough (omega arith) more
