-- ===== src/Fat32/Creation/Found.antt =====
-- A file that is created with a short name, and found.
use bitos.Base.{
  ℕ, zero, suc, ◌+◌, ◌-◌, ◌*◌, ◌/◌, ◌%◌, ◌^◌, ◌≤◌, ◌<◌, ◌≡◌, ◌≢◌, inl, inr, refl, sym, ap, subst,
  ◌∙◌, arith, bit_and, Bool, true, false, ◌&&◌, ◌==◌, if◌then◌else◌, Bool-cases, Option, none, some,
  List, [], returned, length, get_or, range, map, ==_self, ==_of_ne, eq_of_==, ne_of_==,
}
use mathlib.Core.Option.{none-ne-some}
use bitos.Fat32.Volume.{Volume}
use bitos.Fat32.Table.Chains.{Chain, last, link}
use bitos.Fat32.Table.Entries.{IsLaidOut}
use bitos.Fat32.ShortDirEntry.{
  ShortDirEntry, attribute_directory, to_ascii_uppercase, get_name_uppercase, set_case,
  first_cluster,
}
use bitos.Fat32.ShortDirEntry
use bitos.Fat32.DirentBytes.{dirent_sz, as_bytes, from_bytes}
use bitos.Fat32.FileContent.{get_byte}
use bitos.Fat32.FileContent.Reading.{IsMounted, block_at}
use bitos.Fat32.VirtualFile.{FileSystem, VFile, is_dir, read_short_dirent}
use bitos.Fat32.Directory.{string_eq, found_at, find_vfile_byname}
use bitos.Fat32.Directory.Slots.{IsDirectory, slots}
use bitos.Fat32.Directory.Writing.{SlotWritten, get_slice-same, IsDirectory-Agree}
use bitos.Fat32.Directory.Search.{
  entry_at, entries, first_empty, first_named, named_file, find_free_dirent-first_empty,
}
use bitos.Fat32.Directory.Lookup.{find_vfile_byname-first_named, read_short_dirent-found_at}
use bitos.Fat32.DirentBytes.RoundTrip.{from_bytes-as_bytes}
use bitos.Fat32.Creation.Names.{
  IsShortName, joined, joined_not_long, joined_parts_short, get_name_uppercase-short_entry,
  short_entry-valid, short_entry-IsSized, short_entry-AllBytes, string_eq_self,
}
use bitos.Fat32.Creation.Writing.{write_dirent-SlotWritten}
use bitos.Fat32.Creation.{short_entry, all_lower_case, write_name, created, create}

head_full : (b : Bool) (k d : ℕ) → (if b then 0 else suc k) ≡ suc d → (b ≡ false) × (k ≡ d)
head_full true k d h = absurd (omega (arith, h))
head_full false k d h = (refl, omega (arith, h))

head_missing :
    {A : Type 0} (a : A) {o : Option A} (b : Bool)
    → (if b then some a else o) ≡ none
    → (b ≡ false) × (o ≡ none)
head_missing a true h = absurd (none-ne-some a (sym h))
head_missing a false h = (refl, h)

-- A name that was missing is found in the first empty slot, once its entry stands there.
first_named-new :
    (upper : List ℕ) (g g' : ℕ → ShortDirEntry) (x : ShortDirEntry) (i n j : ℕ)
    → j ≤ i
    → i < j + n
    → g' i ≡ x
    → ((k : ℕ) → j ≤ k → k < i → g' k ≡ g k)
    → first_empty (range g j n) ≡ i - j
    → first_named upper (range g j n) j ≡ none
    → ShortDirEntry.is_empty x ≡ false
    → (ShortDirEntry.is_valid x && string_eq upper (get_name_uppercase x)) ≡ true
    → first_named upper (range g' j n) j ≡ some (i, x)
first_named-new upper g g' x i zero j lo hi at same free missing full match = absurd (omega arith)
first_named-new upper g g' x i (suc n) j lo hi at same free missing full match =
    elim (Bool-cases (j == i)) [
      | inl here ↦
          let e : j ≡ i = eq_of_== j i here in
          rw (ap g' e ∙ at, full, match) (ap (λ (k : ℕ). some (k, x)) e)
      | inr before ↦
          let lt : j < i = omega (arith, ne_of_== j i before) in
          let (taken, rest) =
            head_full (ShortDirEntry.is_empty (g j)) (first_empty (range g (suc j) n)) (i - suc j)
              (free ∙ omega arith) in
          let (other, none_later) =
            head_missing (j, g j)
              (ShortDirEntry.is_valid (g j) && string_eq upper (get_name_uppercase (g j)))
              (rw taken at missing) in
          rw (same j (omega arith) lt, taken, other)
            (first_named-new upper g g' x i n (suc j) lt (omega arith) at
              (λ k a b. same k (omega arith) b) rest none_later full match)
    ]

-- The entry that `create` writes for a short name.
abbrev pub new_entry : (name : List ℕ) → (attribute : ℕ) → ShortDirEntry
new_entry name attribute = set_case (short_entry name attribute) all_lower_case

-- What `create` does for a short name that is new.
pub record NewFile (fs : FileSystem) (dir : VFile) (cs : List ℕ) (fs' : FileSystem) (f : VFile)
    (fuel walk i : ℕ) (name : List ℕ) (attribute : ℕ) : Type 0 where
  pub made : create fuel walk fs dir name attribute ≡ returned (some (some f, fs'))
  pub found : find_vfile_byname fuel walk fs' dir name ≡ returned (some (some f))
  pub entry : read_short_dirent fs' f ≡ new_entry name attribute
  pub others :
      (j : ℕ)
      → j < slots fs.manager cs
      → j ≢ i
      → entry_at fs'.vol fs.manager cs j ≡ entry_at fs.vol fs.manager cs j
  pub files : fs'.vol.bytes ≡ fs.vol.bytes

module _ (fs : FileSystem) (dir : VFile) {cs : List ℕ} (v : IsMounted fs.manager)
    (w : IsDirectory fs.manager fs.vol (read_short_dirent fs dir) cs)
    (directory : is_dir dir ≡ true)
    (modest : 512 * (fs.manager.sectors_per_cluster * length cs) ≤ 2 ^ 31)
    (distinct : (i j : ℕ) → i < length cs → j < length cs → get_or cs i 2 ≡ get_or cs j 2 → i ≡ j)
    (laid : IsLaidOut fs.manager.fat)
    (below : fs.manager.fat.fat2_sector + fs.manager.fat.n_sectors ≤ fs.manager.root_sec) where
  low_root : 0 < fs.manager.root_sec
  low_root = omega (arith, laid.room, below, some_entry w.chain)
    where
      some_entry :
          {vol : Volume} {c : ℕ} {xs : List ℕ}
          → Chain fs.manager.fat vol c xs
          → 0 < fs.manager.fat.n_entry
      some_entry (last p h e) = omega (arith, p, h)
      some_entry (link p h e n ch) = omega (arith, p, h)

  module _ (vol' : Volume) (i : ℕ) (bytes : List ℕ) (h : i < slots fs.manager cs)
      (written : SlotWritten fs.manager cs fs.vol vol' i bytes)
      (home : dir.short_sector ≢ block_at fs.manager cs (i / 16)) where
    -- The directory's own entry and its chain stay.
    same_dirent : read_short_dirent (record fs { vol = vol' }) dir ≡ read_short_dirent fs dir
    unfolding read_short_dirent get_byte
    same_dirent =
        ap (λ (bs : List ℕ). if dir.short_sector == 0 then fs.root_dirent else from_bytes bs)
          (get_slice-same dirent_sz fs.vol vol' dir.short_sector dir.short_offset (λ o lt.
            ap (λ (x : ℕ). x / 2 ^ (8 * ((dir.short_offset + o) % 4)) % 2 ^ 8)
              (written.elsewhere dir.short_sector ((dir.short_offset + o) / 4 * 4) home)))

    still_IsDirectory :
        IsDirectory fs.manager vol' (read_short_dirent (record fs { vol = vol' }) dir) cs
    still_IsDirectory =
        subst (λ (e : ShortDirEntry). IsDirectory fs.manager vol' e cs) (sym same_dirent)
          (IsDirectory-Agree fs.manager laid below vol'
            (λ s o lt. written.elsewhere s o (λ e. absurd (omega (arith, e, lt)))) w)

    entry_same :
        (j : ℕ)
        → j < slots fs.manager cs
        → j ≢ i
        → entry_at vol' fs.manager cs j ≡ entry_at fs.vol fs.manager cs j
    entry_same j hj ne = ap from_bytes (written.slot j hj ∙ rw (==_of_ne j i ne) refl)

    entry_new : entry_at vol' fs.manager cs i ≡ from_bytes bytes
    entry_new = ap from_bytes (written.slot i h ∙ rw (==_self i) refl)

  -- `create` of a short name that is not in the directory yet, for a file, with a free slot in its last cluster:
  -- it returns the file that a lookup of the name finds from then on, whose entry is the one for this name; it
  -- writes it into the first empty slot, and the other slots and the bytes of files stay. On a mounted volume
  -- whose table lies below its clusters, for a directory of at most 2 ^ 31 bytes in distinct data clusters whose
  -- own entry is not in the sector of the slot; with as much fuel for each walk as it has clusters, and more for
  -- the loops than it has slots.
  pub create-NewFile :
      {base ext : List ℕ} (s : IsShortName base ext) (attribute fuel walk : ℕ)
      → attribute < 2 ^ 8
      → (bit_and attribute attribute_directory == 0) ≡ true
      → length cs ≤ walk
      → slots fs.manager cs < fuel
      → first_empty (entries fs.vol fs.manager cs) < slots fs.manager cs
      → slots fs.manager cs
        ≤ first_empty (entries fs.vol fs.manager cs) + 16 * fs.manager.sectors_per_cluster
      → dir.short_sector ≢ block_at fs.manager cs (first_empty (entries fs.vol fs.manager cs) / 16)
      → first_named (map to_ascii_uppercase (joined base ext)) (entries fs.vol fs.manager cs) 0
        ≡ none
      → (fs' : FileSystem) × (f : VFile) × NewFile fs dir cs fs' f fuel walk
          (first_empty (entries fs.vol fs.manager cs))
          (joined base ext)
          attribute
  unfolding create write_name created
  create-NewFile {base} {ext} s attribute fuel walk byte plain enough more free final home missing =
      let m = fs.manager in
      let i = first_empty (entries fs.vol m cs) in
      let name = joined base ext in
      let e = new_entry name attribute in
      let (whole, back) =
        from_bytes-as_bytes e (short_entry-IsSized s attribute all_lower_case byte (omega arith)) in
      let (vol', done_, written) =
        write_dirent-SlotWritten fs dir v w directory modest distinct walk i (as_bytes e) whole
          (short_entry-AllBytes s attribute all_lower_case) enough free final in
      let fs' : FileSystem = record fs { vol = vol' } in
      let w' = still_IsDirectory vol' i (as_bytes e) free written home in
      let at : entry_at vol' m cs i ≡ e = entry_new vol' i (as_bytes e) free written home ∙ back in
      let (full, valid) = short_entry-valid s attribute all_lower_case in
      let match : (ShortDirEntry.is_valid e
            && string_eq (map to_ascii_uppercase name) (get_name_uppercase e))
          ≡ true =
        rw (valid, get_name_uppercase-short_entry s attribute all_lower_case)
          (string_eq_self (map to_ascii_uppercase name)) in
      let there : first_named (map to_ascii_uppercase name) (entries vol' m cs) 0 ≡ some (i, e) =
        first_named-new (map to_ascii_uppercase name) (entry_at fs.vol m cs) (entry_at vol' m cs) e
          i (slots m cs) 0 (omega arith) (omega (arith, free)) at
          (λ k lo lt.
            entry_same vol' i (as_bytes e) free written home k (omega (arith, lt, free))
              (omega (arith, lt)))
          (omega arith) missing full match in
      let f = found_at fs' dir name e (32 * i) [] in
      let found : find_vfile_byname fuel walk fs' dir name ≡ returned (some (some f)) =
        find_vfile_byname-first_named fs' dir v w' name fuel walk directory (joined_not_long s)
          enough more
        ∙ ap (λ (o : Option (ℕ × ShortDirEntry)). returned (some (named_file fs' dir name o)))
            there in
      (
        fs',
        f,
        record {
          made =
              rw
                (
                  directory,
                  find_free_dirent-first_empty fs (read_short_dirent fs dir) v w dir fuel walk
                      directory refl enough more,
                  joined_parts_short s,
                  done_,
                  found,
                  plain,
                )
                refl;
          found = found;
          entry = read_short_dirent-found_at fs' dir v w' i name e free low_root ∙ at;
          others = λ j hj ne. entry_same vol' i (as_bytes e) free written home j hj ne;
          files = written.files;
        },
      )
