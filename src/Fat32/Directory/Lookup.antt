-- ===== src/Fat32/Directory/Lookup.antt =====
-- The lookup of a short name, and the entry of the file that it finds.
use bitos.Base.{
  ℕ, ◌*◌, ◌/◌, ◌%◌, ◌≤◌, ◌<◌, ◌≡◌, refl, ap, ap₂, ◌∙◌, arith, true, false, some, List, [], returned,
  length, map, ==_of_ne,
}
use bitos.Fat32.ShortDirEntry.{ShortDirEntry, to_ascii_uppercase}
use bitos.Fat32.FileContent.{get_slice}
use bitos.Fat32.FileContent
use bitos.Fat32.FileContent.Reading.{IsMounted, block_at}
use bitos.Fat32.VirtualFile.{FileSystem, VFile, is_dir, read_short_dirent}
use bitos.Fat32.VirtualFile
use bitos.Fat32.Directory.{found_at, is_long_name, find_vfile_byname}
use bitos.Fat32.Directory.Slots.{IsDirectory, slots, slot_place}
use bitos.Fat32.Directory.Search.{
  entry_at, entries, first_named, named_file, find_short_name-first_named,
}

module _ (fs : FileSystem) (dir : VFile) {cs : List ℕ} (v : IsMounted fs.manager)
    (w : IsDirectory fs.manager fs.vol (read_short_dirent fs dir) cs) where
  place :
      (i : ℕ)
      → i < slots fs.manager cs
      → VirtualFile.get_pos fs dir (32 * i) ≡ (block_at fs.manager cs (i / 16), 32 * (i % 16))
  unfolding VirtualFile.get_pos FileContent.get_pos
  place i h =
      let (_, s) = slot_place v w i h in
      ap₂ (λ (a b : ℕ). (a, b)) s (ap (λ (x : ℕ). 32 * i % x) v.sector ∙ omega arith)

  -- The file of an entry reads that entry, where no sector of the directory is 0.
  pub read_short_dirent-found_at :
      (i : ℕ) (name : List ℕ) (x : ShortDirEntry)
      → i < slots fs.manager cs
      → 0 < fs.manager.root_sec
      → read_short_dirent fs (found_at fs dir name x (32 * i) []) ≡ entry_at fs.vol fs.manager cs i
  unfolding read_short_dirent found_at
  read_short_dirent-found_at i name x h low =
      rw (place i h, ==_of_ne (block_at fs.manager cs (i / 16)) 0 (omega (arith, low))) refl

  -- `find_vfile_byname` of a short name in a directory finds just the first valid entry with the name, in
  -- upper case, among those before the first empty one, and gives the file with the place and the attribute of
  -- that entry; with as much fuel for each walk as the directory has clusters, and more for the loop than it
  -- has slots.
  pub find_vfile_byname-first_named :
      (name : List ℕ) (fuel walk : ℕ)
      → is_dir dir ≡ true
      → is_long_name name ≡ false
      → length cs ≤ walk
      → slots fs.manager cs < fuel
      → find_vfile_byname fuel walk fs dir name
        ≡ returned (
            some (
              named_file fs dir name
                (first_named (map to_ascii_uppercase name) (entries fs.vol fs.manager cs) 0)))
  unfolding find_vfile_byname
  find_vfile_byname-first_named name fuel walk directory short enough more =
      rw (directory, short)
        (find_short_name-first_named fs (read_short_dirent fs dir) v w dir name fuel walk enough
          more)
