-- ===== src/Fs/Inode/Tests.antt =====
-- A file read and written through slices of a user buffer.
use bitos.Base.{ℕ, ◌+◌, ◌-◌, ◌≡◌, refl, arith, min, true, some, List, [], ◌∷◌, returned, range}
use bitos.Fat32.FileContent.Reading.{byte_at}
use bitos.Fat32.FileContent.Tests.{mounted, mounted-IsMounted, clusters, clusters_distinct}
use bitos.Fat32.VirtualFile.{FileSystem, read_short_dirent}
use bitos.Fat32.VirtualFile.Tests.{file_system, file, file_size, file-IsFile}
use bitos.Fs.Inode.{OsInode, read, write, read_all}
use bitos.Fs.Inode.Reading.{flatten, read-content, read_all-content}
use bitos.Fs.Inode.Writing.{read-write}

abbrev at : ℕ → OsInode
at n = record { readable = true; writable = true; offset = n; inode = file }

-- The buffer reaches over the end of the file.
read-content_example :
    (parts : List (List ℕ)) × (read 8 file_system (at 4995) (2 ∷ 6 ∷ [])
      ≡ returned (
          some (
            parts,
            min (4995 + 8) (read_short_dirent file_system file).size - 4995,
            at (4995 + (min (4995 + 8) (read_short_dirent file_system file).size - 4995)),
          )))
    × (flatten parts
        ≡ range
            (byte_at file_system.vol mounted clusters)
            4995
            (min (4995 + 8) (read_short_dirent file_system file).size - 4995))
read-content_example =
    read-content file_system file mounted-IsMounted file-IsFile (at 4995) (2 ∷ 6 ∷ []) 8 refl
      (omega arith, (omega arith, tt)) (omega arith) (omega arith)

read_all-content_example :
    read_all 6 512 file_system (at 4995)
    ≡ returned (
        some (
          range
              (byte_at file_system.vol mounted clusters)
              4995
              ((read_short_dirent file_system file).size - 4995),
          at (4995 + ((read_short_dirent file_system file).size - 4995)),
        ))
read_all-content_example =
    read_all-content file_system file mounted-IsMounted file-IsFile (at 4995) 6 512 refl
      (omega arith) (omega arith) (omega (arith, file_size))

-- The slices are cut in other places.
read-write_example :
    (fs' : FileSystem) × (o' : OsInode) × (parts : List (List ℕ)) × (write 4 file_system
        (at 4094)
        ((1 ∷ []) ∷ (2 ∷ 3 ∷ 4 ∷ []) ∷ [])
      ≡ returned (some (fs', 4, o')))
    × (read 4 fs' (at 4094) (3 ∷ 1 ∷ []) ≡ returned (some (parts, 4, o')))
    × (flatten parts ≡ 1 ∷ 2 ∷ 3 ∷ 4 ∷ [])
read-write_example =
    read-write file clusters_distinct file_system (at 4094) ((1 ∷ []) ∷ (2 ∷ 3 ∷ 4 ∷ []) ∷ [])
      (3 ∷ 1 ∷ []) 4 refl mounted-IsMounted file-IsFile (omega arith, (omega arith, tt))
      (omega arith, (omega arith, tt)) refl (omega (arith, file_size)) (omega arith)
