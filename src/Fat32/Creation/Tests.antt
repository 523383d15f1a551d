-- ===== src/Fat32/Creation/Tests.antt =====
-- A file `b` that is created in a root directory.
use bitos.Base.{refl, arith, [], ◌∷◌}
use bitos.Fat32.Table.Tests.{table-IsLaidOut}
use bitos.Fat32.FileContent.Tests.{mounted, mounted-IsMounted}
use bitos.Fat32.VirtualFile.{FileSystem, VFile}
use bitos.Fat32.Directory.Search.{entries, first_empty}
use bitos.Fat32.Directory.Tests.{
  file_system, root, clusters, clusters_distinct, root_is_dir, root-IsDirectory, one_taken,
  name_missing,
}
use bitos.Fat32.Creation.Names.{IsShortName}
use bitos.Fat32.Creation.Found.{NewFile, create-NewFile}

b-IsShortName : IsShortName (0x62 ∷ []) []
b-IsShortName = record {
  some_base = omega arith;
  base_fits = omega arith;
  ext_fits = omega arith;
  base_plain = ((omega arith, omega arith, omega arith, omega arith), tt);
  ext_plain = tt;
}

create-NewFile_example :
    (fs' : FileSystem) × (f : VFile) × NewFile file_system root clusters fs' f 200 10
      (first_empty (entries file_system.vol mounted clusters))
      (0x62 ∷ [])
      0x20
create-NewFile_example =
    create-NewFile file_system root mounted-IsMounted root-IsDirectory root_is_dir (omega arith)
      clusters_distinct table-IsLaidOut (omega arith) b-IsShortName 0x20 200 10 (omega arith) refl
      (omega arith) (omega arith) (omega (arith, one_taken)) (omega (arith, one_taken))
      (omega (arith, one_taken)) name_missing
