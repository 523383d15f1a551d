-- ===== src/Mm/MemorySet/Tests.antt =====
-- An address space with one area.
use bitos.Base.{◌≡◌, refl, arith, List, [], ◌∷◌, ◌++◌, returned}
use bitos.Mm.Address.{VirtPageNum, PhysPageNum, floor, ceil}
use bitos.Mm.FrameAllocator.{Frames}
use bitos.Mm.PageTableEntry.Fields.{not-is_valid-empty}
use bitos.Mm.PageTable.{PageTable}
use bitos.Mm.PageTable.Tree.{Owner}
use bitos.Mm.PageTable.Walk.{IsSound}
use bitos.Mm.PageTable.Tests.{frames, table, table-IsSound}
use bitos.Mm.MapArea.{take_frame}
use bitos.Mm.MapArea.Mapping.{Filled}
use bitos.Mm.MemorySet.{MemorySet, insert_framed_area}
use bitos.Mm.MemorySet.Insertion.{bare_area, insert_framed_area-Filled}

abbrev space : MemorySet
space = record { page_table = table; areas = [] }

insert_framed_area-Filled_example :
    (s' : Frames) × (t' : PageTable) × (frames' : List (VirtPageNum × PhysPageNum))
    × (owner' : Owner) × (insert_framed_area frames space 0x10000 0x11001 6
        ≡ returned (
          s',
          record {
            page_table = t';
            areas = [] ++ record (bare_area 0x10000 0x11001 6) { data_frames = frames' } ∷ [];
          },
        ))
    × IsSound 1 s' t' owner'
    × Filled frames table (bare_area 0x10000 0x11001 6) 2 16 s' t' frames'
unfolding floor ceil take_frame
insert_framed_area-Filled_example =
    insert_framed_area-Filled frames space table-IsSound 0x10000 0x11001 6 (omega arith)
      (omega arith) (omega arith) (λ x lo hi. (refl, ground (arith, not-is_valid-empty)))
      (omega arith)
