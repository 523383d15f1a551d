-- ===== src/Mm/MemorySet/Insertion.antt =====
-- The insertion of a framed area into an address space.
use bitos.Base.{
  ℕ, ◌-◌, ◌*◌, ◌^◌, ◌≤◌, ◌<◌, ◌≡◌, refl, arith, true, List, [], ◌∷◌, ◌++◌, leb, returned,
}
use bitos.Mm.Address.{VirtAddr, VirtPageNum, PhysPageNum, new_range, floor, ceil}
use bitos.Mm.FrameAllocator.{Frames}
use bitos.Mm.FrameAllocator.Views.{free_count}
use bitos.Mm.PageTable.{PageTable}
use bitos.Mm.PageTable.Tree.{Owner}
use bitos.Mm.PageTable.Walk.{IsSound}
use bitos.Mm.MapArea
use bitos.Mm.MapArea.{MapArea, MapPermission, framed}
use bitos.Mm.MapArea.Mapping.{Vacant, Filled, map-Fills}
use bitos.Mm.MemorySet.{MemorySet, push, insert_framed_area}

-- The area before it is mapped.
abbrev pub bare_area : VirtAddr → VirtAddr → MapPermission → MapArea
bare_area start_va end_va permission = record {
  vpn_range = record { l = floor start_va; r = ceil end_va };
  data_frames = [];
  map_type = framed;
  map_perm = permission;
}

-- An address space whose page table is sound takes a framed area from the page of its start to the one
-- that its end is rounded up to, if these are in order and within 27 bits, the permissions are a
-- byte, none of the pages is mapped, and three frames are free for each: the area stands last in the list, the page table is sound, each
-- page of the area has an entry with the permissions, which leads to the frame that the area holds for
-- it, and all other pages are as before.
pub insert_framed_area-Filled :
    {start : ℕ} (s : Frames) (m : MemorySet) {owner : Owner}
    (v : IsSound start s m.page_table owner) (start_va end_va : VirtAddr)
    (permission : MapPermission)
    → floor start_va ≤ ceil end_va
    → ceil end_va ≤ 2 ^ 27
    → permission < 2 ^ 8
    → Vacant s m.page_table
        (bare_area start_va end_va permission)
        (ceil end_va - floor start_va)
        (floor start_va)
    → 3 * (ceil end_va - floor start_va) ≤ free_count s.allocator
    → (s' : Frames) × (t' : PageTable) × (frames' : List (VirtPageNum × PhysPageNum))
      × (owner' : Owner) × (insert_framed_area s m start_va end_va permission
          ≡ returned (
            s',
            record {
              page_table = t';
              areas =
                  m.areas
                  ++ record (bare_area start_va end_va permission) { data_frames = frames' } ∷ [];
            },
          ))
      × IsSound start s' t' owner'
      × Filled s m.page_table
          (bare_area start_va end_va permission)
          (ceil end_va - floor start_va)
          (floor start_va)
          s'
          t'
          frames'
unfolding insert_framed_area push MapArea.new new_range
insert_framed_area-Filled s m v start_va end_va permission ordered small byte vacant many =
    let (s', t', frames', owner', e, sound, filled) =
      map-Fills v (bare_area start_va end_va permission) ordered small refl byte vacant many in
    let test : leb (floor start_va) (ceil end_va) ≡ true = ground arith in
    (s', t', frames', owner', rw (insert_framed_area, test, e) refl, sound, filled)
