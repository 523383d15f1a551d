-- ===== src/Mm/MapArea.antt =====
-- `MapArea` of os/src/mm/memory_set.rs: a range of virtual pages and the frames behind them. A frame
-- that leaves the map of frames is dropped, which gives it back.
pub mod Mapping
pub mod Page
pub mod Tests
use bitos.Base.{
  ℕ, zero, suc, ◌+◌, ◌-◌, ◌*◌, ◌/◌, ◌%◌, ◌^◌, min, Bool, true, false, Option, none, some, List, [],
  ◌∷◌, ◌==◌, leb, if◌then◌else◌, Outcome, returned, panicked, ◌>>=◌, ◌>>◌, assert, unwrap, length,
  take, drop,
}
use bitos.Config.{page_size}
use bitos.Mm.Address.{VirtAddr, VirtPageNum, PhysPageNum, SimpleRange, new_range, floor, ceil, step}
use bitos.Mm.FrameAllocator.{Memory, Frames, frame_alloc, frame_dealloc}
use bitos.Mm.PageTableEntry.{ppn}
use bitos.Mm.PageTable
use bitos.Mm.PageTable.{PageTable, translate}

pub data MapType : Type 0 where
  identical : MapType
  framed : MapType

-- `MapPermission`: a byte of the same bits as `PTEFlags`.
abbrev pub MapPermission : Type 0
MapPermission = ℕ

pub record MapArea : Type 0 where
  pub vpn_range : SimpleRange
  pub data_frames : List (VirtPageNum × PhysPageNum)
  pub map_type : MapType
  pub map_perm : MapPermission

unfoldable pub new : VirtAddr → VirtAddr → MapType → MapPermission → Outcome MapArea
new start_va end_va map_type map_perm = do
  vpn_range ← new_range (floor start_va) (ceil end_va)
  returned
      (record { vpn_range = vpn_range; data_frames = []; map_type = map_type; map_perm = map_perm })

unfoldable pub from_another : MapArea → Outcome MapArea
from_another another = do
  vpn_range ← new_range another.vpn_range.l another.vpn_range.r
  returned (record another { vpn_range = vpn_range; data_frames = [] })

-- `BTreeMap::remove`: the frame of a page, and the map without it.
unfoldable pub take_frame :
    List (VirtPageNum × PhysPageNum)
    → VirtPageNum
    → Option PhysPageNum × List (VirtPageNum × PhysPageNum)
take_frame [] vpn = (none, [])
take_frame ((v, f) ∷ rest) vpn =
    let (found, left) = take_frame rest vpn in
    if v == vpn then (some f, rest) else (found, (v, f) ∷ left)

unfoldable pub drop_frame : Frames → Option PhysPageNum → Outcome Frames
drop_frame s none = returned s
drop_frame s (some f) = frame_dealloc s f

unfoldable pub map_one :
    Frames → PageTable → MapArea → VirtPageNum → Outcome (Frames × PageTable × MapArea)
map_one s t a vpn = elim a.map_type [
  | identical ↦ do (s', t') ← PageTable.map s t vpn vpn a.map_perm; returned (s', t', a)
  | framed ↦ do
    let (found, s1) = frame_alloc s in
        unwrap found >>= λ f.
        (let (old, others) = take_frame a.data_frames vpn in
          drop_frame s1 old >>= λ s2. PageTable.map s2 t vpn f a.map_perm >>= λ (s', t').
          returned (s', t', record a { data_frames = (vpn, f) ∷ others }))
]

unfoldable pub unmap_one : Frames → PageTable → MapArea → VirtPageNum → Outcome (Frames × MapArea)
unmap_one s t a vpn = elim a.map_type [
  | identical ↦ do s' ← PageTable.unmap s t vpn; returned (s', a)
  | framed ↦
      let (old, others) = take_frame a.data_frames vpn in
      drop_frame s old >>= λ s1.
      PageTable.unmap s1 t vpn >>= λ s'. returned (s', record a { data_frames = others })
]

-- The loops over a range of pages: `n` are left, from `vpn` on.
unfoldable pub map_pages :
    ℕ → Frames → PageTable → MapArea → VirtPageNum → Outcome (Frames × PageTable × MapArea)
map_pages zero s t a vpn = returned (s, t, a)
map_pages (suc n) s t a vpn = do (s', t', a') ← map_one s t a vpn; map_pages n s' t' a' (step vpn)

unfoldable pub unmap_pages :
    ℕ → Frames → PageTable → MapArea → VirtPageNum → Outcome (Frames × MapArea)
unmap_pages zero s t a vpn = returned (s, a)
unmap_pages (suc n) s t a vpn = do (s', a') ← unmap_one s t a vpn; unmap_pages n s' t a' (step vpn)

unfoldable pub map : Frames → PageTable → MapArea → Outcome (Frames × PageTable × MapArea)
map s t a = map_pages (a.vpn_range.r - a.vpn_range.l) s t a a.vpn_range.l

unfoldable pub unmap : Frames → PageTable → MapArea → Outcome (Frames × MapArea)
unmap s t a = unmap_pages (a.vpn_range.r - a.vpn_range.l) s t a a.vpn_range.l

unfoldable pub shrink_to : Frames → PageTable → MapArea → VirtPageNum → Outcome (Frames × MapArea)
shrink_to s t a new_end = do
  gone ← new_range new_end a.vpn_range.r
  (s', a') ← unmap_pages (gone.r - gone.l) s t a gone.l
  vpn_range ← new_range a.vpn_range.l new_end
  returned (s', record a' { vpn_range = vpn_range })

unfoldable pub append_to :
    Frames → PageTable → MapArea → VirtPageNum → Outcome (Frames × PageTable × MapArea)
append_to s t a new_end = do
  more ← new_range a.vpn_range.r new_end
  (s', t', a') ← map_pages (more.r - more.l) s t a more.l
  vpn_range ← new_range a.vpn_range.l new_end
  returned (s', t', record a' { vpn_range = vpn_range })
