-- ===== src/Mm/MemorySet.antt =====
-- `MemorySet` of os/src/mm/memory_set.rs: a page table and the areas that it maps. Writing the token to
-- the hardware (`activate`) is left out, and the kernel's own space and programs' files are built by
-- `push` from addresses that the linker and the ELF parser give.
pub mod Insertion
pub mod Tests
use bitos.Base.{
  ℕ, zero, suc, ◌+◌, ◌-◌, ◌*◌, ◌/◌, ◌%◌, ◌^◌, bit_or, Bool, true, false, Option, none, some, List,
  [], ◌∷◌, ◌++◌, ◌==◌, leb, if◌then◌else◌, Outcome, returned, panicked, ◌>>=◌, ◌>>◌, unwrap, length,
  take, drop,
}
use bitos.Config.{page_size, trampoline}
use bitos.Mm.Address.{
  VirtAddr, PhysAddr, VirtPageNum, PhysPageNum, virt_addr_from, phys_addr_from, page_num_of_addr,
  floor, ceil, step,
}
use bitos.Mm.FrameAllocator.{Memory, Frames}
use bitos.Mm.PageTableEntry.{PageTableEntry, PteFlags, flag_r, flag_x, ppn}
use bitos.Mm.PageTable
use bitos.Mm.PageTable.{PageTable}
use bitos.Mm.MapArea
use bitos.Mm.MapArea.{MapArea, MapType, MapPermission, identical, framed, drop_frame}

pub record MemorySet : Type 0 where
  pub page_table : PageTable
  pub areas : List MapArea

unfoldable pub new_bare : Frames → Outcome (Frames × MemorySet)
new_bare s = do
  (page_table, s') ← PageTable.new s
  returned (s', record { page_table = page_table; areas = [] })

unfoldable pub token : MemorySet → ℕ
token m = PageTable.token m.page_table

-- A byte of a 64-bit word, and the bytes of a page from the `k`-th on.
unfoldable pub set_byte : (word j byte : ℕ) → ℕ
set_byte word j byte = word - word / 2 ^ (8 * j) % 2 ^ 8 * 2 ^ (8 * j) + byte * 2 ^ (8 * j)

unfoldable pub fill_bytes : Memory → PhysPageNum → (k : ℕ) → List ℕ → Memory
fill_bytes mem p k [] = mem
fill_bytes mem p k (b ∷ bs) =
    fill_bytes (PageTable.write mem (p, k / 8) (set_byte (mem p (k / 8)) (k % 8) b)) p (suc k) bs

-- The loop of `copy_data`: `n` rounds are left, each for a page.
unfoldable pub copy_rounds : ℕ → Frames → PageTable → VirtPageNum → List ℕ → Outcome Frames
copy_rounds zero s t current_vpn bytes = returned s
copy_rounds (suc n) s t current_vpn bytes = do
  entry ← unwrap (PageTable.translate s.mem t current_vpn)
  let s' = record s { mem = fill_bytes s.mem (ppn entry) 0 (take page_size bytes) } in
      copy_rounds n s' t (step current_vpn) (drop page_size bytes)

-- The first round is taken even without bytes.
unfoldable pub copy_data : Frames → PageTable → MapArea → List ℕ → Outcome Frames
copy_data s t a bytes = elim a.map_type [
  | identical ↦ panicked
  | framed ↦ copy_rounds (suc ((length bytes - 1) / page_size)) s t a.vpn_range.l bytes
]

unfoldable pub push : Frames → MemorySet → MapArea → Option (List ℕ) → Outcome (Frames × MemorySet)
push s m map_area bytes = do
  (s1, t, a) ← MapArea.map s m.page_table map_area
  s2 ← elim bytes [ none ↦ returned s1 | some bytes ↦ copy_data s1 t a bytes ]
  returned (s2, record { page_table = t; areas = m.areas ++ a ∷ [] })

unfoldable pub insert_framed_area :
    Frames → MemorySet → VirtAddr → VirtAddr → MapPermission → Outcome (Frames × MemorySet)
insert_framed_area s m start_va end_va permission = do
  a ← MapArea.new start_va end_va framed permission
  push s m a none

-- The order of a `BTreeMap`: by ascending page.
unfoldable pub insert_by_page :
    VirtPageNum × PhysPageNum → List (VirtPageNum × PhysPageNum) → List (VirtPageNum × PhysPageNum)
insert_by_page (vpn, f) [] = (vpn, f) ∷ []
insert_by_page (vpn, f) ((v, g) ∷ rest) =
    let later = insert_by_page (vpn, f) rest in
    if leb vpn v then (vpn, f) ∷ (v, g) ∷ rest else (v, g) ∷ later

unfoldable pub in_order : List (VirtPageNum × PhysPageNum) → List (VirtPageNum × PhysPageNum)
in_order [] = []
in_order ((vpn, f) ∷ rest) = insert_by_page (vpn, f) (in_order rest)

unfoldable pub drop_each : Frames → List (VirtPageNum × PhysPageNum) → Outcome Frames
drop_each s [] = returned s
drop_each s ((vpn, f) ∷ rest) = do s' ← drop_frame s (some f); drop_each s' rest

-- The frames of an area that is dropped.
unfoldable pub drop_frames : Frames → List (VirtPageNum × PhysPageNum) → Outcome Frames
drop_frames s frames = drop_each s (in_order frames)

-- The search for the area that starts at a page, and what is done with it.
unfoldable pub remove_area :
    Frames → PageTable → List MapArea → VirtPageNum → Outcome (Frames × List MapArea)
remove_area s t [] start_vpn = returned (s, [])
remove_area s t (a ∷ areas) start_vpn =
    let later = remove_area s t areas start_vpn in
    if a.vpn_range.l == start_vpn
    then (do
      (s1, a') ← MapArea.unmap s t a
      s2 ← drop_frames s1 a'.data_frames
      returned (s2, areas))
    else (do (s', areas') ← later; returned (s', a ∷ areas'))

unfoldable pub remove_area_with_start_vpn :
    Frames → MemorySet → VirtPageNum → Outcome (Frames × MemorySet)
remove_area_with_start_vpn s m start_vpn = do
  (s', areas) ← remove_area s m.page_table m.areas start_vpn
  returned (s', record m { areas = areas })

-- `strampoline` is the linker's symbol.
unfoldable pub map_trampoline :
    (strampoline : ℕ) → Frames → MemorySet → Outcome (Frames × MemorySet)
map_trampoline strampoline s m = do
  vpn ← page_num_of_addr (virt_addr_from trampoline)
  ppn ← page_num_of_addr (phys_addr_from strampoline)
  (s', t) ← PageTable.map s m.page_table vpn ppn (bit_or flag_r flag_x)
  returned (s', record m { page_table = t })

-- `copy_from_slice` of a whole page.
unfoldable pub copy_page : Memory → (dst src : PhysPageNum) → Memory
copy_page mem dst src p i = if p == dst then mem src i else mem p i

-- The copies of `n` pages from `vpn` on.
unfoldable pub copy_pages : ℕ → Frames → (from to : PageTable) → VirtPageNum → Outcome Frames
copy_pages zero s from to vpn = returned s
copy_pages (suc n) s from to vpn = do
  src ← unwrap (PageTable.translate s.mem from vpn)
  dst ← unwrap (PageTable.translate s.mem to vpn)
  let s' = record s { mem = copy_page s.mem (ppn dst) (ppn src) } in
      copy_pages n s' from to (step vpn)

unfoldable pub copy_areas :
    Frames → (from : PageTable) → List MapArea → MemorySet → Outcome (Frames × MemorySet)
copy_areas s from [] m = returned (s, m)
copy_areas s from (area ∷ areas) m = do
  new_area ← MapArea.from_another area
  (s1, m1) ← push s m new_area none
  s2 ← copy_pages (area.vpn_range.r - area.vpn_range.l) s1 from m1.page_table area.vpn_range.l
  copy_areas s2 from areas m1

unfoldable pub from_existed_user :
    (strampoline : ℕ) → Frames → MemorySet → Outcome (Frames × MemorySet)
from_existed_user strampoline s user_space = do
  (s1, m1) ← new_bare s
  (s2, m2) ← map_trampoline strampoline s1 m1
  copy_areas s2 user_space.page_table user_space.areas m2

unfoldable pub translate : Frames → MemorySet → VirtPageNum → Option PageTableEntry
translate s m vpn = PageTable.translate s.mem m.page_table vpn

-- Every area is dropped with its frames; the page table keeps its entries.
unfoldable pub recycle_areas : Frames → List MapArea → Outcome Frames
recycle_areas s [] = returned s
recycle_areas s (a ∷ areas) = do s' ← drop_frames s a.data_frames; recycle_areas s' areas

unfoldable pub recycle_data_pages : Frames → MemorySet → Outcome (Frames × MemorySet)
recycle_data_pages s m = do s' ← recycle_areas s m.areas; returned (s', record m { areas = [] })

unfoldable pub shrink_area :
    Frames
    → PageTable
    → List MapArea
    → (start new_end : VirtPageNum) → Outcome (Bool × Frames × List MapArea)
shrink_area s t [] start new_end = returned (false, s, [])
shrink_area s t (a ∷ areas) start new_end =
    let later = shrink_area s t areas start new_end in
    if a.vpn_range.l == start
    then (do (s', a') ← MapArea.shrink_to s t a new_end; returned (true, s', a' ∷ areas))
    else (do (found, s', areas') ← later; returned (found, s', a ∷ areas'))

unfoldable pub shrink_to :
    Frames → MemorySet → (start new_end : VirtAddr) → Outcome (Bool × Frames × MemorySet)
shrink_to s m start new_end = do
  (found, s', areas) ← shrink_area s m.page_table m.areas (floor start) (ceil new_end)
  returned (found, s', record m { areas = areas })

unfoldable pub append_area :
    Frames
    → PageTable
    → List MapArea
    → (start new_end : VirtPageNum) → Outcome (Bool × Frames × PageTable × List MapArea)
append_area s t [] start new_end = returned (false, s, t, [])
append_area s t (a ∷ areas) start new_end =
    let later = append_area s t areas start new_end in
    if a.vpn_range.l == start
    then (do (s', t', a') ← MapArea.append_to s t a new_end; returned (true, s', t', a' ∷ areas))
    else (do (found, s', t', areas') ← later; returned (found, s', t', a ∷ areas'))

unfoldable pub append_to :
    Frames → MemorySet → (start new_end : VirtAddr) → Outcome (Bool × Frames × MemorySet)
append_to s m start new_end = do
  (found, s', t, areas) ← append_area s m.page_table m.areas (floor start) (ceil new_end)
  returned (found, s', record { page_table = t; areas = areas })

unfoldable pub map :
    Frames → MemorySet → VirtPageNum → PhysPageNum → PteFlags → Outcome (Frames × MemorySet)
map s m vpn ppn flags = do
  (s', t) ← PageTable.map s m.page_table vpn ppn flags
  returned (s', record m { page_table = t })

unfoldable pub unmap : Frames → MemorySet → VirtPageNum → Outcome Frames
unmap s m vpn = PageTable.unmap s m.page_table vpn
