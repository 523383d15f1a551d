-- ===== src/Mm/PageTable.antt =====
-- os/src/mm/page_table.rs: the three-level page table, on the memory of the page frames. A physical
-- page is reached under its own number, and an entry behind a `&mut` is named by its place.
pub mod Tree
pub mod Fresh
pub mod Found
pub mod Mapping
pub mod Kept
pub mod Walk
pub mod Tests
use bitos.Base.{
  ℕ, ◌+◌, ◌-◌, ◌*◌, ◌^◌, bit_and, bit_or, Bool, not, Option, none, some, List, [], ◌∷◌, ◌++◌, ◌==◌,
  ◌&&◌, if◌then◌else◌, Outcome, returned, ◌>>=◌, ◌>>◌, assert, unwrap, ◌%◌,
}
use bitos.Config.{usize_mod}
use bitos.Mm.Address.{
  PhysPageNum, VirtPageNum, VirtAddr, PhysAddr, Indexes, indexes, phys_page_num_from,
  phys_addr_from, floor, page_offset, addr_of_page_num,
}
use bitos.Mm.FrameAllocator.{Memory, Frames, frame_alloc}
use bitos.Mm.PageTableEntry.{PteFlags, PageTableEntry, flag_v}
use bitos.Mm.PageTableEntry

-- The place of an entry: a page and an index into it.
abbrev pub Place : Type 0
Place = PhysPageNum × ℕ

unfoldable pub write : Memory → Place → PageTableEntry → Memory
write mem (p, i) e q j = if q == p && j == i then e else mem q j

pub record PageTable : Type 0 where
  pub root_ppn : PhysPageNum
  pub frames : List PhysPageNum

unfoldable pub new : Frames → Outcome (PageTable × Frames)
new s =
    let (found, s') = frame_alloc s in
    do frame ← unwrap found; returned (record { root_ppn = frame; frames = frame ∷ [] }, s')

unfoldable pub from_token : ℕ → PageTable
from_token satp = record { root_ppn = phys_page_num_from (bit_and satp (2 ^ 44 - 1)); frames = [] }

-- One round of the loop of `find_pte_create` above the last level: the next page, made if needed.
unfoldable pub descend_create :
    Frames → PageTable → Place → Outcome (PhysPageNum × Frames × PageTable)
unfolding write
descend_create s t (p, i) =
    if PageTableEntry.is_valid (s.mem p i)
    then returned (PageTableEntry.ppn (s.mem p i), s, t)
    else (let (found, s') = frame_alloc s in
        do
          frame ← unwrap found
          let entry = PageTableEntry.new frame flag_v
          returned (
            PageTableEntry.ppn entry,
            record s' { mem = write s'.mem (p, i) entry },
            record t { frames = t.frames ++ frame ∷ [] },
          ))

unfoldable pub find_pte_create :
    Frames → PageTable → VirtPageNum → Outcome (Place × Frames × PageTable)
unfolding descend_create
find_pte_create s t vpn = do
  let idxs = indexes vpn
  (p1, s1, t1) ← descend_create s t (t.root_ppn, idxs.i0)
  (p2, s2, t2) ← descend_create s1 t1 (p1, idxs.i1)
  returned ((p2, idxs.i2), s2, t2)

unfoldable pub find_pte : Memory → PageTable → VirtPageNum → Option Place
find_pte mem t vpn =
    let idxs = indexes vpn in
    let e0 = mem t.root_ppn idxs.i0 in
    let e1 = mem (PageTableEntry.ppn e0) idxs.i1 in
    if not (PageTableEntry.is_valid e0)
    then none
    else if not (PageTableEntry.is_valid e1)
    then none
    else some (PageTableEntry.ppn e1, idxs.i2)

unfoldable pub map :
    Frames → PageTable → VirtPageNum → PhysPageNum → PteFlags → Outcome (Frames × PageTable)
unfolding find_pte_create
map s t vpn ppn flags = do
  ((p, i), s', t') ← find_pte_create s t vpn
  assert (not (PageTableEntry.is_valid (s'.mem p i)))
  returned
      (record s' { mem = write s'.mem (p, i) (PageTableEntry.new ppn (bit_or flags flag_v)) }, t')

unfoldable pub unmap : Frames → PageTable → VirtPageNum → Outcome Frames
unfolding find_pte
unmap s t vpn = do
  (p, i) ← unwrap (find_pte s.mem t vpn)
  assert (PageTableEntry.is_valid (s.mem p i))
  returned (record s { mem = write s.mem (p, i) PageTableEntry.empty })

unfoldable pub translate : Memory → PageTable → VirtPageNum → Option PageTableEntry
unfolding find_pte
translate mem t vpn = elim (find_pte mem t vpn) [ none ↦ none | some (p, i) ↦ some (mem p i) ]

unfoldable pub translate_va : Memory → PageTable → VirtAddr → Option PhysAddr
unfolding find_pte
translate_va mem t va = elim (find_pte mem t (floor va)) [
  | none ↦ none
  | some (p, i) ↦ some (
      phys_addr_from
        ((addr_of_page_num (PageTableEntry.ppn (mem p i)) + page_offset va) % usize_mod))
]

unfoldable pub token : PageTable → ℕ
token t = bit_or (8 * 2 ^ 60) t.root_ppn
