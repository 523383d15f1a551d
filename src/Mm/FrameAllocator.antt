-- ===== src/Mm/FrameAllocator.antt =====
-- os/src/mm/frame_allocator.rs: the stack of recycled frames over the frames never handed out yet,
-- and the frame's memory, which a `FrameTracker` clears when it is made.
pub mod Views
pub mod Tests
use bitos.Base.{
  ℕ, ◌+◌, ◌-◌, ◌*◌, ◌%◌, ◌^◌, Option, none, some, List, [], ◌∷◌, ◌||◌, ◌==◌, leb, if◌then◌else◌,
  Outcome, returned, panicked, ◌>>=◌, contains,
}
use bitos.Config.{usize_mod, memory_end}
use bitos.Mm.Address.{PhysPageNum, phys_page_num_from, phys_addr_from, ceil, floor}

-- The head of `recycled` is the back of the vector.
pub record StackFrameAllocator : Type 0 where
  pub current : ℕ
  pub end : ℕ
  pub recycled : List ℕ

unfoldable pub new : StackFrameAllocator
new = record { current = 0; end = 0; recycled = [] }

unfoldable pub init : StackFrameAllocator → PhysPageNum → PhysPageNum → StackFrameAllocator
init a l r = record a { current = l; end = r }

alloc_fresh : StackFrameAllocator → Option PhysPageNum × StackFrameAllocator
alloc_fresh a =
    if a.current == a.end
    then (none, a)
    else (let current = (a.current + 1) % usize_mod in
        (
          some (phys_page_num_from ((current + usize_mod - 1) % usize_mod)),
          record a { current = current },
        ))

unfoldable pub alloc : StackFrameAllocator → Option PhysPageNum × StackFrameAllocator
unfolding alloc_fresh
alloc a = elim a.recycled [
  | [] ↦ alloc_fresh a
  | ppn ∷ rest ↦ (some (phys_page_num_from ppn), record a { recycled = rest })
]

unfoldable pub dealloc : StackFrameAllocator → PhysPageNum → Outcome StackFrameAllocator
dealloc a ppn =
    if leb a.current ppn || contains ppn a.recycled
    then panicked
    else returned (record a { recycled = ppn ∷ a.recycled })

-- `init_frame_allocator`, on the freshly made allocator; `ekernel` is the linker's symbol.
unfoldable pub init_frame_allocator : (ekernel : ℕ) → StackFrameAllocator
unfolding new init
init_frame_allocator ekernel =
    init new (ceil (phys_addr_from ekernel)) (floor (phys_addr_from memory_end))

-- Physical memory: the 512 words of each frame.
abbrev pub Memory : Type 0
Memory = PhysPageNum → ℕ → ℕ

unfoldable pub clear_frame : Memory → PhysPageNum → Memory
clear_frame mem ppn p i = if p == ppn then 0 else mem p i

-- What the `mm` functions share: the allocator behind `FRAME_ALLOCATOR`, and the memory.
pub record Frames : Type 0 where
  pub allocator : StackFrameAllocator
  pub mem : Memory

-- `frame_alloc`; `FrameTracker::new` clears the frame.
unfoldable pub frame_alloc : Frames → Option PhysPageNum × Frames
frame_alloc s =
    let (found, allocator) = alloc s.allocator in
    elim found [
      | none ↦ (none, record s { allocator = allocator })
      | some ppn ↦ (some ppn, record { allocator = allocator; mem = clear_frame s.mem ppn })
    ]

-- `frame_dealloc`, which dropping a `FrameTracker` calls.
unfoldable pub frame_dealloc : Frames → PhysPageNum → Outcome Frames
frame_dealloc s ppn = do
  allocator ← dealloc s.allocator ppn
  returned (record s { allocator = allocator })
