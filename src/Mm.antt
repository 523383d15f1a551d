-- ===== src/Mm.antt =====
-- os/src/mm: addresses, page frames, page tables and user buffers.
pub mod Address
pub mod FrameAllocator
pub mod MapArea
pub mod MemorySet
pub mod PageTable
pub mod Spaces
pub mod PageTableEntry
pub mod UserBuffer
