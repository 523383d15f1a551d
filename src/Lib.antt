-- ===== src/Lib.antt =====
-- bitos: a verification library of the kernel of this repository (os) and of its FAT32 file system
-- (fat32).
--
-- The parts and how they interact. A frame allocator hands out physical pages; page tables are built in
-- such pages and map virtual to physical page numbers; address spaces are page tables with the areas that
-- they map. A task has an address space, a table of files and children. Tasks are named by recycled
-- identifiers and wait in a ready queue, from which the scheduler takes the one of least stride; a task
-- that exits stays until its parent takes it with `waitpid`. A call reaches the bytes of a user buffer
-- through the page table of its task. Pipes carry bytes between tasks. The file system sees the disk
-- through two queues of cached blocks, keeps the links of clusters in two copies of a table, allocates
-- chains of clusters from it, and describes files by 32-byte entries, by which it reads and writes them.
--
-- The files and the code they model:
--   Config            os/src/config.rs: the constants
--   Mm.Address        os/src/mm/address.rs: addresses, page numbers, page ranges
--   Mm.FrameAllocator os/src/mm/frame_allocator.rs: StackFrameAllocator, and memory as words by page
--                     and index (Memory, Frames)
--   Mm.PageTableEntry os/src/mm/page_table.rs: PageTableEntry and PTEFlags
--   Mm.PageTable      os/src/mm/page_table.rs: PageTable; Tree says when the tables in memory are
--                     a tree, Walk and Found follow the walks, Mapping has the refinement to a partial
--                     map
--   Mm.MapArea, Mm.MemorySet
--                     os/src/mm/memory_set.rs: areas of pages with their frames, address spaces
--   Mm.UserBuffer     os/src/mm/page_table.rs: translated_byte_buffer, translated_str, UserBuffer
--   Mm.Spaces         os/src/mm/memory_set.rs: the space of the kernel, and that of a program
--   Task.Tcb          os/src/task/task.rs: TaskControlBlock (both parts in one record) and the methods that
--                     stay within it
--   Task.Kernel       os/src/task/mod.rs, os/src/task/processor.rs: the state (allocators, tasks, ready queue,
--                     current task), suspend, exit and the rounds of run_tasks
--   Task.Process      os/src/task/task.rs: new, fork, spawn, exec; sys_fork, sys_spawn and sys_exec
--   Task.Wait         os/src/syscall/process.rs: waitpid, and the drop of a task
--   Task.Calls        os/src/syscall/process.rs: the calls that read the current task or change it alone
--   Task.Mmap         os/src/syscall/process.rs: sys_mmap and sys_munmap
--   Task.Life         all of these as steps; the invariant of the tasks, and what follows from it
--   Task.Id           os/src/task/id.rs: RecycleAllocator, kernel_stack_position
--   Task.Manager      os/src/task/manager.rs: TaskManager with add, fetch and the strides
--   Fs.Pipe           os/src/fs/pipe.rs: PipeRingBuffer and the rounds of read and write
--   Fs.Inode          os/src/fs/inode.rs: OSInode, a file of the disk with a place in it
--   Fat32.Volume      the words and bytes of the disk, as the two queues of caches show them, the sectors that
--                     each has changed, and write_to_dev of fat32/src/block_cache.rs
--   Fat32.BlockCache, Fat32.BlockCacheManager
--                     fat32/src/block_cache.rs: a cached block and the queue of ten
--   Fat32.FsInfo      fat32/src/layout.rs: FSInfo
--   Fat32.Table       fat32/src/layout.rs: FAT
--   Fat32.ShortDirEntry
--                     fat32/src/layout.rs: ShortDirEntry
--   Fat32.FileContent fat32/src/layout.rs: get_pos, read_at and write_at of ShortDirEntry, the bytes of a
--                     file
--   Fat32.DirentBytes fat32/src/layout.rs: as_bytes and as_bytes_mut of ShortDirEntry
--   Fat32.LongDirEntry
--                     fat32/src/layout.rs: LongDirEntry
--   Fat32.Names       fat32/src/fat.rs: FAT32Manager, long and short names
--   Fat32.Manager     fat32/src/fat.rs: FAT32Manager, allocation and release of clusters
--   Fat32.VirtualFile fat32/src/vfs.rs: VFile, a file by its entry
--   Fat32.Directory   fat32/src/vfs.rs: VFile, the names in a directory
--   Fat32.Creation    fat32/src/vfs.rs: VFile::create
--   Base              what the files share: lists, Boolean tests, bits, outcomes
-- A module below these holds the proofs about it, and its Tests module the concrete runs.
--
-- State is passed explicitly, and an operation is a function from a state to the next. A panic is the
-- value `panicked` of Outcome. Words of w bits keep their wrap-around, as in a release build; `isize`
-- strides are the bit patterns that stand for them. A frame or an `Arc` that is dropped is a call of the
-- operation that its drop runs. Locks are held for a whole operation or, in pipes, for a whole
-- round, and interleavings are sequences of those.
--
-- Bounds and fuel. The loops of the source that have no bound take fuel, and `none` says that it ran out:
-- the walks of a chain need as much as it has clusters, the search for a free cluster as much as
-- clusters are passed, an allocation no more than the table has entries, and an access to a file no more
-- than it has bytes.
--
-- Histories of tasks are bounded by 2 ^ 64 - 4 steps, so that the count of identifiers stays below 2 ^ 64.
--
-- Not modelled. Assembly, traps, drivers, console, timer and the user programs, which are input and
-- output; third-party crates, of which the ELF parser is a parameter; a task's context on its kernel
-- stack, since a switch of contexts is the end of a call; and, so far, the opening of files by their
-- paths and the system calls on files. The disk is taken as a function from
-- blocks to bytes that keeps what was written. What one queue of blocks changes is taken to show in the
-- other when both are written back, as for a block that both hold; then a sector that both changed shows
-- what the queue of data has. A block that a queue drops and fetches again before that is not modelled
-- there. A reference that a call holds on its kernel stack while it is suspended is
-- one to the task itself, which cannot exit before the call is over, so such references are not counted.
pub mod Base
pub mod Config
pub mod Fat32
pub mod Fs
pub mod Mm
pub mod Task
