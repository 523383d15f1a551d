-- ===== src/Task/Mmap/Calls.antt =====
-- What `sys_mmap` leaves in an address space for one page.
use bitos.Base.{
  ℕ, ◌+◌, ◌-◌, ◌*◌, ◌/◌, ◌%◌, ◌^◌, ◌≤◌, ◌<◌, ◌≡◌, ◌≢◌, refl, arith, bit_and, bit_or, true, ◌==◌,
  if◌then◌else◌, Option, none, some, returned, leb_of_le, ==_of_ne,
}
use bitos.Base.Bits.{or_of_fields}
use bitos.Config.{page_size}
use bitos.Mm.Address.{floor, ceil, virt_addr_from, new_range}
use bitos.Mm.FrameAllocator.{Frames}
use bitos.Mm.FrameAllocator.Views.{is_free, free_count}
use bitos.Mm.PageTableEntry.{flag_u}
use bitos.Mm.PageTable.Tree.{Owner}
use bitos.Mm.PageTable.Walk.{IsSound}
use bitos.Mm.PageTable.Found.{entry_of}
use bitos.Mm.PageTable.Mapping.{made}
use bitos.Mm.MemorySet
use bitos.Mm.MemorySet.{MemorySet}
use bitos.Fat32.VirtualFile.{FileSystem, VFile}
use bitos.Task.Tcb.{TaskControlBlock}
use bitos.Task.Kernel.{Kernel, modify_task}
use bitos.Task.Calls.{current_task}
use bitos.Task.Mmap.{mmap_pages, load_file, sys_mmap}
use bitos.Task.Mmap.Unmapping.{bounded_end, page_of, end_of}
use bitos.Task.Mmap.Dropping.{mmap_pages-Freed}

-- Where the range begins, and the flags of its pages.
abbrev pub first_address : TaskControlBlock → ℕ → ℕ
first_address t addr = if addr == 0 then (t.program_brk + page_size * 8) % 2 ^ 64 else addr

abbrev pub flags_of : (port : ℕ) → ℕ
flags_of port = bit_or flag_u (port % 2 ^ 8 * 2 ^ 5 % 2 ^ 8 / 2 ^ 4)

flags_of_small : (port : ℕ) → flags_of port < 2 ^ 8
flags_of_small port =
    omega (arith, or_of_fields 4 1 (port % 2 ^ 8 * 2 ^ 5 % 2 ^ 8 / 2 ^ 4) (omega arith))

-- The state behind the loop over the pages.
abbrev pub with_pages : Kernel → TaskControlBlock → Frames → MemorySet → Kernel
with_pages k t s m = record k {
  frames = s;
  tasks = modify_task k.tasks t.pid (λ t. record t { memory_set = m });
}

module _ (fuel walk : ℕ) (fs : FileSystem) (inode_of : ℕ → Option VFile) (k : Kernel)
    (t : TaskControlBlock) (addr len port fd : ℕ) where
  maps_one :
      (l : ℕ) (s' : Frames) (m' : MemorySet)
      → current_task k ≡ returned t
      → addr % 4096 ≡ 0
      → bit_and port (2 ^ 64 - 8) ≡ 0
      → bit_and port 7 ≢ 0
      → floor (virt_addr_from (first_address t addr)) ≡ l
      → ceil (virt_addr_from ((first_address t addr + len) % 2 ^ 64)) ≡ l + 1
      → mmap_pages 1 (MemorySet.token t.memory_set) k.frames t.memory_set l (flags_of port)
        ≡ returned (true, s', m')
      → sys_mmap fuel walk fs inode_of addr len port fd k
        ≡ load_file fuel walk fs inode_of
            (MemorySet.token t.memory_set)
            l
            fd
            t
            (with_pages k t s' m')
  unfolding sys_mmap new_range
  maps_one l s' m' now aligned within some_right first last mapped =
      let one : l + 1 - l ≡ 1 = omega arith in
      rw
        (
          now,
          aligned,
          within,
          ==_of_ne (bit_and port 7) 0 some_right,
          first,
          last,
          leb_of_le l (l + 1) (omega arith),
          one,
          mapped,
        )
        refl

  -- `sys_mmap` of an aligned address with rights, for a range of one page that is not mapped, with three frames
  -- free, on a sound page table whose root is below 2 ^ 44: it maps the page with these rights and goes on to read the file, in a state in
  -- which the frame that the page leads to is free for the allocator. An address of 0 stands for the eighth page
  -- behind the break.
  pub sys_mmap-Freed :
      {start : ℕ} {owner : Owner}
      → current_task k ≡ returned t
      → IsSound start k.frames t.memory_set.page_table owner
      → t.memory_set.page_table.root_ppn < 2 ^ 44
      → addr % 4096 ≡ 0
      → bit_and port (2 ^ 64 - 8) ≡ 0
      → bit_and port 7 ≢ 0
      → end_of (first_address t addr) len ≡ page_of (first_address t addr) + 1
      → entry_of k.frames.mem t.memory_set.page_table (page_of (first_address t addr)) ≡ none
      → 3 ≤ free_count k.frames.allocator
      → (f : ℕ) × (s' : Frames) × (m' : MemorySet) × (sys_mmap fuel walk fs inode_of addr len port
            fd k
          ≡ load_file fuel walk fs inode_of
              (MemorySet.token t.memory_set)
              (page_of (first_address t addr))
              fd
              t
              (with_pages k t s' m'))
        × (entry_of s'.mem m'.page_table (page_of (first_address t addr))
            ≡ some (made f (flags_of port)))
        × (is_free s'.allocator f ≡ true)
  sys_mmap-Freed now v root aligned within some_right one gone many =
      let l = page_of (first_address t addr) in
      let (f, s', m', e, entry, free) =
        mmap_pages-Freed k.frames t.memory_set l (flags_of port) v root
          (omega (arith, one, bounded_end ((first_address t addr + len) % 2 ^ 64)))
          (flags_of_small port) gone many in
      (f, s', m', maps_one l s' m' now aligned within some_right refl one e, entry, free)
