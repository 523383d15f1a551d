-- ===== src/Task/Mmap.antt =====
-- os/src/syscall/process.rs: `sys_mmap` and `sys_munmap` of the current task, with `map_one` and `unmap_one` of
-- os/src/task/processor.rs. A file that is open is a number, whose `VFile` is a parameter, as is the file system;
-- `walk` and `fuel` are the fuel of its walks and of the translation, and `none` means that fuel ran out.
pub mod Rounds
pub mod Unmapping
pub mod Dropping
pub mod Calls
pub mod Tests
use bitos.Base.{
  ℕ, zero, suc, ◌+◌, ◌-◌, ◌*◌, ◌/◌, ◌%◌, ◌^◌, bit_and, bit_or, Bool, true, false, not, ◌||◌, Option,
  none, some, List, [], ◌∷◌, ◌==◌, if◌then◌else◌, Outcome, returned, ◌>>=◌, ◌>?=◌, done, unwrap,
  get_elem?, length,
}
use bitos.Config.{page_size}
use bitos.Mm.Address.{VirtPageNum, virt_addr_from, floor, ceil, new_range, step}
use bitos.Mm.FrameAllocator.{Memory, Frames, frame_alloc, frame_dealloc}
use bitos.Mm.PageTableEntry.{PteFlags, is_valid, flag_u}
use bitos.Mm.PageTable.{translate, from_token}
use bitos.Mm.MemorySet
use bitos.Mm.MemorySet.{MemorySet, fill_bytes}
use bitos.Mm.UserBuffer.{Slice, slice_len, translated_byte_buffer}
use bitos.Fat32.VirtualFile.{FileSystem, VFile, get_size}
use bitos.Fat32.VirtualFile
use bitos.Task.Tcb.{TaskControlBlock, File, stdin, stdout, opened}
use bitos.Task.Kernel.{Kernel, modify_task}
use bitos.Task.Process.{failed}
use bitos.Task.Calls.{current_task}

-- The loop of `sys_munmap`, with `n` pages left, and whether it came to its end.
unfoldable pub munmap_pages : (n : ℕ) → Frames → MemorySet → VirtPageNum → Outcome (Bool × Frames)
munmap_pages zero s m vpn = returned (true, s)
munmap_pages (suc n) s m vpn = elim (translate s.mem (from_token (MemorySet.token m)) vpn) [
  | none ↦ returned (false, s)
  | some pey ↦
      if not (is_valid pey)
      then returned (false, s)
      else (do s' ← MemorySet.unmap s m vpn; munmap_pages n s' m (step vpn))
]

unfoldable pub sys_munmap : (start len : ℕ) → Kernel → Outcome (ℕ × Kernel)
sys_munmap start len k = if not (start % 4096 == 0) then returned (failed, k) else (do
  t ← current_task k
  vir ← new_range (floor (virt_addr_from start)) (ceil (virt_addr_from ((start + len) % 2 ^ 64)))
  (ok, frames) ← munmap_pages (vir.r - vir.l) k.frames t.memory_set vir.l
  returned (if ok then 0 else failed, record k { frames = frames }))

-- A page is mapped to a frame whose `FrameTracker` is dropped at the end of the round.
unfoldable pub mmap_one :
    Frames → MemorySet → VirtPageNum → (frame : ℕ) → PteFlags → Outcome (Frames × MemorySet)
mmap_one s m vpn frame flag = do
  (s1, m') ← MemorySet.map s m vpn frame flag
  s2 ← frame_dealloc s1 frame
  returned (s2, m')

-- The loop of `sys_mmap` over the pages.
unfoldable pub mmap_pages :
    (n : ℕ)
    → (token : ℕ) → Frames
    → MemorySet
    → VirtPageNum
    → PteFlags
    → Outcome (Bool × Frames × MemorySet)
mmap_pages zero token s m vpn flag = returned (true, s, m)
mmap_pages (suc n) token s m vpn flag =
    let (found, s1) = frame_alloc s in
    unwrap found >>= λ frame.
    (let mapped : Outcome (Bool × Frames × MemorySet) = (do
      (s2, m2) ← mmap_one s1 m vpn frame flag
      mmap_pages n token s2 m2 (step vpn) flag) in
      elim (translate s1.mem (from_token token) vpn) [
        | none ↦ mapped
        | some pey ↦
            if not (is_valid pey)
            then mapped
            else (do s2 ← frame_dealloc s1 frame; returned (false, s2, m))
      ])

-- The loop of `sys_mmap` over the slices of the buffer, from the offset `read` of the file on.
unfoldable pub load_slices :
    (walk : ℕ) → FileSystem → VFile → List Slice → (read : ℕ) → Memory → Outcome (Option Memory)
load_slices walk fs f [] read mem = done mem
load_slices walk fs f (slice ∷ ts) read mem =
    VirtualFile.read_at walk fs f read (slice_len slice) >?= λ bytes.
    load_slices walk fs f ts ((read + length bytes) % 2 ^ 64)
      (fill_bytes mem slice.ppn slice.first bytes)

-- `as_osinode().unwrap()`
unfoldable pub vfile_of : (inode_of : ℕ → Option VFile) → File → Outcome VFile
vfile_of inode_of stdin = unwrap none
vfile_of inode_of stdout = unwrap none
vfile_of inode_of (opened file) = unwrap (inode_of file)

-- What `sys_mmap` does once the pages are mapped; `fd` is the descriptor as a `usize`.
unfoldable pub load_file :
    (fuel walk : ℕ)
    → FileSystem
    → (inode_of : ℕ → Option VFile) → (token start_va fd : ℕ) → TaskControlBlock
    → Kernel
    → Outcome (Option (ℕ × Kernel))
load_file fuel walk fs inode_of token start_va fd t k = unwrap (get_elem? t.fd_table fd) >>= λ file.
    elim file [
      | none ↦ done (failed, k)
      | some file ↦ vfile_of inode_of file >>= λ vfile.
          (translated_byte_buffer fuel k.frames.mem token (start_va * page_size % 2 ^ 64)
              (get_size fs vfile)
            >?= λ ts. load_slices walk fs vfile ts 0 k.frames.mem >?= λ mem. done (
              start_va * page_size % 2 ^ 64,
              record k { frames = record k.frames { mem = mem } },
            ))
    ]

unfoldable pub sys_mmap :
    (fuel walk : ℕ)
    → FileSystem
    → (inode_of : ℕ → Option VFile) → (start len port fd : ℕ) → Kernel
    → Outcome (Option (ℕ × Kernel))
sys_mmap fuel walk fs inode_of start len port fd k = do
  t ← current_task k
  if not (start % 4096 == 0) || not (bit_and port (2 ^ 64 - 8) == 0) || bit_and port 7 == 0
      then done (failed, k)
      else (do
        let first = if start == 0 then (t.program_brk + page_size * 8) % 2 ^ 64 else start
        let start_va = floor (virt_addr_from first)
        vir ← new_range start_va (ceil (virt_addr_from ((first + len) % 2 ^ 64)))
        let token = MemorySet.token t.memory_set
        let flag = bit_or flag_u (port % 2 ^ 8 * 2 ^ 5 % 2 ^ 8 / 2 ^ 4)
        (ok, frames, m) ← mmap_pages (vir.r - vir.l) token k.frames t.memory_set vir.l flag
        let k' = record k {
          frames = frames;
          tasks = modify_task k.tasks t.pid (λ t. record t { memory_set = m });
        }
        if ok then load_file fuel walk fs inode_of token start_va fd t k' else done (failed, k'))
