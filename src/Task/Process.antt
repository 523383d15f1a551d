-- ===== src/Task/Process.antt =====
-- os/src/task/task.rs, os/src/trap/context.rs, os/src/task/id.rs and os/src/syscall/process.rs: how a process is
-- made and given a program. The system calls take what `open_file` and `read_all` give for their path.
use bitos.Base.{
  ℕ, ◌+◌, ◌-◌, ◌%◌, ◌^◌, Option, none, some, List, [], ◌∷◌, ◌++◌, ◌==◌, ◌&&◌, if◌then◌else◌,
  Outcome, returned, ◌>>=◌, unwrap, leb,
}
use bitos.Config.{usize_mod, page_size, trap_context_base}
use bitos.Mm.Address.{PhysPageNum, virt_addr_from, page_num_of_addr}
use bitos.Mm.FrameAllocator.{Frames, frame_dealloc}
use bitos.Mm.PageTable
use bitos.Mm.PageTable.{PageTable}
use bitos.Mm.PageTableEntry.{ppn}
use bitos.Mm.MemorySet
use bitos.Mm.MemorySet.{
  MemorySet, insert_framed_area, remove_area_with_start_vpn, from_existed_user, recycle_data_pages,
  recycle_areas, fill_bytes,
}
use bitos.Mm.Spaces.{ElfFile, from_elf}
use bitos.Task.Id
use bitos.Task.Id.{RecycleAllocator, kernel_stack_position, get_top}
use bitos.Task.Manager.{add}
use bitos.Task.Tcb.{TaskControlBlock, ready, new_info, standard_fds}
use bitos.Task.Kernel.{Kernel, find_task, modify_task}

-- What code that is not translated gives: the addresses of the trampoline and of the handler that trap
-- contexts name, the status register for user mode, and the parser of ELF files.
pub record Boot : Type 0 where
  pub strampoline : ℕ
  pub trap_handler : ℕ
  pub sstatus : ℕ
  pub parse : List ℕ → Option ElfFile

-- A word of the trap context, which takes up the start of its frame: 32 registers, `sstatus`, `sepc`,
-- `kernel_satp`, `kernel_sp` and `trap_handler`.
abbrev pub set_trap_word : Frames → PhysPageNum → ℕ → ℕ → Frames
set_trap_word s p i w = record s { mem = PageTable.write s.mem (p, i) w }

unfoldable pub app_init_context :
    Boot → Frames → PhysPageNum → (entry sp kernel_satp kernel_sp : ℕ) → Frames
app_init_context boot s p entry sp kernel_satp kernel_sp = record s {
  mem = λ q i.
      if q == p && leb i 36
      then (if i == 2
          then sp
          else if i == 32
          then boot.sstatus
          else if i == 33
          then entry
          else if i == 34
          then kernel_satp
          else if i == 35
          then kernel_sp
          else if i == 36
          then boot.trap_handler
          else 0)
      else s.mem q i;
}

unfoldable pub kstack_alloc : Kernel → Outcome (ℕ × Kernel)
kstack_alloc k =
    let (id, kstacks) = Id.alloc k.kstacks in
    let (kstack_bottom, kstack_top) = kernel_stack_position id in
    insert_framed_area k.frames k.kernel_space (virt_addr_from kstack_bottom)
      (virt_addr_from kstack_top) 6
    >>= λ (frames, kernel_space).
        returned (id, record k { kstacks = kstacks; frames = frames; kernel_space = kernel_space })

-- Where the trap context of a space lies.
unfoldable pub trap_cx_of : Frames → MemorySet → Outcome PhysPageNum
trap_cx_of s m = do
  vpn ← page_num_of_addr (virt_addr_from trap_context_base)
  entry ← unwrap (MemorySet.translate s m vpn)
  returned (ppn entry)

-- A new child of `parent` at the end of its children.
unfoldable pub join : Kernel → (parent : ℕ) → TaskControlBlock → Kernel
join k parent t = record k {
  tasks = t ∷ modify_task k.tasks parent (λ p. record p { children = p.children ++ t.pid ∷ [] });
}

unfoldable pub fork : Boot → (now : ℕ) → Kernel → (parent : ℕ) → Outcome (ℕ × Kernel)
fork boot now k parent = do
  p ← unwrap (find_task k.tasks parent)
  (frames1, memory_set) ← from_existed_user boot.strampoline k.frames p.memory_set
  trap_cx_ppn ← trap_cx_of frames1 memory_set
  let (pid, pids) = Id.alloc k.pids
  (kernel_stack, k1) ← kstack_alloc (record k { pids = pids; frames = frames1 })
  let child : TaskControlBlock = record {
    pid = pid;
    ppid = parent;
    kernel_stack = kernel_stack;
    trap_cx_ppn = trap_cx_ppn;
    base_size = p.base_size;
    task_status = ready;
    memory_set = memory_set;
    parent = some parent;
    children = [];
    exit_code = 0;
    fd_table = p.fd_table;
    heap_bottom = p.heap_bottom;
    program_brk = p.program_brk;
    task_info = new_info now;
    stride = 0;
    pri = 16;
    pwd = p.pwd;
  }
  returned (
    pid,
    join (record k1 { frames = set_trap_word k1.frames trap_cx_ppn 35 (get_top kernel_stack) })
        parent child,
  )

unfoldable pub spawn :
    Boot → (now : ℕ) → Kernel → (parent : ℕ) → (elf_data : List ℕ) → Outcome (ℕ × Kernel)
spawn boot now k parent elf_data = do
  p ← unwrap (find_task k.tasks parent)
  (frames1, memory_set, user_sp, entry_point) ←
      from_elf boot.parse boot.strampoline k.frames elf_data
  trap_cx_ppn ← trap_cx_of frames1 memory_set
  let (pid, pids) = Id.alloc k.pids
  (kernel_stack, k1) ← kstack_alloc (record k { pids = pids; frames = frames1 })
  let child : TaskControlBlock = record {
    pid = pid;
    ppid = parent;
    kernel_stack = kernel_stack;
    trap_cx_ppn = trap_cx_ppn;
    base_size = user_sp;
    task_status = ready;
    memory_set = memory_set;
    parent = some parent;
    children = [];
    exit_code = 0;
    fd_table = standard_fds;
    heap_bottom = p.heap_bottom;
    program_brk = p.program_brk;
    task_info = new_info now;
    stride = 0;
    pri = 16;
    pwd = p.pwd;
  }
  returned (
    pid,
    join
        (record k1 {
          frames =
              app_init_context boot k1.frames trap_cx_ppn entry_point user_sp
                (MemorySet.token k1.kernel_space) (get_top kernel_stack);
        })
        parent child,
  )

-- `sys_fork`: the child's result register is 0, its stack pointer is the given one unless that is 0, and
-- it is ready to run.
unfoldable pub sys_fork : Boot → (now stack : ℕ) → Kernel → Outcome (ℕ × Kernel)
sys_fork boot now stack k = do
  parent ← unwrap k.current
  (new_pid, k1) ← fork boot now k parent
  child ← unwrap (find_task k1.tasks new_pid)
  let frames1 = set_trap_word k1.frames child.trap_cx_ppn 10 0
  let frames2 = if stack == 0 then frames1 else set_trap_word frames1 child.trap_cx_ppn 2 stack
  returned (new_pid, record k1 { frames = frames2; manager = add k1.manager new_pid })

-- `-1` as a system call's result.
abbrev pub failed : ℕ
failed = 2 ^ 64 - 1

unfoldable pub sys_spawn :
    Boot → (now : ℕ) → (all_data : Option (List ℕ)) → Kernel → Outcome (ℕ × Kernel)
sys_spawn boot now none k = returned (failed, k)
sys_spawn boot now (some all_data) k = do
  task ← unwrap k.current
  (new_pid, k1) ← spawn boot now k task all_data
  returned (new_pid, record k1 { manager = add k1.manager new_pid })

-- The frames of an address space that is dropped: of the page table, then of the areas.
unfoldable pub drop_trackers : Frames → List PhysPageNum → Outcome Frames
drop_trackers s [] = returned s
drop_trackers s (f ∷ rest) = do s' ← frame_dealloc s f; drop_trackers s' rest

unfoldable pub drop_memory_set : Frames → MemorySet → Outcome Frames
drop_memory_set s m = do s' ← drop_trackers s m.page_table.frames; recycle_areas s' m.areas

unfoldable pub exec : Boot → Kernel → (task : ℕ) → (elf_data : List ℕ) → Outcome Kernel
exec boot k task elf_data = do
  t ← unwrap (find_task k.tasks task)
  (s1, memory_set, user_sp, entry_point) ← from_elf boot.parse boot.strampoline k.frames elf_data
  trap_cx_ppn ← trap_cx_of s1 memory_set
  s2 ← drop_memory_set s1 t.memory_set
  returned (record k {
    frames =
        app_init_context boot s2 trap_cx_ppn entry_point user_sp (MemorySet.token k.kernel_space)
          (get_top t.kernel_stack);
    tasks =
        modify_task k.tasks task
          (λ t. record t { memory_set = memory_set; trap_cx_ppn = trap_cx_ppn });
  })

unfoldable pub sys_exec : Boot → (all_data : Option (List ℕ)) → Kernel → Outcome (ℕ × Kernel)
sys_exec boot none k = returned (failed, k)
sys_exec boot (some all_data) k = do
  task ← unwrap k.current
  k' ← exec boot k task all_data
  returned (0, k')

-- `TaskControlBlock::new`
unfoldable pub new_task :
    Boot → (now : ℕ) → Kernel → (elf_data : List ℕ) → Outcome (TaskControlBlock × Kernel)
new_task boot now k elf_data = do
  (frames1, memory_set, user_sp, entry_point) ←
      from_elf boot.parse boot.strampoline k.frames elf_data
  trap_cx_ppn ← trap_cx_of frames1 memory_set
  let (pid, pids) = Id.alloc k.pids
  (kernel_stack, k1) ← kstack_alloc (record k { pids = pids; frames = frames1 })
  let t : TaskControlBlock = record {
    pid = pid;
    ppid = 0;
    kernel_stack = kernel_stack;
    trap_cx_ppn = trap_cx_ppn;
    base_size = user_sp;
    task_status = ready;
    memory_set = memory_set;
    parent = none;
    children = [];
    exit_code = 0;
    fd_table = standard_fds;
    heap_bottom = user_sp;
    program_brk = (user_sp + page_size) % usize_mod;
    task_info = new_info now;
    stride = 0;
    pri = 16;
    pwd = 0x2F ∷ [];
  }
  returned (
    t,
    record k1 {
      frames =
          app_init_context boot k1.frames trap_cx_ppn entry_point user_sp
            (MemorySet.token k1.kernel_space) (get_top kernel_stack);
    },
  )

-- `INITPROC` is made when `add_initproc` first names it.
unfoldable pub add_initproc : Boot → (now : ℕ) → (elf_data : List ℕ) → Kernel → Outcome Kernel
add_initproc boot now elf_data k = do
  (t, k1) ← new_task boot now k elf_data
  returned (record k1 { tasks = t ∷ k1.tasks; manager = add k1.manager t.pid })
