-- ===== src/Task/Mmap/Tests.antt =====
-- A page of a task that is unmapped, behind which none is mapped.
use bitos.Base.{
  ℕ, ◌+◌, ◌*◌, ◌≡◌, inl, inr, refl, sym, ap, ◌∙◌, eq_of_==, Bool-cases, Option, arith, true, ◌&&◌,
  ◌==◌, if◌then◌else◌, none, some, [], ◌∷◌, returned,
}
use bitos.Mm.Address.{phys_page_num_from, indexes, floor, ceil, virt_addr_from}
use bitos.Mm.FrameAllocator.{Memory, Frames}
use bitos.Mm.FrameAllocator.Views.{is_free}
use bitos.Mm.PageTableEntry.{is_valid, ppn}
use bitos.Mm.PageTableEntry.Fields.{not-is_valid-empty}
use bitos.Mm.PageTable.{PageTable}
use bitos.Mm.PageTable.Tree.{Owner, Slot, root, middle, leaf}
use bitos.Mm.PageTable.Walk.{IsSound}
use bitos.Mm.PageTable.Found.{entry_of}
use bitos.Mm.PageTable.Mapping.{made}
use bitos.Mm.MemorySet
use bitos.Mm.MemorySet.{MemorySet}
use bitos.Task.Id
use bitos.Task.Manager
use bitos.Task.Tcb.{opened, TaskControlBlock, running}
use bitos.Task.Kernel.{Kernel, find_task}
use bitos.Task.Calls.{current_task}
use bitos.Task.Mmap.{sys_munmap, sys_mmap, load_file}
use bitos.Task.Mmap.Calls.{sys_mmap-Freed, with_pages, flags_of}
use bitos.Fat32.VirtualFile.Tests.{file_system, file}
use bitos.Task.Mmap.Unmapping.{sys_munmap-Munmapped, Munmapped, page_of, end_of}

-- Frames 1, 2 and 3 are the tables; page 16 is mapped to frame 100.
abbrev tables : Memory
tables p i =
    if p == 1 && i == 0
    then 2 * 1024 + 1
    else if p == 2 && i == 0
    then 3 * 1024 + 1
    else if p == 3 && i == 16
    then 100 * 1024 + 31
    else 0

abbrev owner : Owner
owner p =
    if p == 1
    then some root
    else if p == 2
    then some (middle 0)
    else if p == 3
    then some (leaf 0 0)
    else none

abbrev frames : Frames
frames = record { allocator = record { current = 4; end = 10; recycled = [] }; mem = tables }

abbrev table : PageTable
table = record { root_ppn = 1; frames = 1 ∷ 2 ∷ 3 ∷ [] }

abbrev space : MemorySet
space = record { page_table = table; areas = [] }

abbrev task : TaskControlBlock
task = record {
  pid = 1;
  ppid = 0;
  kernel_stack = 0;
  trap_cx_ppn = 90;
  base_size = 0x10000;
  task_status = running;
  memory_set = space;
  parent = none;
  children = [];
  exit_code = 0;
  fd_table = some (opened 7) ∷ [];
  heap_bottom = 0x20000;
  program_brk = 0x20000;
  task_info = record { start = 0; all = 0; stime = 0; cutime = 0; cstime = 0 };
  stride = 0;
  pri = 16;
  pwd = 0x2F ∷ [];
}

abbrev kernel : Kernel
kernel = record {
  pids = Id.new;
  kstacks = Id.new;
  kernel_space = record { page_table = table; areas = [] };
  frames = frames;
  tasks = task ∷ [];
  manager = Manager.new;
  current = some 1;
}

at_middle : (i : ℕ) → is_valid (tables 1 i) ≡ true → owner (ppn (tables 1 i)) ≡ some (middle i)
unfolding is_valid ppn phys_page_num_from
at_middle i valid = elim (Bool-cases (i == 0)) [
  | inl e ↦ rw (eq_of_== i 0 e) refl
  | inr e ↦
      absurd (cc (ap is_valid (let z : tables 1 i ≡ 0 = rw e refl in z), not-is_valid-empty, valid))
]

abbrev middle_of : Option Slot → ℕ
middle_of (some (middle i)) = i
middle_of _ = 0

at_leaf :
    (p i j : ℕ)
    → owner p ≡ some (middle i)
    → is_valid (tables p j) ≡ true
    → owner (ppn (tables p j)) ≡ some (leaf i j)
unfolding is_valid ppn phys_page_num_from
at_leaf p i j owned valid = elim (Bool-cases (p == 2)) [
  | inr e ↦ absurd (ground arith)
  | inl e ↦ elim (Bool-cases (j == 0)) [
    | inl f ↦
        let first : 0 ≡ i = ap middle_of (ap owner (sym (eq_of_== p 2 e)) ∙ owned) in
        rw (eq_of_== p 2 e, eq_of_== j 0 f) (ap (λ (x : ℕ). some (leaf x 0)) first)
    | inr f ↦ absurd (
        cc (
          ap is_valid (let z : tables p j ≡ 0 = rw (eq_of_== p 2 e, f) refl in z),
          not-is_valid-empty,
          valid,
        ))
  ]
]

table-IsSound : IsSound 1 frames table owner
unfolding is_valid ppn
table-IsSound = record {
  allocator = record { low = omega arith; high = omega arith; fits = omega arith; known = tt };
  tree = record { at_root = refl; to_middle = at_middle; to_leaf = at_leaf };
  apart = λ p free. ground arith;
}

is_current : current_task kernel ≡ returned task
unfolding current_task find_task
is_current = refl

-- Two pages are to go, of which the first is there.
sys_munmap-Munmapped_example :
    Munmapped 1 kernel task owner 0x10000 8192 (sys_munmap 0x10000 8192 kernel)
sys_munmap-Munmapped_example =
    sys_munmap-Munmapped kernel task 0x10000 8192 is_current table-IsSound (omega arith)

free_page : entry_of tables table 18 ≡ none
unfolding is_valid ppn phys_page_num_from indexes
free_page = refl

one_page : end_of 0x12000 4096 ≡ page_of 0x12000 + 1
unfolding ceil floor virt_addr_from
one_page = refl

page_18 : page_of 0x12000 ≡ 18
unfolding floor virt_addr_from
page_18 = refl

sys_mmap-Freed_example :
    (f : ℕ) × (s' : Frames) × (m' : MemorySet) × (sys_mmap 4 4 file_system
        (λ x. some file)
        0x12000
        4096
        3
        0
        kernel
      ≡ load_file 4 4 file_system
          (λ x. some file)
          (MemorySet.token space)
          (page_of 0x12000)
          0
          task
          (with_pages kernel task s' m'))
    × (entry_of s'.mem m'.page_table (page_of 0x12000) ≡ some (made f (flags_of 3)))
    × (is_free s'.allocator f ≡ true)
sys_mmap-Freed_example =
    sys_mmap-Freed 4 4 file_system (λ x. some file) kernel task 0x12000 4096 3 0 is_current
      table-IsSound (omega arith) refl refl (omega arith) one_page
      (ap (entry_of tables table) page_18 ∙ free_page) (omega arith)
