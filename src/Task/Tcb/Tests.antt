-- ===== src/Task/Tcb/Tests.antt =====
-- The theorems at a concrete task.
use bitos.Base.{◌≡◌, refl, arith, some, none, [], ◌∷◌, returned}
use bitos.Mm.FrameAllocator.{Frames}
use bitos.Task.Tcb.{TaskControlBlock, running, stdin, stdout, opened, alloc_fd, change_program_brk}
use bitos.Task.Tcb.Files.{Allocated, alloc_fd-Allocated}
use bitos.Task.Tcb.Break.{moved, change_program_brk_cases}

abbrev frames : Frames
frames = record {
  allocator = record { current = 0x101; end = 0x200; recycled = [] };
  mem = λ p i. 0;
}

-- Descriptor 1 is free.
abbrev task : TaskControlBlock
task = record {
  pid = 3;
  ppid = 1;
  kernel_stack = 3;
  trap_cx_ppn = 0x180;
  base_size = 0x5000;
  task_status = running;
  memory_set = record { page_table = record { root_ppn = 0x100; frames = 0x100 ∷ [] }; areas = [] };
  parent = some 1;
  children = [];
  exit_code = 0;
  fd_table = some stdin ∷ none ∷ some stdout ∷ some (opened 7) ∷ [];
  heap_bottom = 0x5000;
  program_brk = 0x6000;
  task_info = record { start = 0; all = 0; stime = 0; cutime = 0; cstime = 0 };
  stride = 0;
  pri = 16;
  pwd = 0x2F ∷ [];
}

alloc_fd-Allocated_example : Allocated task (alloc_fd task)
alloc_fd-Allocated_example = alloc_fd-Allocated task

change_program_brk_cases_example : change_program_brk frames task 0x6800 ≡ moved frames task 0x6800
change_program_brk_cases_example =
    change_program_brk_cases frames task 0x6800 (omega arith) (omega arith) (omega arith)

lowest_free : (alloc_fd task).0 ≡ 1
unfolding alloc_fd bitos.Task.Tcb.find_none
lowest_free = refl

break_moves :
    change_program_brk frames task 0x6800
    ≡ returned (some 0x6800, frames, record task { program_brk = 0x6800 })
unfolding change_program_brk
break_moves = refl
