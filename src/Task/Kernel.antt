-- ===== src/Task/Kernel.antt =====
-- os/src/task/mod.rs and os/src/task/processor.rs: the tasks that are alive, the processor, and how a task
-- comes to run and stops. A task control block is reached by its pid. A call that switches to another task ends where `schedule` leaves the processor
-- without a current task; the next step is a round of `run_tasks`. Time is a parameter of each call.
use bitos.Base.{
  ℕ, ◌+◌, ◌-◌, ◌%◌, ◌^◌, not, Option, none, some, List, [], ◌∷◌, ◌++◌, ◌==◌, ◌||◌, if◌then◌else◌,
  Outcome, returned, ◌>>=◌, ◌>>◌, assert, unwrap, contains,
}
use bitos.Mm.FrameAllocator.{Frames}
use bitos.Mm.MemorySet.{MemorySet, recycle_data_pages}
use bitos.Task.Id.{RecycleAllocator}
use bitos.Task.Manager.{TaskManager, add, fetch}
use bitos.Task.Tcb.{TaskControlBlock, ready, running, zombie, update_stri}

-- The allocators, the kernel's address space, the tasks that are alive, the ready queue and the
-- processor's current task.
pub record Kernel : Type 0 where
  pub pids : RecycleAllocator
  pub kstacks : RecycleAllocator
  pub kernel_space : MemorySet
  pub frames : Frames
  pub tasks : List TaskControlBlock
  pub manager : TaskManager
  pub current : Option ℕ

-- `INITPROC` takes the first identifier.
abbrev pub initproc : ℕ
initproc = 1

unfoldable pub find_task : List TaskControlBlock → ℕ → Option TaskControlBlock
find_task [] pid = none
find_task (t ∷ ts) pid = if t.pid == pid then some t else find_task ts pid

unfoldable pub modify_task :
    List TaskControlBlock → ℕ → (TaskControlBlock → TaskControlBlock) → List TaskControlBlock
modify_task [] pid f = []
modify_task (t ∷ ts) pid f = if t.pid == pid then f t ∷ ts else t ∷ modify_task ts pid f

unfoldable pub stride_of : List TaskControlBlock → ℕ → ℕ
stride_of ts pid = elim (find_task ts pid) [ none ↦ 0 | some t ↦ t.stride ]

-- `task_info.all += now - task_info.start`
unfoldable pub account : TaskControlBlock → (now : ℕ) → TaskControlBlock
account t now = record t {
  task_info = record t.task_info {
    all = (t.task_info.all + now + 2 ^ 64 - t.task_info.start) % 2 ^ 64;
  };
}

unfoldable pub suspend_current_and_run_next : (now : ℕ) → Kernel → Outcome Kernel
suspend_current_and_run_next now k = do
  task ← unwrap k.current
  returned (record k {
    current = none;
    tasks = modify_task k.tasks task (λ t. account (record t { task_status = ready }) now);
    manager = add k.manager task;
  })

-- One round of the loop of `run_tasks`, up to the switch.
unfoldable pub run_tasks : (now : ℕ) → Kernel → Outcome Kernel
run_tasks now k = do
  (found, manager) ← fetch (stride_of k.tasks) k.manager
  elim found [
    | none ↦ returned (record k { manager = manager })
    | some task ↦ do
      t ← unwrap (find_task k.tasks task)
      t' ←
          update_stri
            (record t { task_status = running; task_info = record t.task_info { start = now } })
      returned (record k {
        manager = manager;
        tasks = modify_task k.tasks task (λ _. t');
        current = some task;
      })
  ]

-- The loop over the children of an exiting task.
unfoldable pub adopt_all : List TaskControlBlock → List ℕ → List TaskControlBlock
adopt_all ts [] = ts
adopt_all ts (child ∷ children) =
    adopt_all
      (modify_task (modify_task ts child (λ t. record t { parent = some initproc })) initproc
        (λ t. record t { children = t.children ++ child ∷ [] }))
      children

abbrev pub buried : TaskControlBlock → MemorySet → (now exit_code : ℕ) → TaskControlBlock
buried t m now exit_code = record (account t now) {
  task_status = zombie;
  exit_code = exit_code;
  children = [];
  memory_set = m;
  fd_table = [];
}

-- A second borrow of a task panics: of `INITPROC`, when it exits or is its own child, or of the task itself.
unfoldable pub exit_current_and_run_next : (now exit_code : ℕ) → Kernel → Outcome Kernel
exit_current_and_run_next now exit_code k = do
  task ← unwrap k.current
  assert (not (task == 0))
  assert (not (task == initproc))
  t ← unwrap (find_task k.tasks task)
  assert (not (contains task t.children || contains initproc t.children))
  (frames, m) ← recycle_data_pages k.frames t.memory_set
  returned (record k {
    current = none;
    frames = frames;
    tasks = modify_task (adopt_all k.tasks t.children) task (λ t. buried t m now exit_code);
  })
