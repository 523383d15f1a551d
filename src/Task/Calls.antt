-- ===== src/Task/Calls.antt =====
-- The calls of os/src/syscall/process.rs that read the current task, or change it alone.
use bitos.Base.{
  ℕ, ◌+◌, ◌%◌, ◌^◌, none, some, List, [], ◌∷◌, if◌then◌else◌, Outcome, returned, ◌>>=◌, unwrap,
}
use bitos.Base.Isize.{le_signed, add_signed, sub_signed}
use bitos.Mm.MemorySet
use bitos.Task.Tcb.{TaskControlBlock, is_zombie, set_priority, change_program_brk}
use bitos.Task.Kernel.{Kernel, find_task, modify_task}
use bitos.Task.Process.{failed}
use bitos.Task.Wait.{write_user}

-- `current_task().unwrap()`
unfoldable pub current_task : Kernel → Outcome TaskControlBlock
current_task k = do task ← unwrap k.current; unwrap (find_task k.tasks task)

unfoldable pub current_user_token : Kernel → Outcome ℕ
current_user_token k = do t ← current_task k; returned (MemorySet.token t.memory_set)

unfoldable pub sys_getpid : Kernel → Outcome ℕ
sys_getpid k = do t ← current_task k; returned t.pid

unfoldable pub sys_getppid : Kernel → Outcome ℕ
sys_getppid k = do t ← current_task k; returned t.ppid

unfoldable pub sys_set_priority : (prio : ℕ) → Kernel → Outcome (ℕ × Kernel)
sys_set_priority prio k = if le_signed prio 1 then returned (failed, k) else (do
  t ← current_task k
  returned (prio, record k { tasks = modify_task k.tasks t.pid (λ t. set_priority t prio) }))

unfoldable pub sys_brk : (size : ℕ) → Kernel → Outcome (ℕ × Kernel)
sys_brk size k = do
  t ← current_task k
  (new_brk, frames, t') ← change_program_brk k.frames t size
  let k' = record k { frames = frames; tasks = modify_task k.tasks t.pid (λ _. t') }
  returned (elim new_brk [ none ↦ failed | some brk ↦ brk ], k')

-- The sums over the children that have exited, of the time in user mode and in the system.
unfoldable pub child_times : List TaskControlBlock → List ℕ → (cutime cstime : ℕ) → ℕ × ℕ
child_times ts [] cutime cstime = (cutime, cstime)
child_times ts (child ∷ children) cutime cstime = elim (find_task ts child) [
  | none ↦ child_times ts children cutime cstime
  | some t ↦
      let info = t.task_info in
      child_times ts children (if is_zombie t then add_signed cutime info.cutime else cutime)
        (if is_zombie t then add_signed cstime info.cstime else cstime)
]

-- `ms1` is the time now.
unfoldable pub sys_times : (ms1 time ms : ℕ) → Kernel → Outcome (ℕ × Kernel)
sys_times ms1 time ms k = do
  t ← current_task k
  let info = t.task_info
  let utime = sub_signed info.all info.stime
  let (cutime, cstime) = child_times k.tasks t.children 0 0
  s1 ← write_user 8 k.frames t.memory_set time (sub_signed (add_signed utime ms1) info.start)
  s2 ←
      write_user 8 s1 t.memory_set ((time + 8) % 2 ^ 64) (sub_signed (add_signed info.stime ms1) ms)
  s3 ← write_user 8 s2 t.memory_set ((time + 16) % 2 ^ 64) cutime
  s4 ← write_user 8 s3 t.memory_set ((time + 24) % 2 ^ 64) cstime
  returned (info.all, record k { frames = s4 })

-- The methods take a copy of the `TaskInfo` and change only that, so the task's own stays as it is.
unfoldable pub update_time : (ms : ℕ) → Kernel → Outcome Kernel
update_time ms k = do t ← current_task k; returned k
