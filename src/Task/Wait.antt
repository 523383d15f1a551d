-- ===== src/Task/Wait.antt =====
-- `waitpid` and `sys_times` of os/src/syscall/process.rs: how a parent takes its children that have exited,
-- and what dropping a task gives back (also os/src/task/id.rs).
use bitos.Base.{
  ℕ, zero, suc, ◌+◌, ◌-◌, ◌*◌, ◌/◌, ◌%◌, ◌^◌, Bool, false, not, Option, none, some, List, [], ◌∷◌,
  ◌==◌, ◌&&◌, ◌||◌, if◌then◌else◌, Outcome, returned, ◌>>=◌, ◌>>◌, assert, unwrap, remove,
  get_elem?,
}
use bitos.Mm.Address.{PhysAddr, virt_addr_from, page_num_of_addr}
use bitos.Mm.FrameAllocator.{Memory, Frames}
use bitos.Mm.PageTable
use bitos.Mm.PageTable.{PageTable, from_token}
use bitos.Mm.MemorySet
use bitos.Mm.MemorySet.{MemorySet, set_byte, remove_area_with_start_vpn}
use bitos.Task.Id
use bitos.Task.Id.{kernel_stack_position}
use bitos.Task.Tcb.{TaskControlBlock, is_zombie}
use bitos.Task.Kernel.{Kernel, find_task, modify_task, initproc, suspend_current_and_run_next}
use bitos.Task.Process.{failed, drop_memory_set}

-- How often a number occurs.
unfoldable pub count : ℕ → List ℕ → ℕ
count q [] = 0
count q (x ∷ xs) = (if x == q then 1 else 0) + count q xs

-- The children of all tasks that are `pid`, each behind an `Arc`.
unfoldable pub held : List TaskControlBlock → ℕ → ℕ
held [] pid = 0
held (t ∷ ts) pid = count pid t.children + held ts pid

abbrev pub at_cpu : Option ℕ → ℕ → ℕ
at_cpu none pid = 0
at_cpu (some task) pid = if task == pid then 1 else 0

-- `Arc::strong_count`: the references from children lists, the ready queue, the processor and `INITPROC`.
unfoldable pub strong_count : Kernel → ℕ → ℕ
strong_count k pid =
    held k.tasks pid
    + count pid k.manager.ready_queue
    + at_cpu k.current pid
    + (if pid == initproc then 1 else 0)

-- `pid == -1 || pid as usize == p.getpid()`
unfoldable pub wanted : (pid child : ℕ) → Bool
wanted pid child = pid == failed || pid == child

unfoldable pub any_wanted : (pid : ℕ) → List ℕ → Bool
any_wanted pid [] = false
any_wanted pid (c ∷ cs) = wanted pid c || any_wanted pid cs

unfoldable pub is_zombie_at : List TaskControlBlock → ℕ → Bool
is_zombie_at ts pid = elim (find_task ts pid) [ none ↦ false | some t ↦ is_zombie t ]

-- The place of the first wanted child that has exited.
unfoldable pub find_exited : List TaskControlBlock → (pid : ℕ) → List ℕ → Option ℕ
find_exited ts pid [] = none
find_exited ts pid (c ∷ cs) =
    let later = find_exited ts pid cs in
    if is_zombie_at ts c && wanted pid c
    then some 0
    else elim later [ none ↦ none | some i ↦ some (suc i) ]

-- `n` bytes of a value from a physical address on, the lowest first.
unfoldable pub store_bytes : (n : ℕ) → Memory → PhysAddr → (value : ℕ) → Memory
store_bytes zero mem pa value = mem
store_bytes (suc n) mem pa value =
    let p = pa / 4096 in
    let i = pa % 4096 / 8 in
    store_bytes n (PageTable.write mem (p, i) (set_byte (mem p i) (pa % 8) (value % 2 ^ 8)))
      (suc pa) (value / 2 ^ 8)

-- A write through `translated_refmut`.
unfoldable pub write_user : (n : ℕ) → Frames → MemorySet → (ptr value : ℕ) → Outcome Frames
write_user n s m ptr value = do
  pa ← unwrap (PageTable.translate_va s.mem (from_token (MemorySet.token m)) (virt_addr_from ptr))
  returned (record s { mem = store_bytes n s.mem pa value })

unfoldable pub delete_task : List TaskControlBlock → ℕ → List TaskControlBlock
delete_task [] pid = []
delete_task (t ∷ ts) pid = if t.pid == pid then ts else t ∷ delete_task ts pid

-- The drop of a `KernelStack`.
unfoldable pub drop_kernel_stack : Kernel → ℕ → Outcome Kernel
drop_kernel_stack k id = do
  vpn ← page_num_of_addr (virt_addr_from (kernel_stack_position id).0)
  (s', kernel_space) ← remove_area_with_start_vpn k.frames k.kernel_space vpn
  kstacks ← Id.dealloc k.kstacks id
  returned (record k { frames = s'; kernel_space = kernel_space; kstacks = kstacks })

-- The drop of a task control block, field by field.
unfoldable pub drop_task : Kernel → TaskControlBlock → Outcome Kernel
drop_task k t = do
  pids ← Id.dealloc k.pids t.pid
  k1 ← drop_kernel_stack (record k { pids = pids }) t.kernel_stack
  s' ← drop_memory_set k1.frames t.memory_set
  returned (record k1 { frames = s'; tasks = delete_task k1.tasks t.pid })

-- `-2`: no wanted child has exited yet.
abbrev pub unfinished : ℕ
unfinished = 2 ^ 64 - 2

-- A child that is taken: the local variable `child` is its one reference when the assertion is made.
unfoldable pub reap : Kernel → (task child idx exit_code_ptr : ℕ) → Outcome (ℕ × Kernel)
reap k task child idx exit_code_ptr = do
  let tasks1 = modify_task k.tasks task (λ p. record p { children = remove p.children idx })
  let k1 = record k { tasks = tasks1 }
  assert (strong_count k1 child + 1 == 1)
  c ← unwrap (find_task tasks1 child)
  p ← unwrap (find_task tasks1 task)
  frames ←
      if exit_code_ptr == 0
      then returned k1.frames
      else write_user 4 k1.frames p.memory_set exit_code_ptr (c.exit_code * 2 ^ 8 % 2 ^ 32)
  k2 ← drop_task (record k1 { frames = frames }) c
  returned (child, k2)

unfoldable pub waitpid : (pid exit_code_ptr : ℕ) → Kernel → Outcome (ℕ × Kernel)
waitpid pid exit_code_ptr k = do
  task ← unwrap k.current
  inner ← unwrap (find_task k.tasks task)
  if not (any_wanted pid inner.children)
      then returned (failed, k)
      else elim (find_exited k.tasks pid inner.children) [
        | none ↦ returned (unfinished, k)
        | some idx ↦ do
          child ← unwrap (get_elem? inner.children idx)
          reap k task child idx exit_code_ptr
      ]

-- A round of the loop of `sys_waitpid`: the result of the call, or none when the task yields, which takes
-- the next round once it runs again.
unfoldable pub sys_waitpid : (now pid exit_code_ptr : ℕ) → Kernel → Outcome (Option ℕ × Kernel)
sys_waitpid now pid exit_code_ptr k = do
  (n, k1) ← waitpid pid exit_code_ptr k
  if n == unfinished
      then (do k2 ← suspend_current_and_run_next now k1; returned (none, k2))
      else returned (some n, k1)
