-- ===== src/Task/Life/Reach.antt =====
-- Any sequence of the calls, from `add_initproc` on.
use bitos.Base.{
  ℕ, zero, suc, ◌-◌, ◌^◌, ◌<◌, ◌≡◌, refl, ap, ◌∙◌, arith, false, Option, none, some, List, [], ◌∷◌,
  ◌++◌, returned,
}
use bitos.Task.Id
use bitos.Task.Tcb.{TaskControlBlock, is_zombie}
use bitos.Task.Manager
use bitos.Task.Manager.{add}
use bitos.Task.Kernel.{
  Kernel, run_tasks, suspend_current_and_run_next, exit_current_and_run_next, find_task,
}
use bitos.Task.Process.{Boot, new_task, add_initproc, sys_fork, sys_spawn, sys_exec}
use bitos.Task.Wait.{count, waitpid}
use bitos.Task.Calls.{sys_set_priority, sys_brk}
use bitos.Task.Life.Returns.{Returns, bound, Returns-elim}
use bitos.Task.Life.Sound.{Sound}
use bitos.Task.Life.Identifiers.{Tracks}
use bitos.Task.Life.Creation.{Made, new_task-Made}
use bitos.Task.Life.Steps.{
  Inv, Inv-of, sys_fork-Inv, sys_spawn-Inv, sys_exec-Inv, suspend_current_and_run_next-Inv,
  exit_current_and_run_next-Inv,
}
use bitos.Task.Life.Dispatch.{Dispatched, run_tasks-Dispatched, run_tasks-Inv}
use bitos.Task.Life.Waiting.{Waited, waitpid-Waited}
use bitos.Task.Life.Calls.{waitpid-Inv, sys_set_priority-Inv, sys_brk-Inv}

-- Before the first task.
pub record Empty (k : Kernel) : Type 0 where
  pub pids : k.pids ≡ Id.new
  pub tasks : k.tasks ≡ []
  pub manager : k.manager ≡ Manager.new
  pub current : k.current ≡ none

first_pid :
    (a : Id.RecycleAllocator)
    → a ≡ Id.new
    → ((Id.alloc a).0 ≡ 1) × ((Id.alloc a).1 ≡ record { current = 2; recycled = [] })
unfolding Id.alloc Id.new
first_pid a e = rw e (refl, refl)

first_Tracks :
    (t : TaskControlBlock)
    → t.pid ≡ 1
    → Tracks zero (record { current = 2; recycled = [] }) (t ∷ [])
first_Tracks t e = record {
  counted = omega arith;
  started = omega arith;
  known = tt;
  exact = λ q. ground (arith, e);
}

first_Sound :
    (t : TaskControlBlock)
    → t.pid ≡ 1
    → is_zombie t ≡ false
    → t.children ≡ []
    → t.pri ≡ 16
    → Sound (t ∷ []) (t.pid ∷ []) none
unfolding count
first_Sound t pid alive childless priority = record {
  distinct = λ q. ground arith;
  tree = λ q. ground (arith, ap (count q) childless, pid);
  runs = λ q. ground (arith, alive);
  init = ground (arith, pid, alive);
  priorities = ground (arith, priority);
  leaves = ground (arith, alive);
}

Made-Inv :
    (k0 : Kernel) (t : TaskControlBlock) (k1 : Kernel)
    → Empty k0
    → Made k0 t k1
    → Inv zero (record k1 { tasks = t ∷ k1.tasks; manager = add k1.manager t.pid })
unfolding add Manager.new
Made-Inv k0 t k1 z m =
    let (first, next) = first_pid k0.pids z.pids in
    let pid : t.pid ≡ 1 = m.pid ∙ first in
    Inv-of (first_Tracks t pid) (first_Sound t pid m.alive m.childless m.priority)
      (m.kept.pids ∙ next) (ap (◌∷◌ t) (m.kept.tasks ∙ z.tasks))
      (ap (λ n. Manager.TaskManager.ready_queue n ++ t.pid ∷ []) (m.kept.manager ∙ z.manager))
      (m.kept.current ∙ z.current)

module _ (boot : Boot) where
  -- A round of the loop of `run_tasks` while no task runs, or a call that the current task makes.
  pub data Step : Kernel → Kernel → Type 0 where
    dispatches :
        {k k' : Kernel} (now : ℕ) → k.current ≡ none → run_tasks now k ≡ returned k' → Step k k'
    suspends :
        {k k' : Kernel} (now : ℕ) → suspend_current_and_run_next now k ≡ returned k' → Step k k'
    exits :
        {k k' : Kernel} (now exit_code : ℕ)
        → exit_current_and_run_next now exit_code k ≡ returned k'
        → Step k k'
    forks :
        {k k' : Kernel} (now stack pid : ℕ)
        → sys_fork boot now stack k ≡ returned (pid, k')
        → Step k k'
    spawns :
        {k k' : Kernel} (now : ℕ) (all_data : Option (List ℕ)) (pid : ℕ)
        → sys_spawn boot now all_data k ≡ returned (pid, k')
        → Step k k'
    execs :
        {k k' : Kernel} (all_data : Option (List ℕ)) (r : ℕ)
        → sys_exec boot all_data k ≡ returned (r, k')
        → Step k k'
    waits :
        {k k' : Kernel} (pid exit_code_ptr r : ℕ)
        → waitpid pid exit_code_ptr k ≡ returned (r, k')
        → Step k k'
    sets_priority :
        {k k' : Kernel} (prio r : ℕ) → sys_set_priority prio k ≡ returned (r, k') → Step k k'
    moves_break : {k k' : Kernel} (size r : ℕ) → sys_brk size k ≡ returned (r, k') → Step k k'

  -- The states after `n` steps.
  pub data Life : ℕ → Kernel → Type 0 where
    begins :
        {k0 k : Kernel} (now : ℕ) (elf_data : List ℕ)
        → Empty k0
        → add_initproc boot now elf_data k0 ≡ returned k
        → Life zero k
    then_step : {n : ℕ} {k k' : Kernel} → Life n k → Step k k' → Life (suc n) k'

  Step-Inv : {n : ℕ} {k k' : Kernel} → Inv n k → n < 2 ^ 64 - 4 → Step k k' → Inv (suc n) k'
  Step-Inv {n} v fits (dispatches now idle e) =
      Returns-elim (Inv (suc n)) (run_tasks-Inv v idle now) e
  Step-Inv {n} v fits (suspends now e) =
      Returns-elim (Inv (suc n)) (suspend_current_and_run_next-Inv v now) e
  Step-Inv {n} v fits (exits now exit_code e) =
      Returns-elim (Inv (suc n)) (exit_current_and_run_next-Inv v now exit_code) e
  Step-Inv {n} v fits (forks now stack pid e) =
      Returns-elim (λ (r : ℕ × Kernel). Inv (suc n) r.1) (sys_fork-Inv v boot now stack fits) e
  Step-Inv {n} v fits (spawns now all_data pid e) =
      Returns-elim (λ (r : ℕ × Kernel). Inv (suc n) r.1) (sys_spawn-Inv v boot now all_data fits) e
  Step-Inv {n} v fits (execs all_data r e) =
      Returns-elim (λ (r : ℕ × Kernel). Inv (suc n) r.1) (sys_exec-Inv v boot all_data) e
  Step-Inv {n} v fits (waits pid exit_code_ptr r e) =
      Returns-elim (λ (r : ℕ × Kernel). Inv (suc n) r.1) (waitpid-Inv v fits pid exit_code_ptr) e
  Step-Inv {n} v fits (sets_priority prio r e) =
      Returns-elim (λ (r : ℕ × Kernel). Inv (suc n) r.1) (sys_set_priority-Inv v fits prio) e
  Step-Inv {n} v fits (moves_break size r e) =
      Returns-elim (λ (r : ℕ × Kernel). Inv (suc n) r.1) (sys_brk-Inv v fits size) e

  begins-Inv :
      (k0 : Kernel) (now : ℕ) (elf_data : List ℕ)
      → Empty k0
      → Returns (Inv zero) (add_initproc boot now elf_data k0)
  unfolding add_initproc Returns
  begins-Inv k0 now elf_data z = bound (Inv zero) (new_task boot now k0 elf_data) _ (λ (t, k1) e.
      Made-Inv k0 t k1 z (
        Returns-elim (λ (r : TaskControlBlock × Kernel). Made k0 r.0 r.1)
          (new_task-Made boot now k0 elf_data) e))

  -- After fewer than 2 ^ 64 - 4 steps the identifiers of the tasks are those in use, each of one task, and
  -- the tasks, the ready queue and the current task are sound: see `Tracks` and `Sound`.
  pub Life-Inv : {n : ℕ} {k : Kernel} → Life n k → n < 2 ^ 64 - 4 → Inv n k
  Life-Inv (begins {k0} now elf_data z e) fits =
      Returns-elim (Inv zero) (begins-Inv k0 now elf_data z) e
  Life-Inv (then_step {n} l s) fits = Step-Inv (Life-Inv l (omega arith)) (omega arith) s

  -- In such a state, if no task runs, a round of `run_tasks` returns, and makes the last task of least
  -- stride in the ready queue the current one, marked as running and moved on by its stride.
  pub Life-Dispatched :
      {n : ℕ} {k : Kernel}
      → Life n k
      → n < 2 ^ 64 - 4
      → k.current ≡ none
      → (now : ℕ) → Dispatched now k
  Life-Dispatched l fits idle now = run_tasks-Dispatched (Life-Inv l fits) idle now

  -- In such a state, `waitpid` of the current task gives -1 if no child is wanted and -2 if no wanted child
  -- has exited. Otherwise it takes the first one that has, whose identifier is below 2 ^ 64 - 2: its
  -- assertion that no other reference to the child is left holds, and it goes on to write the exit code
  -- and to drop the child.
  pub Life-Waited :
      {n : ℕ} {k : Kernel}
      → Life n k
      → n < 2 ^ 64 - 4
      → {task : ℕ} {p : TaskControlBlock} → k.current ≡ some task
      → find_task k.tasks task ≡ some p
      → (pid exit_code_ptr : ℕ) → Waited k pid exit_code_ptr task p (waitpid pid exit_code_ptr k)
  Life-Waited l fits at parent pid exit_code_ptr =
      waitpid-Waited (Life-Inv l fits) fits at parent pid exit_code_ptr
