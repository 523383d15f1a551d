-- ===== src/Task/Life/Tests.antt =====
-- A first process that forks, waits and takes its child, and the theorems in the states that it reaches.
use bitos.Base.{
  ℕ, arith, Bool, true, false, ◌-◌, ◌^◌, ◌≡◌, refl, some, none, [], ◌∷◌, Outcome, returned,
  panicked,
}
use bitos.Mm.FrameAllocator.{Frames}
use bitos.Mm.Spaces.{ElfFile}
use bitos.Task.Id
use bitos.Task.Manager
use bitos.Task.Kernel.{
  Kernel, find_task, run_tasks, suspend_current_and_run_next, exit_current_and_run_next,
}
use bitos.Task.Process.{Boot, add_initproc, sys_fork}
use bitos.Task.Tcb.{TaskControlBlock, is_zombie}
use bitos.Task.Wait.{waitpid}
use bitos.Task.Life.Steps.{Inv, current_found}
use bitos.Task.Life.Dispatch.{Dispatched}
use bitos.Task.Life.Waiting.{Waited}
use bitos.Task.Life.Reach.{
  Empty, Life, begins, then_step, dispatches, suspends, exits, forks, Life-Inv, Life-Dispatched,
  Life-Waited,
}

abbrev program : ElfFile
program = record {
  magic = 0x7F ∷ 0x45 ∷ 0x4C ∷ 0x46 ∷ [];
  program_headers = [];
  entry_point = 0x1000;
  input = [];
}

abbrev boot : Boot
boot = record {
  strampoline = 0x80200000;
  trap_handler = 0x80201000;
  sstatus = 0x20;
  parse = λ bytes. some program;
}

abbrev bare : Kernel
bare = record {
  pids = Id.new;
  kstacks = Id.new;
  kernel_space = record {
    page_table = record { root_ppn = 0x100; frames = 0x100 ∷ [] };
    areas = [];
  };
  frames = record {
    allocator = record { current = 0x101; end = 0x200; recycled = [] };
    mem = λ p i. 0;
  };
  tasks = [];
  manager = Manager.new;
  current = none;
}

abbrev or_bare : Outcome Kernel → Kernel
or_bare (returned k) = k
or_bare panicked = bare

abbrev value_or_0 : Outcome (ℕ × Kernel) → ℕ
value_or_0 (returned (r, k)) = r
value_or_0 panicked = 0

abbrev second_or_bare : Outcome (ℕ × Kernel) → Kernel
second_or_bare (returned (r, k)) = k
second_or_bare panicked = bare

abbrev start : Kernel
start = or_bare (add_initproc boot 0 [] bare)

abbrev running : Kernel
running = or_bare (run_tasks 10 start)

abbrev forked : Kernel
forked = second_or_bare (sys_fork boot 20 0 running)

abbrev yielded : Kernel
yielded = or_bare (suspend_current_and_run_next 30 forked)

abbrev child_runs : Kernel
child_runs = or_bare (run_tasks 40 yielded)

abbrev child_gone : Kernel
child_gone = or_bare (exit_current_and_run_next 50 7 child_runs)

abbrev parent_runs : Kernel
parent_runs = or_bare (run_tasks 60 child_gone)

abbrev ok {ℓ} : {A : Type ℓ} → Outcome A → Bool
ok (returned a) = true
ok panicked = false

kernel_of : (o : Outcome Kernel) → ok o ≡ true → o ≡ returned (or_bare o)
kernel_of (returned k) e = refl
kernel_of panicked e = cc

value_of : (o : Outcome (ℕ × Kernel)) → ok o ≡ true → o ≡ returned (value_or_0 o, second_or_bare o)
value_of (returned r) e = refl
value_of panicked e = cc

-- No call of the run panics, and `waitpid` takes the child, whose identifier is 2.
run :
    (ok (add_initproc boot 0 [] bare) ≡ true)
    × (start.current ≡ none)
    × (ok (run_tasks 10 start) ≡ true)
    × (ok (sys_fork boot 20 0 running) ≡ true)
    × (ok (suspend_current_and_run_next 30 forked) ≡ true)
    × (yielded.current ≡ none)
    × (ok (run_tasks 40 yielded) ≡ true)
    × (ok (exit_current_and_run_next 50 7 child_runs) ≡ true)
    × (child_gone.current ≡ none)
    × (ok (run_tasks 60 child_gone) ≡ true)
    × (parent_runs.current ≡ some 1)
    × (value_or_0 (waitpid (2 ^ 64 - 1) 0 parent_runs) ≡ 2)
unfolding add_initproc bitos.Task.Process.new_task bitos.Mm.Spaces.from_elf
    bitos.Mm.MemorySet.new_bare bitos.Mm.PageTable.new bitos.Mm.FrameAllocator.frame_alloc
    bitos.Mm.FrameAllocator.alloc bitos.Mm.MemorySet.map_trampoline
    bitos.Mm.Address.page_num_of_addr bitos.Mm.Address.virt_addr_from
    bitos.Mm.Address.phys_addr_from bitos.Mm.PageTable.map bitos.Mm.PageTableEntry.is_valid
    bitos.Mm.FrameAllocator.clear_frame bitos.Mm.Address.phys_page_num_from
    bitos.Mm.PageTableEntry.ppn bitos.Mm.PageTableEntry.new bitos.Mm.Spaces.is_elf_magic
    bitos.Mm.Spaces.push_segments bitos.Mm.Spaces.push_area bitos.Mm.Address.addr_of_page_num
    bitos.Mm.Address.ceil bitos.Mm.Address.floor bitos.Mm.Address.indexes bitos.Mm.Address.new_range
    bitos.Mm.Address.page_offset bitos.Mm.Address.step bitos.Mm.Address.usize_from_virt_addr
    bitos.Mm.MapArea.map bitos.Mm.MapArea.map_one bitos.Mm.MapArea.map_pages bitos.Mm.MapArea.new
    bitos.Mm.MapArea.take_frame bitos.Mm.MapArea.drop_frame bitos.Mm.FrameAllocator.dealloc
    bitos.Mm.FrameAllocator.frame_dealloc bitos.Mm.MemorySet.insert_framed_area
    bitos.Mm.MemorySet.push bitos.Mm.MemorySet.translate bitos.Mm.PageTable.descend_create
    bitos.Mm.PageTable.find_pte bitos.Mm.PageTable.find_pte_create bitos.Mm.PageTable.translate
    bitos.Mm.PageTable.write bitos.Mm.PageTableEntry.flags Id.alloc Id.new Id.kernel_stack_position
    bitos.Task.Process.kstack_alloc bitos.Task.Process.trap_cx_of run_tasks sys_fork
    suspend_current_and_run_next exit_current_and_run_next waitpid bitos.Task.Kernel.find_task
    bitos.Task.Kernel.modify_task bitos.Task.Kernel.stride_of bitos.Task.Kernel.account
    bitos.Task.Kernel.adopt_all bitos.Task.Tcb.update_stri bitos.Task.Tcb.is_zombie
    bitos.Task.Process.fork bitos.Task.Process.join Manager.add Manager.new Manager.fetch
    Manager.scan bitos.Mm.MemorySet.from_existed_user bitos.Mm.MemorySet.copy_areas
    bitos.Mm.MemorySet.copy_pages bitos.Mm.MapArea.from_another bitos.Mm.MemorySet.copy_page
    bitos.Mm.MemorySet.recycle_data_pages bitos.Mm.MemorySet.recycle_areas
    bitos.Mm.MemorySet.drop_frames bitos.Mm.MemorySet.drop_each bitos.Mm.MemorySet.in_order
    bitos.Mm.MemorySet.insert_by_page bitos.Task.Wait.reap bitos.Task.Wait.any_wanted
    bitos.Task.Wait.wanted bitos.Task.Wait.find_exited bitos.Task.Wait.is_zombie_at
    bitos.Task.Wait.strong_count bitos.Task.Wait.held bitos.Task.Wait.count
    bitos.Task.Wait.drop_task bitos.Task.Wait.delete_task bitos.Task.Wait.drop_kernel_stack
    bitos.Task.Process.drop_memory_set bitos.Task.Process.drop_trackers
    bitos.Mm.MemorySet.remove_area_with_start_vpn bitos.Mm.MemorySet.remove_area
    bitos.Mm.MapArea.unmap bitos.Mm.MapArea.unmap_pages bitos.Mm.MapArea.unmap_one
    bitos.Mm.PageTable.unmap Id.dealloc bitos.Task.Process.app_init_context
run = (refl, refl, refl, refl, refl, refl, refl, refl, refl, refl, refl, refl)

empty : Empty bare
empty = record { pids = refl; tasks = refl; manager = refl; current = refl }

Life-start : Life boot 0 start
Life-start = begins {k0 = bare} 0 [] empty (kernel_of _ run.0)

Life-forked : Life boot 2 forked
Life-forked =
    then_step (then_step Life-start (dispatches 10 run.1 (kernel_of _ run.2)))
      (forks 20 0 (value_or_0 (sys_fork boot 20 0 running)) (value_of _ run.3))

Life-child : Life boot 4 child_runs
Life-child =
    then_step (then_step Life-forked (suspends 30 (kernel_of _ run.4)))
      (dispatches 40 run.5 (kernel_of _ run.6))

Life-gone : Life boot 5 child_gone
Life-gone = then_step Life-child (exits 50 7 (kernel_of _ run.7))

Life-parent : Life boot 6 parent_runs
Life-parent = then_step Life-gone (dispatches 60 run.8 (kernel_of _ run.9))

parent :
    (p : TaskControlBlock) × (find_task parent_runs.tasks 1 ≡ some p)
    × (p.pid ≡ 1)
    × (is_zombie p ≡ false)
parent = current_found (Life-Inv boot Life-parent (omega arith)) 1 run.10

Life-Inv_example : Inv 6 parent_runs
Life-Inv_example = Life-Inv boot Life-parent (omega arith)

Life-Dispatched_example : Dispatched 60 child_gone
Life-Dispatched_example = Life-Dispatched boot Life-gone (omega arith) run.8 60

Life-Waited_example :
    Waited parent_runs (2 ^ 64 - 1) 0 1 parent.0 (waitpid (2 ^ 64 - 1) 0 parent_runs)
Life-Waited_example = Life-Waited boot Life-parent (omega arith) run.10 parent.1 (2 ^ 64 - 1) 0
