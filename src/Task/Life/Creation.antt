-- ===== src/Task/Life/Creation.antt =====
-- What `fork`, `spawn` and `exec` leave of the tasks.
use bitos.Base.{
  ℕ, ◌≡◌, refl, sym, ap, ◌∙◌, arith, false, some, List, [], ◌∷◌, returned, unwrap,
  unwrap-eq-returned,
}
use bitos.Mm.Address.{virt_addr_from, page_num_of_addr}
use bitos.Mm.FrameAllocator.{Frames}
use bitos.Mm.Spaces.{from_elf}
use bitos.Mm.MemorySet.{remove_area_with_start_vpn, insert_framed_area, from_existed_user}
use bitos.Task.Id
use bitos.Task.Id.{kernel_stack_position}
use bitos.Task.Tcb.{TaskControlBlock, is_zombie}
use bitos.Task.Kernel.{Kernel, find_task, modify_task}
use bitos.Task.Process.{
  Boot, fork, spawn, kstack_alloc, join, trap_cx_of, new_task, drop_memory_set, exec,
}
use bitos.Task.Wait.{delete_task, drop_kernel_stack, drop_task}
use bitos.Task.Life.Returns.{Returns, bound, Returns-elim}
use bitos.Task.Life.Birth.{with_child}
use bitos.Task.Life.Counts.{Same}

-- The parts that identifiers, tasks and scheduling read are the same.
pub record Kept (k k' : Kernel) : Type 0 where
  pub pids : k'.pids ≡ k.pids
  pub tasks : k'.tasks ≡ k.tasks
  pub manager : k'.manager ≡ k.manager
  pub current : k'.current ≡ k.current

pub record Born (k : Kernel) (parent new_pid : ℕ) (k' : Kernel) : Type 0 where
  pub child : TaskControlBlock
  pub pid : child.pid ≡ (Id.alloc k.pids).0
  pub result : new_pid ≡ (Id.alloc k.pids).0
  pub alive : is_zombie child ≡ false
  pub childless : child.children ≡ []
  pub priority : child.pri ≡ 16
  pub tasks : k'.tasks ≡ child ∷ modify_task k.tasks parent (with_child child.pid)
  pub pids : k'.pids ≡ (Id.alloc k.pids).1
  pub manager : k'.manager ≡ k.manager
  pub current : k'.current ≡ k.current

pub kstack_alloc-Kept : (k : Kernel) → Returns (λ (r : ℕ × Kernel). Kept k r.1) (kstack_alloc k)
unfolding kstack_alloc Returns
kstack_alloc-Kept k =
    let (id, kstacks) = Id.alloc k.kstacks in
    let (kstack_bottom, kstack_top) = kernel_stack_position id in
    bound (λ (r : ℕ × Kernel). Kept k r.1)
      (insert_framed_area k.frames k.kernel_space (virt_addr_from kstack_bottom)
        (virt_addr_from kstack_top) 6)
      _ (λ r e. record { pids = refl; tasks = refl; manager = refl; current = refl })

join-Born :
    (k : Kernel) (s : Frames) (k1 : Kernel) (s1 : Frames) (parent : ℕ) (child : TaskControlBlock)
    → Kept (record k { pids = (Id.alloc k.pids).1; frames = s }) k1
    → child.pid ≡ (Id.alloc k.pids).0
    → is_zombie child ≡ false
    → child.children ≡ []
    → child.pri ≡ 16
    → Born k parent child.pid (join (record k1 { frames = s1 }) parent child)
unfolding join
join-Born k s k1 s1 parent child kept pid alive childless priority = record {
  child = child;
  pid = pid;
  result = pid;
  alive = alive;
  childless = childless;
  priority = priority;
  tasks = ap (λ ts. child ∷ modify_task ts parent (with_child child.pid)) kept.tasks;
  pids = kept.pids;
  manager = kept.manager;
  current = kept.current;
}

module _ (boot : Boot) (now : ℕ) (k : Kernel) (parent : ℕ) where
  abbrev Bears : ℕ × Kernel → Type 0
  Bears (new_pid, k') = Born k parent new_pid k'

  pub fork-Born : Returns (λ (r : ℕ × Kernel). Born k parent r.0 r.1) (fork boot now k parent)
  unfolding fork Returns is_zombie
  fork-Born = bound Bears (unwrap (find_task k.tasks parent)) _ (λ p e1.
      bound Bears (from_existed_user boot.strampoline k.frames p.memory_set) _ (λ r e2.
        bound Bears (trap_cx_of r.0 r.1) _ (λ trap_cx_ppn e3.
          let k0 = record k { pids = (Id.alloc k.pids).1; frames = r.0 } in
          bound Bears (kstack_alloc k0) _ (λ s e4.
            join-Born k r.0 s.1 _ parent _
              (Returns-elim (λ (r : ℕ × Kernel). Kept k0 r.1) (kstack_alloc-Kept k0) e4) refl refl
              refl refl))))

  pub spawn-Born :
      (elf_data : List ℕ)
      → Returns (λ (r : ℕ × Kernel). Born k parent r.0 r.1) (spawn boot now k parent elf_data)
  unfolding spawn Returns is_zombie
  spawn-Born elf_data = bound Bears (unwrap (find_task k.tasks parent)) _ (λ p e1.
      bound Bears (from_elf boot.parse boot.strampoline k.frames elf_data) _ (λ r e2.
        bound Bears (trap_cx_of r.0 r.1) _ (λ trap_cx_ppn e3.
          let k0 = record k { pids = (Id.alloc k.pids).1; frames = r.0 } in
          bound Bears (kstack_alloc k0) _ (λ s e4.
            join-Born k r.0 s.1 _ parent _
              (Returns-elim (λ (r : ℕ × Kernel). Kept k0 r.1) (kstack_alloc-Kept k0) e4) refl refl
              refl refl))))

-- `exec` changes one task, in its space and its trap context.
pub record Changed (k : Kernel) (task : ℕ) (k' : Kernel) : Type 0 where
  pub before : TaskControlBlock
  pub change : TaskControlBlock → TaskControlBlock
  pub found : find_task k.tasks task ≡ some before
  pub same : Same before (change before)
  pub tasks : k'.tasks ≡ modify_task k.tasks task change
  pub pids : k'.pids ≡ k.pids
  pub manager : k'.manager ≡ k.manager
  pub current : k'.current ≡ k.current

pub exec-Changed :
    (boot : Boot) (k : Kernel) (task : ℕ) (elf_data : List ℕ)
    → Returns (Changed k task) (exec boot k task elf_data)
unfolding exec Returns is_zombie
exec-Changed boot k task elf_data =
    let P : Kernel → Type 0 = Changed k task in
    bound P (unwrap (find_task k.tasks task)) _ (λ t e1.
      bound P (from_elf boot.parse boot.strampoline k.frames elf_data) _ (λ r e2.
        bound P (trap_cx_of r.0 r.1) _ (λ trap_cx_ppn e3.
          bound P (drop_memory_set r.0 t.memory_set) _ (λ s e4. record {
            before = t;
            change = λ t. record t { memory_set = r.1; trap_cx_ppn = trap_cx_ppn };
            found = unwrap-eq-returned _ e1;
            same = record { pid = refl; children = refl; exited = refl; priority = omega arith };
            tasks = refl;
            pids = refl;
            manager = refl;
            current = refl;
          }))))

pub drop_kernel_stack-Kept : (k : Kernel) (id : ℕ) → Returns (Kept k) (drop_kernel_stack k id)
unfolding drop_kernel_stack Returns
drop_kernel_stack-Kept k id =
    bound (Kept k) (page_num_of_addr (virt_addr_from (kernel_stack_position id).0)) _ (λ vpn e1.
      bound (Kept k) (remove_area_with_start_vpn k.frames k.kernel_space vpn) _ (λ r e2.
        bound (Kept k) (Id.dealloc k.kstacks id) _
          (λ kstacks e3. record { pids = refl; tasks = refl; manager = refl; current = refl })))

-- What is left once a task control block is dropped.
pub record Dropped (k : Kernel) (t : TaskControlBlock) (k' : Kernel) : Type 0 where
  pub freed : Id.dealloc k.pids t.pid ≡ returned k'.pids
  pub tasks : k'.tasks ≡ delete_task k.tasks t.pid
  pub manager : k'.manager ≡ k.manager
  pub current : k'.current ≡ k.current

pub drop_task-Dropped : (k : Kernel) (t : TaskControlBlock) → Returns (Dropped k t) (drop_task k t)
unfolding drop_task Returns
drop_task-Dropped k t = bound (Dropped k t) (Id.dealloc k.pids t.pid) _ (λ pids e1.
    bound (Dropped k t) (drop_kernel_stack (record k { pids = pids }) t.kernel_stack) _ (λ k1 e2.
      bound (Dropped k t) (drop_memory_set k1.frames t.memory_set) _ (λ s e3.
        let kept =
          Returns-elim (Kept (record k { pids = pids }))
            (drop_kernel_stack-Kept (record k { pids = pids }) t.kernel_stack) e2 in
        record {
          freed = e1 ∙ ap returned (sym kept.pids);
          tasks = ap (λ ts. delete_task ts t.pid) kept.tasks;
          manager = kept.manager;
          current = kept.current;
        })))

-- The first task.
pub record Made (k : Kernel) (t : TaskControlBlock) (k' : Kernel) : Type 0 where
  pub pid : t.pid ≡ (Id.alloc k.pids).0
  pub alive : is_zombie t ≡ false
  pub childless : t.children ≡ []
  pub priority : t.pri ≡ 16
  pub kept : Kept (record k { pids = (Id.alloc k.pids).1 }) k'

pub new_task-Made :
    (boot : Boot) (now : ℕ) (k : Kernel) (elf_data : List ℕ)
    → Returns (λ (r : TaskControlBlock × Kernel). Made k r.0 r.1) (new_task boot now k elf_data)
unfolding new_task Returns is_zombie
new_task-Made boot now k elf_data =
    let P : TaskControlBlock × Kernel → Type 0 = λ r. Made k r.0 r.1 in
    bound P (from_elf boot.parse boot.strampoline k.frames elf_data) _ (λ r e1.
      bound P (trap_cx_of r.0 r.1) _ (λ trap_cx_ppn e2.
        let k0 = record k { pids = (Id.alloc k.pids).1; frames = r.0 } in
        bound P (kstack_alloc k0) _ (λ s e3.
          let kept = Returns-elim (λ (r : ℕ × Kernel). Kept k0 r.1) (kstack_alloc-Kept k0) e3 in
          record {
            pid = refl;
            alive = refl;
            childless = refl;
            priority = refl;
            kept = record {
              pids = kept.pids;
              tasks = kept.tasks;
              manager = kept.manager;
              current = kept.current;
            };
          })))
