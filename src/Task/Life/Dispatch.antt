-- ===== src/Task/Life/Dispatch.antt =====
-- The next task that runs.
use bitos.Base.{
  ℕ, suc, ◌≤◌, ◌≡◌, refl, sym, ap, subst, inl, inr, arith, false, none, some, List, [], ◌++◌, ◌==◌,
  returned,
}
use bitos.Base.Isize.{add_signed, div_signed}
use bitos.Config.{big_stride}
use bitos.Task.Tcb.{TaskControlBlock, running, is_zombie, update_stri}
use bitos.Task.Manager.Stride.{Least, fetch_refines}
use bitos.Task.Kernel.{Kernel, find_task, modify_task, initproc, stride_of, run_tasks}
use bitos.Task.Wait.{count}
use bitos.Task.Life.Returns.{Returns}
use bitos.Task.Life.Counts.{stuck, Same, total_at_least, count-middle, one_self}
use bitos.Task.Life.Sound.{Sound, found_running, modify_task-Sound, to_cpu}
use bitos.Task.Life.Steps.{Inv, Tracks-change, Inv-of}

-- A task of least stride is taken from the ready queue, marked as running, and moved on by its stride.
pub record Dispatched (now : ℕ) (k : Kernel) : Type 0 where
  pub before : List ℕ
  pub task : ℕ
  pub after : List ℕ
  pub least : Least (stride_of k.tasks) k.manager.ready_queue before task after
  pub chosen : TaskControlBlock
  pub started : TaskControlBlock
  pub found : find_task k.tasks task ≡ some chosen
  pub same : Same chosen started
  pub runs : started.task_status ≡ running
  pub moved : started.stride ≡ add_signed chosen.stride (div_signed big_stride chosen.pri)
  pub result :
      run_tasks now k
      ≡ returned (record k {
        manager = record { ready_queue = before ++ after };
        tasks = modify_task k.tasks task (λ _. started);
        current = some task;
      })

module _ {n : ℕ} {k : Kernel} (v : Inv n k) (idle : k.current ≡ none) where
  Sound-idle : Sound k.tasks k.manager.ready_queue none
  Sound-idle = subst (λ c. Sound k.tasks k.manager.ready_queue c) idle v.sound

  not_empty : count initproc [] ≡ 0
  unfolding count
  not_empty = refl

  nonzero : (t : TaskControlBlock) → stuck t ≤ 0 → (t.pri == 0) ≡ false
  nonzero t h = ground arith

  dispatched_Same :
      (t : TaskControlBlock) (now stride : ℕ)
      → is_zombie t ≡ false
      → Same t (record t {
        task_status = running;
        task_info = record t.task_info { start = now };
        stride = stride;
      })
  unfolding is_zombie
  dispatched_Same t now stride live = record {
    pid = refl;
    children = refl;
    exited = sym live;
    priority = omega arith;
  }

  pub run_tasks-Dispatched : (now : ℕ) → Dispatched now k
  unfolding run_tasks update_stri
  run_tasks-Dispatched now = elim (fetch_refines (stride_of k.tasks) k.manager) [
    | inl (e, p) ↦
        absurd (
          omega
            (arith, Sound-idle.runs initproc, Sound-idle.init, ap (count initproc) e, not_empty))
    | inr (before, task, after, l, e) ↦
        let (t, found, is_task, live) = found_running Sound-idle task (
          omega
            (arith, ap (count task) l.split, count-middle task before after task, one_self task)) in
        let priority : (t.pri == 0) ≡ false =
          nonzero t (omega (arith, total_at_least stuck k.tasks task found, v.sound.priorities)) in
        record {
          before = before;
          task = task;
          after = after;
          least = l;
          chosen = t;
          started = record t {
            task_status = running;
            task_info = record t.task_info { start = now };
            stride = add_signed t.stride (div_signed big_stride t.pri);
          };
          found = found;
          same = dispatched_Same t now _ live;
          runs = refl;
          moved = refl;
          result = rw (e, found, priority) refl;
        }
  ]

  pub run_tasks-Inv : (now : ℕ) → Returns (Inv (suc n)) (run_tasks now k)
  unfolding Returns
  run_tasks-Inv now =
      let d = run_tasks-Dispatched now in
      rw d.result (
        Inv-of (Tracks-change v d.task (λ _. d.started) d.found d.same)
          (to_cpu d.before d.after (
            subst (λ q. Sound (modify_task k.tasks d.task (λ _. d.started)) q none) d.least.split
              (modify_task-Sound Sound-idle d.task (λ _. d.started) d.found d.same)))
          refl refl refl refl)
