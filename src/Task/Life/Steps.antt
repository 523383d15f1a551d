-- ===== src/Task/Life/Steps.antt =====
-- Each call keeps the identifiers and the shape of the tasks.
use bitos.Base.{
  ℕ, suc, ◌+◌, ◌-◌, ◌^◌, ◌≤◌, ◌<◌, ◌≡◌, ◌≢◌, refl, sym, ap, ◌∙◌, subst, arith, Bool, true, false,
  not, ◌||◌, Option, none, some, List, [], ◌∷◌, ◌++◌, ◌==◌, returned, assert, unwrap,
  unwrap-eq-returned, contains, ne_of_==, assert-eq-returned,
}
use bitos.Mm.MemorySet.{recycle_data_pages}
use bitos.Task.Id
use bitos.Task.Id.{RecycleAllocator}
use bitos.Task.Tcb.{TaskControlBlock, ready, is_zombie}
use bitos.Task.Manager.{TaskManager, add}
use bitos.Task.Kernel.{
  Kernel, find_task, modify_task, initproc, account, suspend_current_and_run_next,
  exit_current_and_run_next,
}
use bitos.Task.Process.{Boot, fork, spawn, exec, sys_fork, sys_spawn, sys_exec}
use bitos.Task.Wait.{count, at_cpu}
use bitos.Task.Life.Returns.{Returns, bound, Returns-elim}
use bitos.Task.Life.Counts.{
  one, total, named, total-modify_task_same, Same, named_of_Same, total-modify_task,
}
use bitos.Task.Life.Sound.{Sound, found_running, modify_task-Sound, to_queue}
use bitos.Task.Life.Birth.{Newborn, with_child, born-Sound}
use bitos.Task.Life.Death.{buried-Sound, named_after}
use bitos.Task.Life.Identifiers.{Tracks, Tracks-suc, fresh_pid, Tracks-alloc}
use bitos.Task.Life.Creation.{Born, Changed, fork-Born, spawn-Born, exec-Changed}

pub record Inv (n : ℕ) (k : Kernel) : Type 0 where
  pub tracks : Tracks n k.pids k.tasks
  pub sound : Sound k.tasks k.manager.ready_queue k.current

pub Inv-of :
    {n : ℕ} {a : RecycleAllocator} {ts : List TaskControlBlock} {queue : List ℕ}
    {current : Option ℕ} {k : Kernel}
    → Tracks n a ts
    → Sound ts queue current
    → k.pids ≡ a
    → k.tasks ≡ ts
    → k.manager.ready_queue ≡ queue
    → k.current ≡ current
    → Inv n k
Inv-of t s ep et eq ec = record { tracks = rw (ep, et) t; sound = rw (et, eq, ec) s }

module _ {n : ℕ} {k : Kernel} (v : Inv n k) where
  pub same_Inv : Inv (suc n) k
  same_Inv = record { tracks = Tracks-suc v.tracks k.tasks (λ q. refl); sound = v.sound }

  pub Sound-at :
      {task : ℕ} → k.current ≡ some task → Sound k.tasks k.manager.ready_queue (some task)
  Sound-at e = subst (λ c. Sound k.tasks k.manager.ready_queue c) e v.sound

  pub Tracks-change :
      (task : ℕ) (f : TaskControlBlock → TaskControlBlock) {t : TaskControlBlock}
      → find_task k.tasks task ≡ some t
      → Same t (f t)
      → Tracks (suc n) k.pids (modify_task k.tasks task f)
  Tracks-change task f found same =
      Tracks-suc v.tracks _
        (λ q. omega (arith, total-modify_task (named q) k.tasks task f found, named_of_Same q same))

  pub Changed-Inv : {task : ℕ} {k' : Kernel} → Changed k task k' → Inv (suc n) k'
  Changed-Inv {task} c =
      Inv-of (Tracks-change task c.change c.found c.same)
        (modify_task-Sound v.sound task c.change c.found c.same) c.pids c.tasks
        (ap (λ m. m.ready_queue) c.manager) c.current

  -- The new child of the current task goes to the ready queue.
  Born-Inv :
      n < 2 ^ 64 - 4
      → {parent pid : ℕ} {k1 k' : Kernel} → k.current ≡ some parent
      → Born k parent pid k1
      → k'.pids ≡ k1.pids
      → k'.tasks ≡ k1.tasks
      → k'.manager ≡ add k1.manager pid
      → k'.current ≡ k1.current
      → Inv (suc n) k'
  unfolding add
  Born-Inv fits {parent} {pid} {k1} at b ep et em ec =
      let new : Newborn k.tasks b.child = record {
        fresh = ap (λ p. total (named p) k.tasks) b.pid ∙ fresh_pid v.tracks fits;
        alive = b.alive;
        childless = b.childless;
        priority = ap (λ z. one (z == 0)) b.priority;
      } in
      let names : (q : ℕ)
          → total (named q) (b.child ∷ modify_task k.tasks parent (with_child b.child.pid))
            ≡ one ((Id.alloc k.pids).0 == q) + total (named q) k.tasks =
        λ q. omega (
          arith,
          ap (λ p. one (p == q)) b.pid,
          total-modify_task_same (named q) k.tasks parent (with_child b.child.pid) (λ u. refl),
        ) in
      Inv-of (Tracks-alloc v.tracks fits _ names) (born-Sound new (Sound-at at)) (ep ∙ b.pids)
        (et ∙ b.tasks)
        (ap (λ m. m.ready_queue) em
          ∙ ap (λ m. TaskManager.ready_queue m ++ pid ∷ []) b.manager
          ∙ ap (λ p. k.manager.ready_queue ++ p ∷ []) (b.result ∙ sym b.pid))
        (ec ∙ b.current ∙ at)

  pub sys_fork-Inv :
      (boot : Boot) (now stack : ℕ)
      → n < 2 ^ 64 - 4
      → Returns (λ (r : ℕ × Kernel). Inv (suc n) r.1) (sys_fork boot now stack k)
  unfolding sys_fork Returns
  sys_fork-Inv boot now stack fits =
      let P : ℕ × Kernel → Type 0 = λ r. Inv (suc n) r.1 in
      bound P (unwrap k.current) _ (λ parent e1. bound P (fork boot now k parent) _ (λ r e2.
        bound P (unwrap (find_task r.1.tasks r.0)) _ (λ child e3.
          Born-Inv fits (unwrap-eq-returned k.current e1)
            (Returns-elim (λ (r : ℕ × Kernel). Born k parent r.0 r.1) (fork-Born boot now k parent)
              e2)
            refl refl refl refl)))

  pub sys_spawn-Inv :
      (boot : Boot) (now : ℕ) (all_data : Option (List ℕ))
      → n < 2 ^ 64 - 4
      → Returns (λ (r : ℕ × Kernel). Inv (suc n) r.1) (sys_spawn boot now all_data k)
  unfolding sys_spawn Returns
  sys_spawn-Inv boot now none fits = same_Inv
  sys_spawn-Inv boot now (some all_data) fits =
      let P : ℕ × Kernel → Type 0 = λ r. Inv (suc n) r.1 in
      bound P (unwrap k.current) _ (λ parent e1.
        bound P (spawn boot now k parent all_data) _ (λ r e2.
          Born-Inv fits (unwrap-eq-returned k.current e1)
            (Returns-elim (λ (r : ℕ × Kernel). Born k parent r.0 r.1)
              (spawn-Born boot now k parent all_data) e2)
            refl refl refl refl))

  pub sys_exec-Inv :
      (boot : Boot) (all_data : Option (List ℕ))
      → Returns (λ (r : ℕ × Kernel). Inv (suc n) r.1) (sys_exec boot all_data k)
  unfolding sys_exec Returns
  sys_exec-Inv boot none = same_Inv
  sys_exec-Inv boot (some all_data) =
      let P : ℕ × Kernel → Type 0 = λ r. Inv (suc n) r.1 in
      bound P (unwrap k.current) _ (λ task e1. bound P (exec boot k task all_data) _ (λ k' e2.
        Changed-Inv (Returns-elim (Changed k task) (exec-Changed boot k task all_data) e2)))

  -- The current task, which is alive and ready to change.
  pub current_found :
      (task : ℕ)
      → k.current ≡ some task
      → (t : TaskControlBlock) × (find_task k.tasks task ≡ some t)
        × (t.pid ≡ task)
        × (is_zombie t ≡ false)
  current_found task e = found_running (Sound-at e) task (at_least k.manager.ready_queue)
    where
      at_least : (queue : List ℕ) → 1 ≤ count task queue + at_cpu (some task) task
      at_least queue = ground arith

  suspended_Same :
      (now : ℕ) (t : TaskControlBlock)
      → is_zombie t ≡ false
      → Same t (account (record t { task_status = ready }) now)
  unfolding account is_zombie
  suspended_Same now t running = record {
    pid = refl;
    children = refl;
    exited = sym running;
    priority = omega arith;
  }

  pub suspend_current_and_run_next-Inv :
      (now : ℕ) → Returns (Inv (suc n)) (suspend_current_and_run_next now k)
  unfolding suspend_current_and_run_next Returns add
  suspend_current_and_run_next-Inv now = bound (Inv (suc n)) (unwrap k.current) _ (λ task e.
      let at = unwrap-eq-returned k.current e in
      let (t, found, is_task, running) = current_found task at in
      let f : TaskControlBlock → TaskControlBlock =
        λ t. account (record t { task_status = ready }) now in
      let same : Same t (f t) = suspended_Same now t running in
      record {
        tracks = Tracks-change task f found same;
        sound = to_queue (modify_task-Sound (Sound-at at) task f found same);
      })

  pub exit_current_and_run_next-Inv :
      (now exit_code : ℕ) → Returns (Inv (suc n)) (exit_current_and_run_next now exit_code k)
  unfolding exit_current_and_run_next Returns
  exit_current_and_run_next-Inv now exit_code =
      let P : Kernel → Type 0 = Inv (suc n) in
      bound P (unwrap k.current) _ (λ task e1. bound P (assert (not (task == 0))) _ (λ _ e2.
        bound P (assert (not (task == initproc))) _ (λ _ e3.
          bound P (unwrap (find_task k.tasks task)) _ (λ t e4.
            bound P (assert (not (contains task t.children || contains initproc t.children))) _
              (λ _ e5. bound P (recycle_data_pages k.frames t.memory_set) _ (λ r e6. record {
                tracks = Tracks-suc v.tracks _ (
                    named_after task (ne e3) r.1 now exit_code
                      (Sound-at (unwrap-eq-returned k.current e1)) (unwrap-eq-returned _ e4));
                sound =
                    buried-Sound task (ne e3) r.1 now exit_code
                      (Sound-at (unwrap-eq-returned k.current e1)) (unwrap-eq-returned _ e4);
              }))))))
    where
      ne :
          {task : ℕ} {u : Unit {0}} → assert (not (task == initproc)) ≡ returned u → task ≢ initproc
      ne {task} e = ne_of_== task initproc (not_true _ (assert-eq-returned _ e))
        where
          not_true : (b : Bool) → not b ≡ true → b ≡ false
          not_true b h = ground arith
