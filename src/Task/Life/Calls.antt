-- ===== src/Task/Life/Calls.antt =====
-- The calls that keep the tasks sound: waiting, the priority and the break.
use bitos.Base.{
  ℕ, suc, ◌+◌, ◌-◌, ◌*◌, ◌%◌, ◌^◌, ◌≤◌, ◌<◌, ◌≡◌, refl, sym, ap, ◌∙◌, subst, ◌⊎◌, inl, inr, arith,
  Bool, true, false, Option, none, some, ◌==◌, if◌then◌else◌, Outcome, returned, unwrap, Bool-cases,
  get_elem?, unwrap-eq-returned, >>=-eq-returned,
}
use bitos.Config.{page_size}
use bitos.Base.Isize.{le_signed, lt_signed, add_signed, sub_signed}
use bitos.Mm.MemorySet
use bitos.Mm.MemorySet.{MemorySet}
use bitos.Mm.FrameAllocator.{Frames}
use bitos.Task.Tcb.{TaskControlBlock, is_zombie, set_priority, change_program_brk}
use bitos.Task.Kernel.{Kernel, find_task, modify_task}
use bitos.Task.Wait.{delete_task, write_user, drop_task, waitpid}
use bitos.Task.Calls.{current_task, sys_set_priority, sys_brk}
use bitos.Task.Life.Returns.{Returns, bound, Returns-elim}
use bitos.Task.Life.Counts.{
  one, total, named, stuck, Same, total-delete_task, find_task-pid, total-modify_task_same,
}
use bitos.Task.Life.Identifiers.{Tracks-dealloc}
use bitos.Task.Life.Creation.{Dropped, Changed, drop_task-Dropped}
use bitos.Task.Life.Reaping.{without_child, found_after, reaped-Sound}
use bitos.Task.Life.Steps.{Inv, Inv-of, Sound-at, same_Inv, Changed-Inv, current_found}
use bitos.Task.Life.Waiting.{Found, Found-here, Waited, released, waitpid-Waited}

module _ {n : ℕ} {k : Kernel} (v : Inv n k) (fits : n < 2 ^ 64 - 4) where
  module _ {task : ℕ} {p : TaskControlBlock} (at : k.current ≡ some task)
      (parent : find_task k.tasks task ≡ some p) where
    Dropped-Inv :
        (idx : ℕ) (child : ℕ) (c : TaskControlBlock) (frames : Frames) (k' : Kernel)
        → get_elem? p.children idx ≡ some child
        → find_task k.tasks child ≡ some c
        → is_zombie c ≡ true
        → Dropped
            (record k { tasks = modify_task k.tasks task (without_child idx); frames = frames })
            c
            k'
        → Inv (suc n) k'
    Dropped-Inv idx child c frames k' here found gone d =
        let ts1 = modify_task k.tasks task (without_child idx) in
        let is_child : c.pid ≡ child = find_task-pid k.tasks child found in
        let found1 = found_after task child idx (Sound-at v at) parent here found gone in
        let names : (q : ℕ)
            → total (named q) (delete_task ts1 child) + one (c.pid == q) ≡ total (named q) k.tasks =
          λ q. omega (
            arith,
            total-delete_task (named q) ts1 child found1,
            total-modify_task_same (named q) k.tasks task (without_child idx) (λ u. refl),
          ) in
        Inv-of (Tracks-dealloc v.tracks fits _ c.pid k'.pids d.freed names)
          (reaped-Sound task child idx (Sound-at v at) parent here found gone) refl
          (d.tasks ∙ ap (delete_task ts1) is_child) (ap (λ m. m.ready_queue) d.manager)
          (d.current ∙ at)

    released-Inv :
        (pid idx exit_code_ptr : ℕ) (f : Found k pid p idx)
        → Returns
            (λ (r : ℕ × Kernel). Inv (suc n) r.1)
            (released k task f.child idx exit_code_ptr f.c p)
    unfolding Returns
    released-Inv pid idx exit_code_ptr f =
        let P : ℕ × Kernel → Type 0 = λ r. Inv (suc n) r.1 in
        let here = Found-here k pid p idx f in
        bound P
          (if exit_code_ptr == 0
            then returned k.frames
            else write_user 4 k.frames p.memory_set exit_code_ptr (f.c.exit_code * 2 ^ 8 % 2 ^ 32))
          _
          (λ frames e1.
            let k1 = record k {
              tasks = modify_task k.tasks task (without_child idx);
              frames = frames;
            } in
            bound P (drop_task k1 f.c) _ (λ k2 e2.
              Dropped-Inv idx f.child f.c frames k2 here f.found f.gone
                (Returns-elim (Dropped k1 f.c) (drop_task-Dropped k1 f.c) e2)))

    Waited-Inv :
        (pid exit_code_ptr : ℕ) (o : Outcome (ℕ × Kernel))
        → Waited k pid exit_code_ptr task p o
        → Returns (λ (r : ℕ × Kernel). Inv (suc n) r.1) o
    unfolding Returns
    Waited-Inv pid exit_code_ptr o (inl (any, e)) = rw e (same_Inv v)
    Waited-Inv pid exit_code_ptr o (inr (inl (any, alive, e))) = rw e (same_Inv v)
    Waited-Inv pid exit_code_ptr o (inr (inr (any, idx, f, bounded, e))) =
        subst (Returns (λ (r : ℕ × Kernel). Inv (suc n) r.1)) (sym e)
          (released-Inv pid idx exit_code_ptr f)

  current_task_found :
      (t : TaskControlBlock) → current_task k ≡ returned t → find_task k.tasks t.pid ≡ some t
  unfolding current_task
  current_task_found t e =
      let (task, at, e1) =
        >>=-eq-returned (unwrap k.current) (λ task. unwrap (find_task k.tasks task)) e in
      let found = unwrap-eq-returned (find_task k.tasks task) e1 in
      ap (find_task k.tasks) (find_task-pid k.tasks task found) ∙ found

  -- The current task is found.
  current_cases :
      (o : Option ℕ)
      → k.current ≡ o
      → (o ≡ none)
        ⊎ ((task : ℕ) × (t : TaskControlBlock) × (k.current ≡ some task)
            × (find_task k.tasks task ≡ some t))
  current_cases none e = inl refl
  current_cases (some task) e =
      let (t, found, _, _) = current_found v task e in inr (task, t, e, found)

  pub waitpid-Inv :
      (pid exit_code_ptr : ℕ)
      → Returns (λ (r : ℕ × Kernel). Inv (suc n) r.1) (waitpid pid exit_code_ptr k)
  unfolding waitpid Returns
  waitpid-Inv pid exit_code_ptr = elim (current_cases k.current refl) [
    | inl idle ↦ rw idle tt
    | inr (task, t, at, found) ↦
        Waited-Inv at found pid exit_code_ptr (waitpid pid exit_code_ptr k)
          (waitpid-Waited v fits at found pid exit_code_ptr)
  ]

  priority_Changed :
      (prio : ℕ)
      → le_signed prio 1 ≡ false
      → (t : TaskControlBlock) → current_task k ≡ returned t
      → Changed k t.pid (record k { tasks = modify_task k.tasks t.pid (λ t. set_priority t prio) })
  unfolding set_priority is_zombie
  priority_Changed prio high t e = record {
    before = t;
    change = λ t. set_priority t prio;
    found = current_task_found t e;
    same = record { pid = refl; children = refl; exited = refl; priority = nonzero prio high t };
    tasks = refl;
    pids = refl;
    manager = refl;
    current = refl;
  }
    where
      nonzero :
          (prio : ℕ)
          → le_signed prio 1 ≡ false
          → (t : TaskControlBlock) → stuck (set_priority t prio) ≤ stuck t
      nonzero prio high t = ground arith

  pub sys_set_priority-Inv :
      (prio : ℕ) → Returns (λ (r : ℕ × Kernel). Inv (suc n) r.1) (sys_set_priority prio k)
  unfolding sys_set_priority Returns
  sys_set_priority-Inv prio = elim (Bool-cases (le_signed prio 1)) [
    | inl low ↦ rw low (same_Inv v)
    | inr high ↦ rw high (
        bound (λ (r : ℕ × Kernel). Inv (suc n) r.1) (current_task k) _
          (λ t e. Changed-Inv v (priority_Changed prio high t e)))
  ]

  moved_Same :
      (s : Frames) (t : TaskControlBlock) (size : ℕ)
      → Returns
          (λ (r : Option ℕ × Frames × TaskControlBlock). Same t r.2)
          (change_program_brk s t size)
  unfolding change_program_brk Returns is_zombie
  moved_Same s t size =
      let P : Option ℕ × Frames × TaskControlBlock → Type 0 = λ r. Same t r.2 in
      let same : Same t t = record {
        pid = refl;
        children = refl;
        exited = refl;
        priority = omega arith;
      } in
      let kept : (m : MemorySet) (brk : ℕ)
          → Same t (record t { memory_set = m; program_brk = brk }) =
        λ m brk. record { pid = refl; children = refl; exited = refl; priority = omega arith } in
      let new_brk = add_signed t.program_brk (sub_signed size t.program_brk) in
      let settled : (r : Bool × Frames × MemorySet)
          → Returns P (
              if r.0
              then returned
                  (some t.program_brk, r.1, record t { memory_set = r.2; program_brk = new_brk })
              else returned (none, r.1, record t { memory_set = r.2 })) =
        λ (found, s', m). elim (Bool-cases found) [
          | inl e ↦ rw e (kept m new_brk)
          | inr e ↦ rw e (kept m t.program_brk)
        ] in
      elim (Bool-cases (size == 0)) [
        | inl e ↦ rw e same
        | inr e ↦ rw e (elim (Bool-cases (lt_signed new_brk t.heap_bottom)) [
          | inl e ↦ rw e same
          | inr e ↦ rw e (elim (Bool-cases (lt_signed page_size (sub_signed size t.program_brk))) [
            | inl e ↦ rw e (elim (Bool-cases (lt_signed (sub_signed size t.program_brk) 0)) [
              | inl e ↦ rw e (
                  bound P (MemorySet.shrink_to s t.memory_set t.heap_bottom new_brk) _
                    (λ r _. settled r))
              | inr e ↦ rw e (
                  bound P (MemorySet.append_to s t.memory_set t.heap_bottom new_brk) _
                    (λ r _. settled r))
            ])
            | inr e ↦ rw e (kept t.memory_set new_brk)
          ])
        ])
      ]

  pub sys_brk-Inv : (size : ℕ) → Returns (λ (r : ℕ × Kernel). Inv (suc n) r.1) (sys_brk size k)
  unfolding sys_brk Returns
  sys_brk-Inv size =
      let P : ℕ × Kernel → Type 0 = λ r. Inv (suc n) r.1 in
      bound P (current_task k) _ (λ t e. bound P (change_program_brk k.frames t size) _ (λ r e2.
        Changed-Inv v (record {
          before = t;
          change = λ _. r.2;
          found = current_task_found t e;
          same =
              Returns-elim (λ (r : Option ℕ × Frames × TaskControlBlock). Same t r.2)
                (moved_Same k.frames t size) e2;
          tasks = refl;
          pids = refl;
          manager = refl;
          current = refl;
        })))
