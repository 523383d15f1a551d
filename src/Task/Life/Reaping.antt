-- ===== src/Task/Life/Reaping.antt =====
-- A child that its parent takes.
use bitos.Base.{
  ℕ, ◌+◌, ◌≤◌, ◌≡◌, ◌≢◌, refl, ap, ◌∙◌, arith, true, false, not, some, List, [], ◌∷◌, ◌==◌,
  if◌then◌else◌, length, remove, get_elem?,
}
use bitos.Task.Tcb.{TaskControlBlock, is_zombie}
use bitos.Task.Kernel.{Kernel, find_task, modify_task, initproc}
use bitos.Task.Wait.{count, at_cpu, strong_count, delete_task}
use bitos.Task.Life.Counts.{
  one, total, named, live, kids, orphans, stuck, held-total, count-remove, total-modify_task,
  total-modify_task_same, total-delete_task, total_at_least, live_of_found, live_of_exited,
  one_self, not_exited, orphans-zero, named_of_found, find_task-modify_task_ne,
}
use bitos.Task.Life.Sound.{Sound}

abbrev pub without_child : ℕ → TaskControlBlock → TaskControlBlock
without_child idx p = record p { children = remove p.children idx }

module _ {ts : List TaskControlBlock} {queue : List ℕ} (task child idx : ℕ) {p c : TaskControlBlock}
    (v : Sound ts queue (some task)) (parent : find_task ts task ≡ some p)
    (at_idx : get_elem? p.children idx ≡ some child) (found : find_task ts child ≡ some c)
    (exited : is_zombie c ≡ true) where
  one_fewer :
      (q : ℕ)
      → total (kids q) (modify_task ts task (without_child idx)) + one (child == q)
        ≡ total (kids q) ts
  one_fewer q = omega (
    arith,
    total-modify_task (kids q) ts task (without_child idx) parent,
    count-remove q child p.children idx at_idx,
  )

  childless : (q : ℕ) → kids q c ≡ 0
  unfolding count
  childless q = ap (count q) (
      no_children c.children (
        omega (
          arith,
          total_at_least orphans ts child found,
          v.leaves,
          ap (λ z. if z then length c.children else 0) exited,
        )))
    where
      no_children : (xs : List ℕ) → length xs ≤ 0 → xs ≡ []
      no_children [] h = refl
      no_children (x ∷ xs) h = absurd (omega arith)

  not_live : total (live child) ts ≡ 0
  not_live =
      omega (arith, live_of_found ts child found (v.distinct child), ap (λ z. one (not z)) exited)

  -- No reference to the child is left but the local one.
  pub none_left :
      (k : Kernel)
      → k.tasks ≡ ts
      → k.manager.ready_queue ≡ queue
      → k.current ≡ some task
      → strong_count (record k { tasks = modify_task ts task (without_child idx) }) child ≡ 0
  unfolding strong_count
  none_left k refl_ts refl_queue e3 = omega (
    arith,
    held-total child (modify_task ts task (without_child idx)),
    one_fewer child,
    one_self child,
    v.tree child,
    v.distinct child,
    v.runs child,
    not_live,
    ap (count child) refl_queue,
    ap (λ o. at_cpu o child) e3,
  )

  same :
      (w : TaskControlBlock → ℕ)
      → ((u : TaskControlBlock) → w (without_child idx u) ≡ w u)
      → total w (modify_task ts task (without_child idx)) ≡ total w ts
  same w h = total-modify_task_same w ts task (without_child idx) h

  ne : task ≢ child
  ne e =
      absurd (omega (arith, v.runs child, not_live, ap (λ z. one (z == child)) e, one_self child))

  pub found_after : find_task (modify_task ts task (without_child idx)) child ≡ some c
  found_after = find_task-modify_task_ne ts task child (without_child idx) (λ u. refl) ne ∙ found

  pub reaped-Sound :
      Sound (delete_task (modify_task ts task (without_child idx)) child) queue (some task)
  unfolding is_zombie
  reaped-Sound =
      let running : is_zombie p ≡ false = not_exited p (
        omega
          (arith, live_of_found ts task parent (v.distinct task), v.runs task, one_self task)) in
      let ts1 = modify_task ts task (without_child idx) in
      let gone : (w : TaskControlBlock → ℕ) → total w (delete_task ts1 child) + w c ≡ total w ts1 =
        λ w. total-delete_task w ts1 child found_after in
      record {
        distinct = λ q. omega (arith, gone (named q), same (named q) (λ u. refl), v.distinct q);
        tree = λ q. omega (
          arith,
          gone (named q),
          same (named q) (λ u. refl),
          v.tree q,
          gone (kids q),
          one_fewer q,
          named_of_found ts child q found,
          childless q,
        );
        runs = λ q.
            omega (
              arith,
              v.runs q,
              gone (live q),
              same (live q) (λ u. refl),
              live_of_exited q c exited,
            );
        init = omega (
          arith,
          v.init,
          gone (live initproc),
          same (live initproc) (λ u. refl),
          live_of_exited initproc c exited,
        );
        priorities = omega (arith, gone stuck, same stuck (λ u. refl), v.priorities);
        leaves = omega (
          arith,
          v.leaves,
          gone orphans,
          total-modify_task orphans ts task (without_child idx) parent,
          orphans-zero p running,
          orphans-zero (without_child idx p) running,
        );
      }
