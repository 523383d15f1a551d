-- ===== src/Task/Life/Sound.antt =====
-- The shape of the tasks: what holds of the tasks that are alive, the ready queue and the current task, and
-- the changes that keep it.
use bitos.Base.{
  ℕ, ◌+◌, ◌≤◌, ◌≡◌, inl, inr, arith, false, Option, none, some, List, [], ◌∷◌, ◌++◌, ◌==◌,
}
use bitos.Task.Tcb.{TaskControlBlock, is_zombie}
use bitos.Task.Kernel.{find_task, modify_task, initproc}
use bitos.Task.Wait.{count, at_cpu}
use bitos.Task.Life.Counts.{
  one, total, named, live, kids, orphans, stuck, count-last, count-middle, find_task_cases,
  total-modify_task, live_of_found, Same, named_of_Same, live_of_Same, kids_of_Same,
  orphans_of_Same, live_le_named, not_exited,
}

-- Identifiers are distinct; the children lists together name every task once, except `initproc`, and no
-- other; the ready queue and the processor hold every task that has not exited once, and no other;
-- `initproc` has not exited; no priority is 0; and a task that has exited has no children.
pub record Sound (tasks : List TaskControlBlock) (queue : List ℕ) (current : Option ℕ)
    : Type 0 where
  pub distinct : (q : ℕ) → total (named q) tasks ≤ 1
  pub tree : (q : ℕ) → total (kids q) tasks + one (q == initproc) ≡ total (named q) tasks
  pub runs : (q : ℕ) → count q queue + at_cpu current q ≡ total (live q) tasks
  pub init : total (live initproc) tasks ≡ 1
  pub priorities : total stuck tasks ≡ 0
  pub leaves : total orphans tasks ≡ 0

module _ {tasks : List TaskControlBlock} {queue : List ℕ} {current : Option ℕ}
    (v : Sound tasks queue current) where
  -- A task in the queue or on the processor is there, and has not exited.
  pub found_running :
      (q : ℕ)
      → 1 ≤ count q queue + at_cpu current q
      → (t : TaskControlBlock) × (find_task tasks q ≡ some t) × (t.pid ≡ q) × (is_zombie t ≡ false)
  found_running q h = elim (find_task_cases tasks q) [
    | inl (e, z) ↦ absurd (omega (arith, v.runs q, z, live_le_named tasks q))
    | inr (t, e, p) ↦
        (t, e, p, not_exited t (omega (arith, live_of_found tasks q e (v.distinct q), v.runs q)))
  ]

  pub modify_task-Sound :
      (p : ℕ) (f : TaskControlBlock → TaskControlBlock) {t : TaskControlBlock}
      → find_task tasks p ≡ some t
      → Same t (f t)
      → Sound (modify_task tasks p f) queue current
  modify_task-Sound p f {t} e s =
      let same : (w : TaskControlBlock → ℕ)
          → w (f t) ≡ w t
          → total w (modify_task tasks p f) ≡ total w tasks =
        λ w h. omega (arith, total-modify_task w tasks p f e) in
      record {
        distinct = λ q. omega (arith, same (named q) (named_of_Same q s), v.distinct q);
        tree = λ q.
            omega (
              arith,
              same (kids q) (kids_of_Same q s),
              same (named q) (named_of_Same q s),
              v.tree q,
            );
        runs = λ q. omega (arith, same (live q) (live_of_Same q s), v.runs q);
        init = omega (arith, same (live initproc) (live_of_Same initproc s), v.init);
        priorities = omega (arith, total-modify_task stuck tasks p f e, s.priority, v.priorities);
        leaves = omega (arith, same orphans (orphans_of_Same s), v.leaves);
      }

-- The current task goes to the end of the queue, and a task of the queue to the processor.
pub to_queue :
    {tasks : List TaskControlBlock} {queue : List ℕ} {c : ℕ}
    → Sound tasks queue (some c)
    → Sound tasks (queue ++ c ∷ []) none
to_queue {queue = queue} {c} v = record {
  distinct = v.distinct;
  tree = v.tree;
  runs = λ q. omega (arith, v.runs q, count-last q queue c);
  init = v.init;
  priorities = v.priorities;
  leaves = v.leaves;
}

pub to_cpu :
    {tasks : List TaskControlBlock} (before after : List ℕ) {c : ℕ}
    → Sound tasks (before ++ c ∷ after) none
    → Sound tasks (before ++ after) (some c)
to_cpu before after {c} v = record {
  distinct = v.distinct;
  tree = v.tree;
  runs = λ q. omega (arith, v.runs q, count-middle q before after c);
  init = v.init;
  priorities = v.priorities;
  leaves = v.leaves;
}
