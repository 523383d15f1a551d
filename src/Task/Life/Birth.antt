-- ===== src/Task/Life/Birth.antt =====
-- A new child of the current task.
use bitos.Base.{ℕ, ◌+◌, ◌≤◌, ◌≡◌, refl, ap, ◌∙◌, arith, false, some, List, [], ◌∷◌, ◌++◌}
use bitos.Task.Tcb.{TaskControlBlock, is_zombie}
use bitos.Task.Kernel.{modify_task, initproc}
use bitos.Task.Wait.{count, at_cpu}
use bitos.Task.Life.Counts.{
  total, named, live, kids, orphans, stuck, count-last, total-modify_task, total-modify_task_same,
  live_le_named, orphans-zero,
}
use bitos.Task.Life.Sound.{Sound, found_running}

-- A task that is new, can run and has no children.
pub record Newborn (tasks : List TaskControlBlock) (t : TaskControlBlock) : Type 0 where
  pub fresh : total (named t.pid) tasks ≡ 0
  pub alive : is_zombie t ≡ false
  pub childless : t.children ≡ []
  pub priority : stuck t ≡ 0

abbrev pub with_child : ℕ → TaskControlBlock → TaskControlBlock
with_child pid p = record p { children = p.children ++ pid ∷ [] }

module _ {tasks : List TaskControlBlock} {t : TaskControlBlock} (b : Newborn tasks t) where
  live_newborn : (q : ℕ) → live q t ≡ named q t
  live_newborn q = ground (arith, b.alive)

  kids_newborn : (q : ℕ) → kids q t ≡ 0
  unfolding count
  kids_newborn q = ap (count q) b.childless

  orphans_newborn : orphans t ≡ 0
  orphans_newborn = orphans-zero t b.alive

  distinct_newborn : (q n : ℕ) → n ≤ 1 → (q ≡ t.pid → n ≡ 0) → named q t + n ≤ 1
  distinct_newborn q n h e = ground arith

  module _ {queue : List ℕ} {parent : ℕ} (v : Sound tasks queue (some parent)) where
    at_least : 1 ≤ count parent queue + at_cpu (some parent) parent
    at_least = ground arith

    same :
        (w : TaskControlBlock → ℕ)
        → ((u : TaskControlBlock) → w (with_child t.pid u) ≡ w u)
        → total w (modify_task tasks parent (with_child t.pid)) ≡ total w tasks
    same w h = total-modify_task_same w tasks parent (with_child t.pid) h

    distinct_born : (q : ℕ) → named q t + total (named q) tasks ≤ 1
    distinct_born q =
        distinct_newborn q (total (named q) tasks) (v.distinct q)
          (λ e. ap (λ z. total (named z) tasks) e ∙ b.fresh)

    pub born-Sound :
        Sound (t ∷ modify_task tasks parent (with_child t.pid)) (queue ++ t.pid ∷ []) (some parent)
    unfolding is_zombie
    born-Sound =
        let (p, found, is_parent, running) = found_running v parent at_least in
        let no_orphan : orphans (with_child t.pid p) ≡ 0 =
          orphans-zero (with_child t.pid p) running in
        let one_more : (q : ℕ)
            → total (kids q) (modify_task tasks parent (with_child t.pid))
              ≡ total (kids q) tasks + named q t =
          λ q. omega (
            arith,
            total-modify_task (kids q) tasks parent (with_child t.pid) found,
            count-last q p.children t.pid,
          ) in
        record {
          distinct = λ q. omega (arith, distinct_born q, same (named q) (λ u. refl));
          tree =
              λ q. omega (arith, one_more q, kids_newborn q, same (named q) (λ u. refl), v.tree q);
          runs = λ q. omega (
            arith,
            v.runs q,
            count-last q queue t.pid,
            live_newborn q,
            same (live q) (λ u. refl),
          );
          init = omega (
            arith,
            distinct_born initproc,
            live_le_named tasks initproc,
            live_newborn initproc,
            same (live initproc) (λ u. refl),
            v.init,
          );
          priorities = omega (arith, b.priority, v.priorities, same stuck (λ u. refl));
          leaves = omega (
            arith,
            orphans_newborn,
            total-modify_task orphans tasks parent (with_child t.pid) found,
            no_orphan,
            orphans-zero p running,
            v.leaves,
          );
        }
