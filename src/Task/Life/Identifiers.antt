-- ===== src/Task/Life/Identifiers.antt =====
-- The identifiers of the tasks and the allocator that hands them out.
use bitos.Base.{
  ℕ, suc, ◌+◌, ◌-◌, ◌^◌, ◌≤◌, ◌<◌, ◌≡◌, ◌∙◌, subst, arith, ◌&&◌, some, List, ◌==◌, leb, returned,
}
use bitos.Base.Between.{Between}
use bitos.Task.Id.{RecycleAllocator, alloc, dealloc}
use bitos.Task.Id.Views.{IsValid, in_use, Fresh, Retired, alloc-in_use, dealloc-in_use}
use bitos.Task.Tcb.{TaskControlBlock}
use bitos.Task.Kernel.{find_task}
use bitos.Task.Life.Counts.{one, total, named, one_self, named_of_found, total_at_least}

-- After `n` steps: the identifiers in use are those of the tasks, each of one task.
pub record Tracks (n : ℕ) (a : RecycleAllocator) (ts : List TaskControlBlock) : Type 0 where
  pub counted : a.current ≤ n + 2
  pub started : 1 ≤ a.current
  pub known : Between 1 a.current a.recycled
  pub exact : (q : ℕ) → total (named q) ts ≡ one (leb 1 q && in_use a q)

module _ {n : ℕ} {a : RecycleAllocator} {ts : List TaskControlBlock} (v : Tracks n a ts) where
  pub Tracks-suc :
      (ts' : List TaskControlBlock)
      → ((q : ℕ) → total (named q) ts' ≡ total (named q) ts)
      → Tracks (suc n) a ts'
  Tracks-suc ts' same = record {
    counted = omega (arith, v.counted);
    started = v.started;
    known = v.known;
    exact = λ q. same q ∙ v.exact q;
  }

  -- The identifier of a task is below the count.
  pub pid_bound : (q : ℕ) {t : TaskControlBlock} → find_task ts q ≡ some t → q < n + 2
  pid_bound q found = ground (
    arith,
    total_at_least (named q) ts q found,
    named_of_found ts q q found,
    one_self q,
    v.exact q,
    v.counted,
  )

  module _ (fits : n < 2 ^ 64 - 4) where
    valid : IsValid a
    valid = record { fits = omega (arith, v.counted); started = v.started; known = v.known }

    pub fresh_pid : total (named (alloc a).0) ts ≡ 0
    unfolding Fresh
    fresh_pid =
        let (unused, _, _, _, _, _, _) = alloc-in_use valid in ground (arith, v.exact (alloc a).0)

    pub Tracks-alloc :
        (ts' : List TaskControlBlock)
        → ((q : ℕ) → total (named q) ts' ≡ one ((alloc a).0 == q) + total (named q) ts)
        → Tracks (suc n) (alloc a).1 ts'
    unfolding Fresh
    Tracks-alloc ts' more =
        let (unused, _, others, positive, grows, bounded, known) = alloc-in_use valid in
        record {
          counted = omega (arith, v.counted, bounded);
          started = omega (arith, v.started, grows);
          known = known;
          exact = λ q. ground (arith, more q, v.exact q, others q);
        }

    pub Tracks-dealloc :
        (ts' : List TaskControlBlock) (id : ℕ) (a' : RecycleAllocator)
        → dealloc a id ≡ returned a'
        → ((q : ℕ) → total (named q) ts' + one (id == q) ≡ total (named q) ts)
        → Tracks (suc n) a' ts'
    unfolding Retired
    Tracks-dealloc ts' id a' e fewer =
        let r : Retired a id (returned a') = subst (Retired a id) e (dealloc-in_use id valid) in
        let (same, used, others, keep) = r in
        let positive : 1 ≤ id = ground (arith, fewer id, v.exact id, one_self id) in
        record {
          counted = omega (arith, v.counted, same);
          started = omega (arith, v.started, same);
          known = (keep positive).known;
          exact = λ q. ground (arith, fewer q, v.exact q, others q);
        }
