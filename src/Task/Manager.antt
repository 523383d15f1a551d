-- ===== src/Task/Manager.antt =====
-- os/src/task/manager.rs: the ready queue. Tasks are named by their pid, and `stride` gives the
-- stride that the task control block of a pid holds (an `isize`, by its bit pattern).
pub mod Stride
pub mod Tests
use bitos.Base.{
  ℕ, zero, suc, ◌+◌, Option, none, some, List, [], ◌∷◌, ◌++◌, if◌then◌else◌, Outcome, returned,
  panicked, get_elem?, remove,
}
use bitos.Base.Isize.{le_signed}

pub record TaskManager : Type 0 where
  pub ready_queue : List ℕ

unfoldable pub new : TaskManager
new = record { ready_queue = [] }

-- Also `add_task`, on the manager behind `TASK_MANAGER`.
unfoldable pub add : TaskManager → ℕ → TaskManager
add m task = record { ready_queue = m.ready_queue ++ task ∷ [] }

-- The loop of `fetch`: `i` counts the tasks seen, `id` and `least` are the best so far.
unfoldable pub scan : (ℕ → ℕ) → List ℕ → (i id least : ℕ) → ℕ
scan stride [] i id least = id
scan stride (task ∷ tasks) i id least =
    let better = le_signed (stride task) least in
    scan stride tasks (suc i) (if better then i else id) (if better then stride task else least)

-- Also `fetch_task`. The first access, `get(0).unwrap()`, panics on an empty queue.
unfoldable pub fetch : (ℕ → ℕ) → TaskManager → Outcome (Option ℕ × TaskManager)
unfolding scan
fetch stride m = elim m.ready_queue [
  | [] ↦ panicked
  | first ∷ others ↦
      let queue = first ∷ others in
      let id = scan stride queue 0 0 (stride first) in
      returned (get_elem? queue id, record { ready_queue = remove queue id })
]
