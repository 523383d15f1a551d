-- ===== src/Task/Manager/Tests.antt =====
-- Runs of the ready queue, and the theorem at a concrete queue.
use bitos.Base.{ℕ, ◌-◌, ◌^◌, ◌≡◌, refl, some, [], ◌∷◌, ◌==◌, if◌then◌else◌, returned, panicked}
use bitos.Task.Manager.{TaskManager, new, add, fetch}
use bitos.Task.Manager.Stride.{Fetched, fetch_refines}

-- Task 3 wrapped to a negative stride.
abbrev strides : ℕ → ℕ
strides task = if task == 3 then 2 ^ 64 - 1 else if task == 2 then 5 else 40

abbrev waiting : TaskManager
waiting = record { ready_queue = 1 ∷ 2 ∷ 4 ∷ 2 ∷ 5 ∷ [] }

fetch_refines_example : Fetched strides (1 ∷ 2 ∷ 4 ∷ 2 ∷ 5 ∷ []) (fetch strides waiting)
fetch_refines_example = fetch_refines strides waiting

takes_last_least :
    fetch strides (record { ready_queue = 1 ∷ 2 ∷ 4 ∷ 6 ∷ [] })
    ≡ returned (some 2, record { ready_queue = 1 ∷ 4 ∷ 6 ∷ [] })
unfolding fetch
takes_last_least = refl

negative_first : fetch strides (add waiting 3) ≡ returned (some 3, waiting)
unfolding fetch add
negative_first = refl

empty_queue : fetch strides new ≡ panicked
unfolding fetch new
empty_queue = refl
