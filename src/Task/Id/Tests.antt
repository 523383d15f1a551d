-- ===== src/Task/Id/Tests.antt =====
-- Runs of the identifier allocator, and the theorems at concrete inputs.
use bitos.Base.{ℕ, ◌+◌, ◌≤◌, ◌≡◌, refl, arith, [], ◌∷◌, contains, returned, true}
use bitos.Base.Between.{Between}
use bitos.Config.{kernel_stack_size, page_size, trampoline}
use bitos.Task.Id.{RecycleAllocator, alloc, dealloc, kernel_stack_position}
use bitos.Task.Id.Views.{IsValid}
use bitos.Task.Id.History.{Reach, here, then_step, takes, boot, taken, Reach-distinct}
use bitos.Task.Id.Stacks.{kernel_stack_position_apart}

abbrev used : RecycleAllocator
used = record { current = 5; recycled = 3 ∷ 1 ∷ [] }

used-IsValid : IsValid used
used-IsValid = record {
  fits = omega arith;
  started = omega arith;
  known = (omega arith, omega arith, refl, (omega arith, omega arith, refl, tt));
}

two_alive : Reach 2 (taken (taken boot))
two_alive = then_step (then_step here (takes boot)) (takes (taken boot))

Reach-distinct_example :
    Between 1 (taken (taken boot)).allocator.current (taken (taken boot)).live
    × ((id : ℕ)
        → contains id (taken (taken boot)).live ≡ true
        → (a' : RecycleAllocator) × (dealloc (taken (taken boot)).allocator id ≡ returned a'))
Reach-distinct_example = Reach-distinct two_alive (omega arith)

first_pid : alloc boot.allocator ≡ (1, record { current = 2; recycled = [] })
unfolding alloc bitos.Task.Id.new
first_pid = refl

kernel_stack_position_apart_example :
    let (a_bottom, a_top) = kernel_stack_position 1 in
    let (b_bottom, b_top) = kernel_stack_position 2 in
    (a_bottom + kernel_stack_size ≡ a_top)
    × (b_bottom + kernel_stack_size ≡ b_top)
    × (a_top ≤ trampoline)
    × (b_top + page_size ≤ a_bottom)
kernel_stack_position_apart_example = kernel_stack_position_apart 1 2 (omega arith) (omega arith)
