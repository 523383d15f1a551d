-- ===== src/Task/Id/Stacks.antt =====
-- Where kernel stacks lie.
use bitos.Base.{ℕ, ◌+◌, ◌^◌, ◌≤◌, ◌<◌, ◌≡◌, arith}
use bitos.Config.{kernel_stack_size, page_size, trampoline}
use bitos.Task.Id.{kernel_stack_position}

-- The stacks of two identifiers are of full size, below the trampoline and disjoint, with a page
-- between them that neither covers. The identifiers are below 2 ^ 50.
pub kernel_stack_position_apart :
    (a b : ℕ)
    → a < b
    → b < 2 ^ 50
    → let (a_bottom, a_top) = kernel_stack_position a in
      let (b_bottom, b_top) = kernel_stack_position b in
      (a_bottom + kernel_stack_size ≡ a_top)
      × (b_bottom + kernel_stack_size ≡ b_top)
      × (a_top ≤ trampoline)
      × (b_top + page_size ≤ a_bottom)
unfolding kernel_stack_position
kernel_stack_position_apart a b h fits = omega arith
