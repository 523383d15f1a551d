-- ===== src/Task/Id.antt =====
-- os/src/task/id.rs: the recycling allocator of identifiers (for processes and kernel stacks), and
-- where the kernel stack of an identifier lies.
pub mod Views
pub mod History
pub mod Stacks
pub mod Tests
use bitos.Base.{
  ℕ, ◌+◌, ◌-◌, ◌*◌, ◌%◌, ◌^◌, List, [], ◌∷◌, ltb, not, Outcome, returned, ◌>>=◌, ◌>>◌, assert,
  contains,
}
use bitos.Config.{usize_mod, kernel_stack_size, page_size, trampoline}

-- The head of `recycled` is the back of the vector.
pub record RecycleAllocator : Type 0 where
  pub current : ℕ
  pub recycled : List ℕ

unfoldable pub new : RecycleAllocator
new = record { current = 1; recycled = [] }

-- Also `pid_alloc`, on the allocator behind `PID_ALLOCATOR`.
unfoldable pub alloc : RecycleAllocator → ℕ × RecycleAllocator
alloc a = elim a.recycled [
  | [] ↦
      let current = (a.current + 1) % usize_mod in
      ((current + usize_mod - 1) % usize_mod, record a { current = current })
  | id ∷ rest ↦ (id, record a { recycled = rest })
]

-- Also what dropping a `PidHandle` does.
unfoldable pub dealloc : RecycleAllocator → ℕ → Outcome RecycleAllocator
dealloc a id = do
  assert (ltb id a.current)
  assert (not (contains id a.recycled))
  returned (record a { recycled = id ∷ a.recycled })

-- The bottom and the top of a kernel stack, in `usize` arithmetic.
unfoldable pub kernel_stack_position : ℕ → ℕ × ℕ
kernel_stack_position app_id =
    let top =
      (trampoline + usize_mod - app_id * (kernel_stack_size + page_size) % usize_mod) % usize_mod in
    ((top + usize_mod - kernel_stack_size) % usize_mod, top)

-- `KernelStack::get_top`
unfoldable pub get_top : ℕ → ℕ
unfolding kernel_stack_position
get_top id = (kernel_stack_position id).1
