-- ===== src/Task/Tcb.antt =====
-- os/src/task/task.rs: the task control block, its immutable and its inner part in one record. A task is
-- named by its pid, also behind an `Arc`, and an open file by a number.
pub mod Files
pub mod Break
pub mod Tests
use bitos.Base.{
  ℕ, zero, suc, ◌+◌, ◌-◌, ◌*◌, ◌%◌, ◌^◌, Bool, true, false, Option, none, some, List, [], ◌∷◌, ◌++◌,
  ◌==◌, if◌then◌else◌, Outcome, returned, panicked, ◌>>=◌, length, ltb, leb, map,
}
use bitos.Base.Isize.{add_signed, sub_signed, div_signed, lt_signed}
use bitos.Config.{big_stride, page_size, usize_mod}
use bitos.Mm.Address.{PhysPageNum, VirtPageNum}
use bitos.Mm.FrameAllocator.{Frames}
use bitos.Mm.PageTableEntry.{PteFlags}
use bitos.Mm.MemorySet
use bitos.Mm.MemorySet.{MemorySet}

pub data TaskStatus : Type 0 where
  un_init : TaskStatus
  ready : TaskStatus
  running : TaskStatus
  zombie : TaskStatus

-- What an `Arc<dyn File>` refers to.
pub data File : Type 0 where
  stdin : File
  stdout : File
  opened : ℕ → File

pub record TaskInfo : Type 0 where
  pub start : ℕ
  pub all : ℕ
  pub stime : ℕ
  pub cutime : ℕ
  pub cstime : ℕ

unfoldable pub new_info : (now : ℕ) → TaskInfo
new_info now = record { start = now; all = 0; stime = 0; cutime = 0; cstime = 0 }

pub record TaskControlBlock : Type 0 where
  pub pid : ℕ
  pub ppid : ℕ
  pub kernel_stack : ℕ
  pub trap_cx_ppn : PhysPageNum
  pub base_size : ℕ
  pub task_status : TaskStatus
  pub memory_set : MemorySet
  pub parent : Option ℕ
  pub children : List ℕ
  pub exit_code : ℕ
  pub fd_table : List (Option File)
  pub heap_bottom : ℕ
  pub program_brk : ℕ
  pub task_info : TaskInfo
  pub stride : ℕ
  pub pri : ℕ
  pub pwd : List ℕ

unfoldable pub is_zombie : TaskControlBlock → Bool
is_zombie t = elim t.task_status [ zombie ↦ true | _ ↦ false ]

-- The first descriptor without a file, from the `i`-th on.
unfoldable pub find_none : List (Option File) → (i : ℕ) → Option ℕ
find_none [] i = none
find_none (none ∷ fds) i = some i
find_none (some f ∷ fds) i = find_none fds (suc i)

unfoldable pub alloc_fd : TaskControlBlock → ℕ × TaskControlBlock
alloc_fd t = elim (find_none t.fd_table 0) [
  | some fd ↦ (fd, t)
  | none ↦ (length t.fd_table, record t { fd_table = t.fd_table ++ none ∷ [] })
]

unfoldable pub set_pwd : TaskControlBlock → List ℕ → TaskControlBlock
set_pwd t new_pwd = record t { pwd = new_pwd }

-- The three descriptors of a new program.
abbrev pub standard_fds : List (Option File)
standard_fds = some stdin ∷ some stdout ∷ some stdout ∷ []

unfoldable pub set_priority : TaskControlBlock → ℕ → TaskControlBlock
set_priority t prio = record t { pri = prio }

-- In `isize` arithmetic; a division by 0 panics.
unfoldable pub update_stri : TaskControlBlock → Outcome TaskControlBlock
update_stri t =
    if t.pri == 0
    then panicked
    else returned (record t { stride = add_signed t.stride (div_signed big_stride t.pri) })

-- The numbers are 64-bit patterns; `i64` and `isize` compare as signed ones.
unfoldable pub change_program_brk :
    Frames → TaskControlBlock → (new_add : ℕ) → Outcome (Option ℕ × Frames × TaskControlBlock)
change_program_brk s t new_add =
    let old_break = t.program_brk in
    let size = sub_signed new_add old_break in
    let new_brk = add_signed t.program_brk size in
    let moved = record t { program_brk = new_brk } in
    let settle : Bool × Frames × MemorySet → Outcome (Option ℕ × Frames × TaskControlBlock) =
      λ (result, s', m).
        if result
        then returned (some old_break, s', record moved { memory_set = m })
        else returned (none, s', record t { memory_set = m }) in
    if new_add == 0
    then returned (some old_break, s, t)
    else if lt_signed new_brk t.heap_bottom
    then returned (none, s, t)
    else if lt_signed page_size size
    then (if lt_signed size 0
        then MemorySet.shrink_to s t.memory_set t.heap_bottom new_brk >>= settle
        else MemorySet.append_to s t.memory_set t.heap_bottom new_brk >>= settle)
    else returned (some new_brk, s, moved)

unfoldable pub map_page :
    Frames
    → TaskControlBlock
    → VirtPageNum
    → PhysPageNum
    → PteFlags
    → Outcome (Frames × TaskControlBlock)
map_page s t vpn ppn flags = do
  (s', m) ← MemorySet.map s t.memory_set vpn ppn flags
  returned (s', record t { memory_set = m })

unfoldable pub unmap_page : Frames → TaskControlBlock → VirtPageNum → Outcome Frames
unmap_page s t vpn = MemorySet.unmap s t.memory_set vpn
