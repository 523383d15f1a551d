-- ===== src/Task/Tcb/Break.antt =====
-- Where the break moves.
use bitos.Base.{
  ℕ, ◌+◌, ◌^◌, ◌<◌, ◌≡◌, refl, arith, Bool, false, not, Option, none, some, ◌==◌, if◌then◌else◌,
  Outcome, returned, ◌>>=◌, ltb, leb, Bool-cases, inl, inr,
}
use bitos.Base.Isize.{add_signed, sub_signed, lt_signed}
use bitos.Config.{page_size}
use bitos.Mm.FrameAllocator.{Frames}
use bitos.Mm.MemorySet
use bitos.Mm.MemorySet.{MemorySet}
use bitos.Task.Tcb.{TaskControlBlock, change_program_brk}

-- The heap's area is extended, and the break moves unless the area is missing.
abbrev pub answer :
    TaskControlBlock
    → (brk : ℕ) → Bool × Frames × MemorySet
    → Outcome (Option ℕ × Frames × TaskControlBlock)
answer t brk (found, s', m) =
    if found
    then returned (some t.program_brk, s', record t { memory_set = m; program_brk = brk })
    else returned (none, s', record t { memory_set = m })

abbrev pub grown :
    Frames → TaskControlBlock → (new_add : ℕ) → Outcome (Option ℕ × Frames × TaskControlBlock)
grown s t new_add = MemorySet.append_to s t.memory_set t.heap_bottom new_add >>= answer t new_add

abbrev pub moved :
    Frames → TaskControlBlock → (new_add : ℕ) → Outcome (Option ℕ × Frames × TaskControlBlock)
moved s t new_add =
    if new_add == 0
    then returned (some t.program_brk, s, t)
    else if ltb new_add t.heap_bottom
    then returned (none, s, t)
    else if leb new_add (t.program_brk + page_size)
    then returned (some new_add, s, record t { program_brk = new_add })
    else grown s t new_add

module _ (new_add brk : ℕ) (fits : new_add < 2 ^ 62) (brk_fits : brk < 2 ^ 62) where
  there : add_signed brk (sub_signed new_add brk) ≡ new_add
  there = omega arith

  far : lt_signed page_size (sub_signed new_add brk) ≡ not (leb new_add (brk + page_size))
  far = ground arith

  -- A move of more than a page is not a move down.
  not_down : leb new_add (brk + page_size) ≡ false → lt_signed (sub_signed new_add brk) 0 ≡ false
  not_down h = ground arith

low : (a b : ℕ) → a < 2 ^ 62 → b < 2 ^ 62 → lt_signed a b ≡ ltb a b
low a b h h' = ground arith

-- `change_program_brk`, for addresses below 2 ^ 62: 0 asks for the break; an address below the heap is
-- refused; up to a page above the break, and anywhere below it, the break moves and no page is mapped or
-- unmapped; farther up the heap's area is extended first. The area is never shrunk.
pub change_program_brk_cases :
    (s : Frames) (t : TaskControlBlock) (new_add : ℕ)
    → new_add < 2 ^ 62
    → t.program_brk < 2 ^ 62
    → t.heap_bottom < 2 ^ 62
    → change_program_brk s t new_add ≡ moved s t new_add
unfolding change_program_brk
change_program_brk_cases s t new_add fits brk_fits bottom_fits =
    rw
      (
        there new_add t.program_brk fits brk_fits,
        low new_add t.heap_bottom fits bottom_fits,
        far new_add t.program_brk fits brk_fits,
      )
      (elim (Bool-cases (new_add == 0)) [
        | inl e ↦ rw e refl
        | inr e ↦ rw e (elim (Bool-cases (ltb new_add t.heap_bottom)) [
          | inl e ↦ rw e refl
          | inr e ↦ rw e (elim (Bool-cases (leb new_add (t.program_brk + page_size))) [
            | inl e ↦ rw e refl
            | inr e ↦ rw (e, not_down new_add t.program_brk fits brk_fits e) refl
          ])
        ])
      ])
