-- ===== src/Mm/FrameAllocator/Tests.antt =====
-- Runs of the frame allocator, and the theorems at concrete inputs.
use bitos.Base.{◌≡◌, refl, arith, [], ◌∷◌, panicked}
use bitos.Mm.FrameAllocator.{StackFrameAllocator, alloc, dealloc, init_frame_allocator}
use bitos.Mm.FrameAllocator.Views.{IsValid, Taken, Given, alloc-is_free, dealloc-is_free}

-- Frames 10 to 19; 13 is the last that was handed out, 11 came back.
abbrev used : StackFrameAllocator
used = record { current = 14; end = 20; recycled = 11 ∷ [] }

used-IsValid : IsValid 10 used
used-IsValid = record {
  low = omega arith;
  high = omega arith;
  fits = omega arith;
  known = (omega arith, omega arith, refl, tt);
}

alloc-is_free_example : Taken 10 used (alloc used)
alloc-is_free_example = alloc-is_free used-IsValid

dealloc-is_free_example : Given 10 used 12 (dealloc used 12)
dealloc-is_free_example = dealloc-is_free 12 used-IsValid

managed :
    init_frame_allocator 0x80400123 ≡ record { current = 0x80401; end = 0x88000; recycled = [] }
unfolding init_frame_allocator bitos.Mm.Address.phys_addr_from bitos.Mm.Address.ceil
    bitos.Mm.Address.floor
managed = refl

double_free : dealloc used 11 ≡ panicked
unfolding dealloc
double_free = refl
