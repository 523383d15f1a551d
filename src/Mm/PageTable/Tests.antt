-- ===== src/Mm/PageTable/Tests.antt =====
-- Runs of the page table, and the theorems at concrete inputs.
use bitos.Base.{refl, arith, none, some, [], ◌∷◌, ◌==◌, if◌then◌else◌}
use bitos.Mm.FrameAllocator.{Frames, Memory}
use bitos.Mm.FrameAllocator.Views.{IsValid}
use bitos.Mm.PageTableEntry.Fields.{not-is_valid-empty}
use bitos.Mm.PageTable.{PageTable, map}
use bitos.Mm.PageTable.Tree.{Owner, root}
use bitos.Mm.PageTable.Walk.{IsSound}
use bitos.Mm.PageTable.Mapping.{Mapped, map_refines}

-- Frame 1 is the root of an empty table; 2 to 9 are free.
abbrev pub blank : Memory
blank p i = 0

abbrev pub frames : Frames
frames = record { allocator = record { current = 2; end = 10; recycled = [] }; mem = blank }

abbrev pub table : PageTable
table = record { root_ppn = 1; frames = 1 ∷ [] }

abbrev pub owner : Owner
owner p = if p == 1 then some root else none

frames-IsValid : IsValid 1 frames.allocator
frames-IsValid = record { low = omega arith; high = omega arith; fits = omega arith; known = tt }

pub table-IsSound : IsSound 1 frames table owner
table-IsSound = record {
  allocator = frames-IsValid;
  tree = record {
    at_root = refl;
    to_middle = λ i. ground (arith, not-is_valid-empty);
    to_leaf = λ p i j. ground (arith, not-is_valid-empty);
  };
  apart = λ p free. ground arith;
}

map_refines_example : Mapped 1 frames table 0x10000 7 2 (map frames table 0x10000 7 2)
map_refines_example =
    map_refines table-IsSound 0x10000 (omega arith) 7 2 (omega arith) (omega arith)
