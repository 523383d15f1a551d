-- ===== src/Mm/PageTableEntry.antt =====
-- os/src/mm/page_table.rs: page table entries and their flags. All eight bits of a `PTEFlags` are
-- named, so `from_bits` of a byte never fails.
pub mod Fields
pub mod Tests
use bitos.Base.{ℕ, ◌+◌, ◌-◌, ◌*◌, ◌/◌, ◌%◌, ◌^◌, bit_and, bit_or, Bool, not, ◌==◌}
use bitos.Config.{usize_mod}
use bitos.Mm.Address.{PhysPageNum, phys_page_num_from}

abbrev pub PteFlags : Type 0
PteFlags = ℕ

abbrev pub flag_v : PteFlags
flag_v = 1

abbrev pub flag_r : PteFlags
flag_r = 2

abbrev pub flag_w : PteFlags
flag_w = 4

abbrev pub flag_x : PteFlags
flag_x = 8

abbrev pub flag_u : PteFlags
flag_u = 16

-- `bits`
abbrev pub PageTableEntry : Type 0
PageTableEntry = ℕ

unfoldable pub new : PhysPageNum → PteFlags → PageTableEntry
new ppn flags = bit_or (ppn * 2 ^ 10 % usize_mod) flags

abbrev pub empty : PageTableEntry
empty = 0

unfoldable pub ppn : PageTableEntry → PhysPageNum
ppn bits = phys_page_num_from (bit_and (bits / 2 ^ 10) (2 ^ 44 - 1))

unfoldable pub flags : PageTableEntry → PteFlags
flags bits = bits % 2 ^ 8

unfoldable pub is_valid : PageTableEntry → Bool
unfolding flags
is_valid bits = not (bit_and (flags bits) flag_v == 0)

unfoldable pub readable : PageTableEntry → Bool
unfolding flags
readable bits = not (bit_and (flags bits) flag_r == 0)

unfoldable pub writable : PageTableEntry → Bool
unfolding flags
writable bits = not (bit_and (flags bits) flag_w == 0)

unfoldable pub executable : PageTableEntry → Bool
unfolding flags
executable bits = not (bit_and (flags bits) flag_x == 0)
