-- ===== src/Mm/PageTableEntry/Tests.antt =====
-- A concrete entry.
use bitos.Base.{◌≡◌, refl, true, false}
use bitos.Mm.PageTableEntry.{new, ppn, flags, is_valid, readable, writable, executable}

made :
    (ppn (new 0x80200 11) ≡ 0x80200)
    × (flags (new 0x80200 11) ≡ 11)
    × (is_valid (new 0x80200 11) ≡ true)
    × (readable (new 0x80200 11) ≡ true)
    × (writable (new 0x80200 11) ≡ false)
    × (executable (new 0x80200 11) ≡ true)
unfolding new ppn flags is_valid readable writable executable bitos.Mm.Address.phys_page_num_from
made = (refl, refl, refl, refl, refl, refl)
