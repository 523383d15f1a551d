-- ===== src/Mm/Spaces.antt =====
-- The address spaces that os/src/mm/memory_set.rs builds whole: that of the kernel, from the addresses
-- that the linker gives, and that of a program, from its file. The parser of ELF files is a parameter:
-- it gives the program headers that the code asks it for.
use bitos.Base.{
  ℕ, ◌+◌, ◌%◌, ◌^◌, bit_or, Bool, false, Option, none, some, List, [], ◌∷◌, ◌==◌, ◌&&◌,
  if◌then◌else◌, Outcome, returned, ◌>>=◌, ◌>>◌, assert, unwrap, take, drop, length, leb,
}
use bitos.Config.{
  usize_mod, page_size, user_stack_size, trap_context_base, trampoline, memory_end, mmio,
}
use bitos.Mm.Address.{virt_addr_from, usize_from_virt_addr, addr_of_page_num}
use bitos.Mm.FrameAllocator.{Frames}
use bitos.Mm.PageTableEntry.{flag_r, flag_w, flag_x, flag_u}
use bitos.Mm.MapArea
use bitos.Mm.MapArea.{MapArea, MapType, MapPermission, identical, framed}
use bitos.Mm.MemorySet.{MemorySet, new_bare, map_trampoline, push}

-- An area without data, between two addresses.
unfoldable pub push_area :
    Frames → MemorySet → (start end : ℕ) → MapType → MapPermission → Outcome (Frames × MemorySet)
push_area s m start end map_type map_perm = do
  a ← MapArea.new (virt_addr_from start) (virt_addr_from end) map_type map_perm
  push s m a none

-- The symbols of the linker script.
pub record Symbols : Type 0 where
  pub stext : ℕ
  pub etext : ℕ
  pub srodata : ℕ
  pub erodata : ℕ
  pub sdata : ℕ
  pub edata : ℕ
  pub sbss_with_stack : ℕ
  pub ebss : ℕ
  pub ekernel : ℕ
  pub strampoline : ℕ

unfoldable pub push_mmio : Frames → MemorySet → List (ℕ × ℕ) → Outcome (Frames × MemorySet)
push_mmio s m [] = returned (s, m)
push_mmio s m ((base, len) ∷ rest) = do
  (s', m') ← push_area s m base ((base + len) % usize_mod) identical (bit_or flag_r flag_w)
  push_mmio s' m' rest

unfoldable pub new_kernel : Symbols → Frames → Outcome (Frames × MemorySet)
new_kernel y s = do
  (s0, m0) ← new_bare s
  (s1, m1) ← map_trampoline y.strampoline s0 m0
  (s2, m2) ← push_area s1 m1 y.stext y.etext identical (bit_or flag_r flag_x)
  (s3, m3) ← push_area s2 m2 y.srodata y.erodata identical flag_r
  (s4, m4) ← push_area s3 m3 y.sdata y.edata identical (bit_or flag_r flag_w)
  (s5, m5) ← push_area s4 m4 y.sbss_with_stack y.ebss identical (bit_or flag_r flag_w)
  (s6, m6) ← push_area s5 m5 y.ekernel memory_end identical (bit_or flag_r flag_w)
  push_mmio s6 m6 mmio

-- A program header.
pub record ProgramHeader : Type 0 where
  pub is_load : Bool
  pub virtual_addr : ℕ
  pub mem_size : ℕ
  pub is_read : Bool
  pub is_write : Bool
  pub is_execute : Bool
  pub offset : ℕ
  pub file_size : ℕ

pub record ElfFile : Type 0 where
  pub magic : List ℕ
  pub program_headers : List ProgramHeader
  pub entry_point : ℕ
  pub input : List ℕ

unfoldable pub permission_of : ProgramHeader → MapPermission
permission_of ph =
    let readable = if ph.is_read then bit_or flag_u flag_r else flag_u in
    let writable = if ph.is_write then bit_or readable flag_w else readable in
    if ph.is_execute then bit_or writable flag_x else writable

-- The loop over the program headers; the last result is `max_end_vpn`.
unfoldable pub push_segments :
    (input : List ℕ)
    → Frames
    → MemorySet
    → (max_end_vpn : ℕ) → List ProgramHeader
    → Outcome (Frames × MemorySet × ℕ)
push_segments input s m max_end_vpn [] = returned (s, m, max_end_vpn)
push_segments input s m max_end_vpn (ph ∷ phs) = do
  (s', m', end) ←
      if ph.is_load
      then (do
        a ←
            MapArea.new (virt_addr_from ph.virtual_addr)
              (virt_addr_from ((ph.virtual_addr + ph.mem_size) % 2 ^ 64)) framed (permission_of ph)
        assert (leb (ph.offset + ph.file_size) (length input))
        (s', m') ← push s m a (some (take ph.file_size (drop ph.offset input)))
        returned (s', m', a.vpn_range.r))
      else returned (s, m, max_end_vpn)
  push_segments input s' m' end phs

unfoldable pub is_elf_magic : List ℕ → Bool
is_elf_magic (a ∷ b ∷ c ∷ d ∷ []) = a == 0x7F && b == 0x45 && c == 0x4C && d == 0x46
is_elf_magic bytes = false

-- The space, the top of the user stack and the entry point.
unfoldable pub from_elf :
    (parse : List ℕ → Option ElfFile)
    → (strampoline : ℕ) → Frames
    → (elf_data : List ℕ) → Outcome (Frames × MemorySet × ℕ × ℕ)
from_elf parse strampoline s elf_data = do
  (s0, m0) ← new_bare s
  (s1, m1) ← map_trampoline strampoline s0 m0
  elf ← unwrap (parse elf_data)
  assert (is_elf_magic elf.magic)
  (s2, m2, max_end_vpn) ← push_segments elf.input s1 m1 0 elf.program_headers
  let user_stack_bottom =
      (usize_from_virt_addr (addr_of_page_num max_end_vpn) + page_size) % usize_mod
  let user_stack_top = (user_stack_bottom + user_stack_size) % usize_mod
  (s3, m3) ←
      push_area s2 m2 user_stack_bottom user_stack_top framed (bit_or (bit_or flag_r flag_w) flag_u)
  (s4, m4) ←
      push_area s3 m3 user_stack_top ((user_stack_top + 4) % usize_mod) framed
        (bit_or (bit_or flag_r flag_w) flag_u)
  (s5, m5) ← push_area s4 m4 trap_context_base trampoline framed (bit_or flag_r flag_w)
  returned (s5, m5, user_stack_top, elf.entry_point)
