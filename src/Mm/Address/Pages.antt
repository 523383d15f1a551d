-- ===== src/Mm/Address/Pages.antt =====
-- Rounding, alignment, sign extension and page table indexes.
use bitos.Base.{
  ℕ, ◌+◌, ◌-◌, ◌*◌, ◌/◌, ◌%◌, ◌^◌, ◌≤◌, ◌<◌, ◌≡◌, ◌≢◌, ◌⊎◌, inl, inr, arith, ◌==◌, returned,
  panicked, Bool-cases,
}
use bitos.Base.Bits.{and_low_mask, or_of_fields, or_comm}
use bitos.Config.{page_size}
use bitos.Mm.Address.{
  Indexes, virt_addr_from, phys_addr_from, phys_page_num_from, usize_from_virt_addr, floor, ceil,
  page_offset, page_num_of_addr, addr_of_page_num, indexes,
}

pub page_offset-eq-mod : (a : ℕ) → page_offset a ≡ a % 4096
unfolding page_offset
page_offset-eq-mod a = and_low_mask 12 a

pub virt_addr_from-eq-mod : (v : ℕ) → virt_addr_from v ≡ v % 2 ^ 39
unfolding virt_addr_from
virt_addr_from-eq-mod v = and_low_mask 39 v

pub phys_page_num_from-eq-mod : (v : ℕ) → phys_page_num_from v ≡ v % 2 ^ 44
unfolding phys_page_num_from
phys_page_num_from-eq-mod v = and_low_mask 44 v

pub phys_addr_from-eq-mod : (v : ℕ) → phys_addr_from v ≡ v % 2 ^ 56
unfolding phys_addr_from
phys_addr_from-eq-mod v = and_low_mask 56 v

-- An address whose bits 39 to 63 repeat bit 38 survives the way to a `VirtAddr` and back.
pub usize_from_virt_addr-virt_addr_from :
    (v : ℕ)
    → v < 2 ^ 64
    → (v < 2 ^ 38) ⊎ (2 ^ 64 - 2 ^ 38 ≤ v)
    → usize_from_virt_addr (virt_addr_from v) ≡ v
unfolding usize_from_virt_addr
usize_from_virt_addr-virt_addr_from v fits canonical = rw (virt_addr_from-eq-mod v) (
    ground (
      arith,
      or_comm (v % 2 ^ 39) (2 ^ 64 - 2 ^ 39),
      or_of_fields 39 (2 ^ 25 - 1) (v % 2 ^ 39) (omega arith),
    ))

-- `floor` and `ceil` are the nearest page boundaries below and above an address, and they agree
-- exactly at the aligned addresses. The address is not 0 and leaves room for a page above it.
pub floor-ceil_bounds :
    (a : ℕ)
    → 0 < a
    → a < 2 ^ 64 - 4096
    → (floor a * page_size ≤ a)
      × (a < floor a * page_size + page_size)
      × (a ≤ ceil a * page_size)
      × (ceil a * page_size < a + page_size)
unfolding floor ceil
floor-ceil_bounds a pos room = omega arith

-- The conversion of an address to a page number panics unless the address is aligned, and is
-- undone by the conversion back, for an address within `usize`.
pub page_num_of_addr_cases :
    (a : ℕ)
    → a < 2 ^ 64
    → ((a % page_size ≡ 0)
        × (page_num_of_addr a ≡ returned (floor a))
        × (addr_of_page_num (floor a) ≡ a))
      ⊎ ((a % page_size ≢ 0) × (page_num_of_addr a ≡ panicked))
unfolding page_num_of_addr floor addr_of_page_num
page_num_of_addr_cases a fits = elim (Bool-cases (page_offset a == 0)) [
  | inl e ↦ inl (ground (arith, page_offset-eq-mod a), rw e, ground (arith, page_offset-eq-mod a))
  | inr e ↦ inr (ground (arith, page_offset-eq-mod a), rw e)
]

pub indexes-eq-digits :
    (vpn : ℕ)
    → (Indexes.i0 (indexes vpn) ≡ vpn / 512 / 512 % 512)
      × (Indexes.i1 (indexes vpn) ≡ vpn / 512 % 512)
      × (Indexes.i2 (indexes vpn) ≡ vpn % 512)
unfolding indexes
indexes-eq-digits vpn =
    (and_low_mask 9 (vpn / 512 / 512), and_low_mask 9 (vpn / 512), and_low_mask 9 vpn)
