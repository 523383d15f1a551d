-- ===== src/Mm/Address.antt =====
-- os/src/mm/address.rs: the newtypes over `usize` for addresses and page numbers, and the range of
-- page numbers. Arithmetic on `usize` wraps at 2 ^ 64.
pub mod Pages
pub mod Ranges
pub mod Tests
use bitos.Base.{
  ℕ, zero, suc, ◌+◌, ◌-◌, ◌*◌, ◌/◌, ◌%◌, ◌^◌, bit_and, bit_or, Bool, Option, none, some, List, [],
  ◌∷◌, ◌==◌, leb, if◌then◌else◌, Outcome, returned, ◌>>=◌, ◌>>◌, assert,
}
use bitos.Config.{usize_mod, page_size, page_size_bits}

abbrev pub PhysAddr : Type 0
PhysAddr = ℕ

abbrev pub VirtAddr : Type 0
VirtAddr = ℕ

abbrev pub PhysPageNum : Type 0
PhysPageNum = ℕ

abbrev pub VirtPageNum : Type 0
VirtPageNum = ℕ

-- `From<usize>`: each keeps the low bits of its width.
unfoldable pub phys_addr_from : ℕ → PhysAddr
phys_addr_from v = bit_and v (2 ^ 56 - 1)

unfoldable pub phys_page_num_from : ℕ → PhysPageNum
phys_page_num_from v = bit_and v (2 ^ 44 - 1)

unfoldable pub virt_addr_from : ℕ → VirtAddr
virt_addr_from v = bit_and v (2 ^ 39 - 1)

unfoldable pub virt_page_num_from : ℕ → VirtPageNum
virt_page_num_from v = bit_and v (2 ^ 27 - 1)

-- `From<VirtAddr> for usize`: bit 38 is copied to the bits above it.
unfoldable pub usize_from_virt_addr : VirtAddr → ℕ
usize_from_virt_addr v = if leb (2 ^ 38) v then bit_or v (usize_mod - 1 - (2 ^ 39 - 1)) else v

-- `floor`, `ceil`, `page_offset` and `aligned` read alike for both kinds of address.
unfoldable pub floor : ℕ → ℕ
floor a = a / page_size

unfoldable pub ceil : ℕ → ℕ
ceil a = ((a + usize_mod - 1) % usize_mod + page_size) % usize_mod / page_size

unfoldable pub page_offset : ℕ → ℕ
page_offset a = bit_and a (page_size - 1)

unfoldable pub aligned : ℕ → Bool
unfolding page_offset
aligned a = page_offset a == 0

-- `From<VirtAddr> for VirtPageNum` and `From<PhysAddr> for PhysPageNum`
unfoldable pub page_num_of_addr : ℕ → Outcome ℕ
unfolding page_offset floor
page_num_of_addr a = do assert (page_offset a == 0); returned (floor a)

-- `From<VirtPageNum> for VirtAddr` and `From<PhysPageNum> for PhysAddr`
unfoldable pub addr_of_page_num : ℕ → ℕ
addr_of_page_num n = n * 2 ^ page_size_bits % usize_mod

pub record Indexes : Type 0 where
  pub i0 : ℕ
  pub i1 : ℕ
  pub i2 : ℕ

-- The loop of `VirtPageNum::indexes`, which fills the array from its end.
unfoldable pub indexes : VirtPageNum → Indexes
indexes vpn = record {
  i0 = bit_and (vpn / 2 ^ 9 / 2 ^ 9) 511;
  i1 = bit_and (vpn / 2 ^ 9) 511;
  i2 = bit_and vpn 511;
}

-- `StepByOne`
unfoldable pub step : ℕ → ℕ
step n = (n + 1) % usize_mod

pub record SimpleRange : Type 0 where
  pub l : ℕ
  pub r : ℕ

pub record SimpleRangeIterator : Type 0 where
  pub current : ℕ
  pub end : ℕ

unfoldable pub new_range : ℕ → ℕ → Outcome SimpleRange
new_range start end = do assert (leb start end); returned (record { l = start; r = end })

unfoldable pub into_iter : SimpleRange → SimpleRangeIterator
into_iter s = record { current = s.l; end = s.r }

unfoldable pub next : SimpleRangeIterator → Option (ℕ × SimpleRangeIterator)
unfolding step
next it =
    if it.current == it.end
    then none
    else some (it.current, record it { current = step it.current })

-- What a `for` loop over the iterator visits; `none` means that the fuel ran out.
unfoldable pub visited : ℕ → SimpleRangeIterator → Option (List ℕ)
visited zero it = none
visited (suc k) it = elim (next it) [
  | none ↦ some []
  | some (a, it') ↦ elim (visited k it') [ none ↦ none | some rest ↦ some (a ∷ rest) ]
]
