-- ===== src/Mm/UserBuffer.antt =====
-- os/src/mm/page_table.rs: `translated_byte_buffer`, `translated_str`, `UserBuffer` and its iterator. A slice
-- of a page is its number and its two ends, and a pointer to a byte is the page and the byte's place in it.
-- A loop takes fuel, and `none` means that it ran out.
pub mod Translation
pub mod Iteration
pub mod Tests
use bitos.Base.{
  ℕ, zero, suc, ◌+◌, ◌-◌, ◌*◌, ◌/◌, ◌%◌, ◌^◌, min, Option, none, some, List, [], ◌∷◌, ◌==◌, ◌&&◌,
  leb, ltb, if◌then◌else◌, Outcome, returned, panicked, ◌>>=◌, ◌>>◌, assert, unwrap, get_elem?,
}
use bitos.Config.{page_size}
use bitos.Mm.Address.{
  PhysPageNum, VirtAddr, virt_addr_from, usize_from_virt_addr, floor, page_offset, step,
  addr_of_page_num,
}
use bitos.Mm.FrameAllocator.{Memory}
use bitos.Mm.PageTableEntry
use bitos.Mm.PageTable.{PageTable, translate, translate_va, from_token}

-- `&mut [u8]`
pub record Slice : Type 0 where
  pub ppn : PhysPageNum
  pub first : ℕ
  pub end : ℕ

-- `*mut u8`
abbrev pub Pointer : Type 0
Pointer = PhysPageNum × ℕ

abbrev pub slice_len : Slice → ℕ
slice_len b = b.end - b.first

abbrev pub push_front {ℓ} : {A : Type ℓ} → A → Option (List A) → Option (List A)
push_front a none = none
push_front a (some rest) = some (a ∷ rest)

-- A slice of the page, which panics out of its range.
unfoldable pub get_bytes : PhysPageNum → (first end : ℕ) → Outcome Slice
get_bytes ppn first end = do
  assert (leb first end && leb end page_size)
  returned (record { ppn = ppn; first = first; end = end })

-- The loop of `translated_byte_buffer`.
unfoldable pub translated_from :
    (fuel : ℕ) → Memory → PageTable → (start end : ℕ) → Outcome (Option (List Slice))
translated_from zero mem t start end = returned none
translated_from (suc fuel) mem t start end =
    let start_va = virt_addr_from start in
    let vpn = floor start_va in
    let end_va = min (addr_of_page_num (step vpn)) (virt_addr_from end) in
    let offset = page_offset end_va in
    let later = translated_from fuel mem t (usize_from_virt_addr end_va) end in
    if ltb start end
    then (do
      entry ← unwrap (translate mem t vpn)
      slice ←
          get_bytes (PageTableEntry.ppn entry) (page_offset start_va)
            (if offset == 0 then page_size else offset)
      rest ← later
      returned (push_front slice rest))
    else returned (some [])

unfoldable pub translated_byte_buffer :
    (fuel : ℕ) → Memory → (token ptr len : ℕ) → Outcome (Option (List Slice))
translated_byte_buffer fuel mem token ptr len =
    translated_from fuel mem (from_token token) ptr ((ptr + len) % 2 ^ 64)

-- The byte behind a physical address.
unfoldable pub get_u8 : Memory → (pa : ℕ) → ℕ
get_u8 mem pa = mem (pa / page_size) (pa % page_size / 8) / 2 ^ (8 * (pa % 8)) % 2 ^ 8

-- The loop of `translated_str`.
unfoldable pub str_from : (fuel : ℕ) → Memory → PageTable → (va : ℕ) → Outcome (Option (List ℕ))
str_from zero mem t va = returned none
str_from (suc fuel) mem t va =
    let later = str_from fuel mem t ((va + 1) % 2 ^ 64) in
    do
      pa ← unwrap (translate_va mem t (virt_addr_from va))
      let ch = get_u8 mem pa
      if ch == 0 then returned (some []) else (later >>= λ rest. returned (push_front ch rest))

unfoldable pub translated_str : (fuel : ℕ) → Memory → (token ptr : ℕ) → Outcome (Option (List ℕ))
translated_str fuel mem token ptr = str_from fuel mem (from_token token) ptr

-- `UserBuffer::len`
unfoldable pub buffer_len : List Slice → ℕ
buffer_len [] = 0
buffer_len (b ∷ bs) = (slice_len b + buffer_len bs) % 2 ^ 64

pub record UserBufferIterator : Type 0 where
  pub buffers : List Slice
  pub current_buffer : ℕ
  pub current_idx : ℕ

unfoldable pub into_iter : List Slice → UserBufferIterator
into_iter buffers = record { buffers = buffers; current_buffer = 0; current_idx = 0 }

-- The pointer to the current byte of a buffer, and the step behind it. An index out of range panics.
unfoldable pub advance :
    UserBufferIterator → Option Slice → Outcome (Option Pointer × UserBufferIterator)
advance it none = returned (none, it)
advance it (some b) = do
  assert (ltb it.current_idx (slice_len b))
  returned (
    some (b.ppn, b.first + it.current_idx),
    (if it.current_idx + 1 == slice_len b
        then record it { current_idx = 0; current_buffer = it.current_buffer + 1 }
        else record it { current_idx = it.current_idx + 1 }),
  )

unfoldable pub next : UserBufferIterator → Outcome (Option Pointer × UserBufferIterator)
next it = advance it (get_elem? it.buffers it.current_buffer)

-- A `for` loop over the iterator: what it visits.
unfoldable pub visited : (fuel : ℕ) → UserBufferIterator → Outcome (Option (List Pointer))
visited zero it = returned none
visited (suc fuel) it = next it >>= λ r.
    let later = visited fuel r.1 in
    elim r.0 [
      | none ↦ returned (some [])
      | some p ↦ (later >>= λ rest. returned (push_front p rest))
    ]
