-- ===== src/Mm/UserBuffer/Tests.antt =====
-- A buffer over two pages, one whose second page has no entry, and one in a page with an invalid entry.
use bitos.Base.{
  ℕ, ◌+◌, ◌-◌, ◌*◌, ◌/◌, ◌^◌, ◌≡◌, inl, inr, refl, sym, ap, ◌∙◌, arith, ◌==◌, if◌then◌else◌,
  Bool-cases, eq_of_==, ne_of_==, some, none, List, [], ◌∷◌, returned, panicked, range,
}
use bitos.Mm.Address.{indexes, phys_page_num_from}
use bitos.Mm.FrameAllocator.{Memory}
use bitos.Mm.PageTableEntry.{is_valid, ppn, flags}
use bitos.Mm.PageTable.{translate, from_token, find_pte}
use bitos.Mm.UserBuffer.{
  Slice, into_iter, visited, translated_byte_buffer, translated_str, str_from, get_u8,
}
use bitos.Mm.UserBuffer.Translation.{
  byte_of, visited-translated_byte_buffer, translated_byte_buffer-unmapped,
}

-- Pages 16 and 17 are mapped to the physical pages 200 and 300.
abbrev tables : Memory
tables p i =
    if p == 100
    then (if i == 0 then 101 * 1024 + 1 else 0)
    else if p == 101
    then (if i == 0 then 102 * 1024 + 1 else 0)
    else if p == 102
    then (if i == 16
        then 200 * 1024 + 15
        else if i == 17
        then 300 * 1024 + 15
        else if i == 511
        then 200 * 1024 + 15
        else 0)
    else if p == 200
    then 0x6968
    else 0

abbrev token : ℕ
token = 8 * 2 ^ 60 + 100

abbrev entry : ℕ → ℕ
entry v = if v == 16 then 200 * 1024 + 15 else 300 * 1024 + 15

page_16 : translate tables (from_token token) 16 ≡ some (200 * 1024 + 15)
unfolding translate find_pte from_token indexes is_valid ppn flags phys_page_num_from
page_16 = refl

page_17 : translate tables (from_token token) 17 ≡ some (300 * 1024 + 15)
unfolding translate find_pte from_token indexes is_valid ppn flags phys_page_num_from
page_17 = refl

page_512 : translate tables (from_token token) 512 ≡ none
unfolding translate find_pte from_token indexes is_valid ppn flags phys_page_num_from
page_512 = refl

-- The entry of page 18 is invalid, and yet there is one.
page_18 : translate tables (from_token token) 18 ≡ some 0
unfolding translate find_pte from_token indexes is_valid ppn flags phys_page_num_from
page_18 = refl

visited-translated_byte_buffer_example :
    (bs : List Slice) × (translated_byte_buffer 11 tables token (17 * 4096 - 4) 10
      ≡ returned (some bs))
    × (visited 11 (into_iter bs) ≡ returned (some (range (byte_of entry) (17 * 4096 - 4) 10)))
visited-translated_byte_buffer_example =
    visited-translated_byte_buffer tables entry token (17 * 4096 - 4) 10 11 (omega arith)
      (omega arith)
      (λ a lo hi. elim (Bool-cases (a / 4096 == 16)) [
        | inl e ↦
            let at : a / 4096 ≡ 16 = eq_of_== (a / 4096) 16 e in
            ap (translate tables (from_token token)) at
            ∙ page_16
            ∙ ap (λ (v : ℕ). some (entry v)) (sym at)
        | inr ne ↦
            let at : a / 4096 ≡ 17 = omega (arith, ne_of_== (a / 4096) 16 ne, lo, hi) in
            ap (translate tables (from_token token)) at
            ∙ page_17
            ∙ ap (λ (v : ℕ). some (entry v)) (sym at)
      ])

translated_byte_buffer-unmapped_example :
    translated_byte_buffer 11 tables token (512 * 4096 - 4) 10 ≡ panicked
translated_byte_buffer-unmapped_example =
    translated_byte_buffer-unmapped tables token (512 * 4096 - 4) 10 11 (512 * 4096) (omega arith)
      (omega arith) (omega arith) (omega arith) page_512

greeting : translated_str 3 tables token (16 * 4096) ≡ returned (some (0x68 ∷ 0x69 ∷ []))
unfolding translated_str str_from get_u8 bitos.Mm.PageTable.translate_va find_pte from_token indexes
    is_valid ppn flags phys_page_num_from bitos.Mm.Address.virt_addr_from bitos.Mm.Address.floor
    bitos.Mm.Address.page_offset bitos.Mm.Address.phys_addr_from bitos.Mm.Address.addr_of_page_num
greeting = refl
