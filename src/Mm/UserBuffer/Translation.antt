-- ===== src/Mm/UserBuffer/Translation.antt =====
-- The slices that `translated_byte_buffer` gives.
use bitos.Base.{
  ℕ, zero, suc, ◌+◌, ◌-◌, ◌*◌, ◌/◌, ◌%◌, ◌^◌, ◌≤◌, ◌<◌, ◌≡◌, inl, inr, refl, sym, ap, ◌∙◌, arith,
  min, false, ◌==◌, ltb, if◌then◌else◌, Bool-cases, Option-cases, ap₂, ◌≢◌, Option, none, some,
  List, [], ◌∷◌, ◌++◌, Outcome, returned, panicked, ◌>>=◌, length, range, range-append, leb_of_le,
  ltb_of_lt, length-range,
}
use mathlib.Core.Option.{none-ne-some}
use bitos.Config.{page_size}
use bitos.Mm.Address.{
  virt_addr_from, usize_from_virt_addr, floor, page_offset, step, addr_of_page_num,
}
use bitos.Mm.Address.Pages.{virt_addr_from-eq-mod, page_offset-eq-mod}
use bitos.Mm.FrameAllocator.{Memory}
use bitos.Mm.PageTableEntry
use bitos.Mm.PageTable.{PageTable, translate, from_token}
use bitos.Mm.UserBuffer.{
  Slice, Pointer, push_front, get_bytes, translated_from, translated_byte_buffer, into_iter,
  visited,
}
use bitos.Mm.UserBuffer.Iteration.{pointer_of, pointers, AllNonEmpty, visited-pointers}

-- The byte at a user address, where the entry of its page is known.
abbrev pub byte_of : (ℕ → ℕ) → ℕ → Pointer
byte_of entry a = (PageTableEntry.ppn (entry (a / 4096)), a % 4096)

-- Where the slice of the page of `start` ends.
abbrev next_start : (start end : ℕ) → ℕ
next_start start end = min (4096 * (start / 4096 + 1)) end

range-eq :
    (f g : ℕ → Pointer) (i j n : ℕ)
    → ((k : ℕ) → k < n → f (i + k) ≡ g (j + k))
    → range f i n ≡ range g j n
range-eq f g i j zero h = refl
range-eq f g i j (suc n) h =
    ap₂ ◌∷◌
      (ap f (let z : i ≡ i + 0 = omega arith in z)
        ∙ h 0 (omega arith)
        ∙ ap g (let z : j + 0 ≡ j = omega arith in z))
      (range-eq f g (suc i) (suc j) n (λ k lt.
        ap f (let z : suc i + k ≡ i + suc k = omega arith in z)
        ∙ h (suc k) (omega arith)
        ∙ ap g (let z : j + suc k ≡ suc j + k = omega arith in z)))

module _ (mem : Memory) (t : PageTable) (end : ℕ) (small : end < 2 ^ 38) where
  -- The parts of a round.
  end_va-eq :
      (start : ℕ)
      → start < end
      → min (addr_of_page_num (step (floor (virt_addr_from start)))) (virt_addr_from end)
        ≡ next_start start end
  unfolding addr_of_page_num step floor
  end_va-eq start h =
      rw (virt_addr_from-eq-mod start, virt_addr_from-eq-mod end) (omega (arith, small))

  usize-eq : (a : ℕ) → a ≤ end → usize_from_virt_addr a ≡ a
  unfolding usize_from_virt_addr
  usize-eq a h = ground (arith, small)

  vpn-eq : (start : ℕ) → start < end → floor (virt_addr_from start) ≡ start / 4096
  unfolding floor
  vpn-eq start h = rw (virt_addr_from-eq-mod start) (omega (arith, small))

  offset-eq : (start : ℕ) → start < end → page_offset (virt_addr_from start) ≡ start % 4096
  offset-eq start h =
      rw (virt_addr_from-eq-mod start, page_offset-eq-mod (start % 2 ^ 39)) (omega (arith, small))

  slice_end-eq :
      (start : ℕ)
      → start < end
      → (if page_offset (next_start start end) == 0
          then page_size
          else page_offset (next_start start end))
        ≡ start % 4096 + (next_start start end - start)
  slice_end-eq start h = rw (page_offset-eq-mod (next_start start end)) (ground arith)

  -- One round, in a page with an entry and in one without.
  round :
      (fuel start : ℕ) (e : ℕ)
      → start < end
      → translate mem t (start / 4096) ≡ some e
      → translated_from (suc fuel) mem t start end ≡ (
          translated_from fuel mem t (next_start start end) end >>= λ rest. returned (
            push_front
              (record {
                ppn = PageTableEntry.ppn e;
                first = start % 4096;
                end = start % 4096 + (next_start start end - start);
              })
              rest))
  unfolding translated_from get_bytes
  round fuel start e h found =
      rw
        (
          end_va-eq start h,
          usize-eq (next_start start end) (omega arith),
          vpn-eq start h,
          offset-eq start h,
          slice_end-eq start h,
          found,
          ltb_of_lt start end h,
          leb_of_le (start % 4096) (start % 4096 + (next_start start end - start)) (omega arith),
          leb_of_le (start % 4096 + (next_start start end - start)) 4096 (omega arith),
        )
        refl

  round_unmapped :
      (fuel start : ℕ)
      → start < end
      → translate mem t (start / 4096) ≡ none
      → translated_from (suc fuel) mem t start end ≡ panicked
  unfolding translated_from
  round_unmapped fuel start h missing = rw (ltb_of_lt start end h, vpn-eq start h, missing) refl

  done :
      (fuel start : ℕ)
      → ltb start end ≡ false
      → translated_from (suc fuel) mem t start end ≡ returned (some [])
  unfolding translated_from
  done fuel start over = rw over refl

  nothing : (start : ℕ) → ltb start end ≡ false → 0 ≡ end - start
  nothing start over = ground arith

  module _ (entry : ℕ → ℕ) where
    -- Slices that are the bytes from `start` on, up to the end.
    abbrev Covers : (start : ℕ) → Outcome (Option (List Slice)) → Type 0
    Covers start o =
        (bs : List Slice) × (o ≡ returned (some bs))
        × (pointers bs ≡ range (byte_of entry) start (end - start))
        × AllNonEmpty bs

    first_slice :
        (start : ℕ)
        → start < end
        → range
            (pointer_of (record {
              ppn = PageTableEntry.ppn (entry (start / 4096));
              first = start % 4096;
              end = start % 4096 + (next_start start end - start);
            }))
            0
            (start % 4096 + (next_start start end - start) - start % 4096)
          ≡ range (byte_of entry) start (next_start start end - start)
    first_slice start h =
        let e = PageTableEntry.ppn (entry (start / 4096)) in
        let f = pointer_of (record {
          ppn = e;
          first = start % 4096;
          end = start % 4096 + (next_start start end - start);
        }) in
        ap (range f 0) (omega arith)
        ∙ range-eq f (byte_of entry) 0 start (next_start start end - start) (λ k lt.
          ap₂ (λ (p a : ℕ). (p, a))
            (ap (λ (x : ℕ). PageTableEntry.ppn (entry x)) (omega (arith, lt))) (omega (arith, lt)))

    translated_from-Covers :
        (fuel start : ℕ)
        → start ≤ end
        → end - start < fuel
        → ((a : ℕ) → start ≤ a → a < end → translate mem t (a / 4096) ≡ some (entry (a / 4096)))
        → Covers start (translated_from fuel mem t start end)
    translated_from-Covers zero start h f known = absurd (omega arith)
    translated_from-Covers (suc fuel) start h f known = elim (Bool-cases (ltb start end)) [
      | inr over ↦
          ([], done fuel start over, ap (range (byte_of entry) start) (nothing start over), tt)
      | inl more ↦
          let n = next_start start end in
          let lt : start < end = ground arith in
          let (bs, rest, same, full) =
            translated_from-Covers fuel n (omega arith) (omega arith)
              (λ a lo hi. known a (omega (arith, lo)) hi) in
          let b : Slice = record {
            ppn = PageTableEntry.ppn (entry (start / 4096));
            first = start % 4096;
            end = start % 4096 + (n - start);
          } in
          (
            b ∷ bs,
            round fuel start (entry (start / 4096)) lt (known start (omega arith) lt)
                ∙ rw rest refl,
            ap₂ ◌++◌ (first_slice start lt) same
                ∙ ap
                    (λ (x : ℕ).
                      range (byte_of entry) start (n - start) ++ range (byte_of entry) x (end - n))
                    (omega arith)
                ∙ range-append (byte_of entry) start (n - start) (end - n)
                ∙ ap (range (byte_of entry) start) (omega arith),
            (omega arith, full),
          )
    ]

  translated_from-unmapped :
      (fuel start x : ℕ)
      → start ≤ x
      → x < end
      → translate mem t (x / 4096) ≡ none
      → end - start < fuel
      → translated_from fuel mem t start end ≡ panicked
  translated_from-unmapped zero start x lo hi missing f = absurd (omega arith)
  translated_from-unmapped (suc fuel) start x lo hi missing f =
      elim (Option-cases (translate mem t (start / 4096))) [
        | inl none_here ↦ round_unmapped fuel start (omega arith) none_here
        | inr (e, some_here) ↦
            let apart : x / 4096 ≢ start / 4096 =
              λ same. none-ne-some e (sym missing ∙ ap (translate mem t) same ∙ some_here) in
            round fuel start e (omega arith) some_here
            ∙ rw
                (translated_from-unmapped fuel (next_start start end) x (omega (arith, apart)) hi
                  missing (omega arith))
                refl
      ]

-- When the page table has an entry, valid or not, for every page of the bytes from `ptr` on, below 2 ^ 38, a
-- loop over the buffer that `translated_byte_buffer` gives visits just the bytes of the physical pages in
-- these entries, each once and in the order of the addresses; with more fuel than there are bytes.
pub visited-translated_byte_buffer :
    (mem : Memory) (entry : ℕ → ℕ) (token ptr len fuel : ℕ)
    → ptr + len < 2 ^ 38
    → len < fuel
    → ((a : ℕ)
        → ptr ≤ a
        → a < ptr + len
        → translate mem (from_token token) (a / 4096) ≡ some (entry (a / 4096)))
    → (bs : List Slice) × (translated_byte_buffer fuel mem token ptr len ≡ returned (some bs))
      × (visited fuel (into_iter bs) ≡ returned (some (range (byte_of entry) ptr len)))
unfolding translated_byte_buffer
visited-translated_byte_buffer mem entry token ptr len fuel fits enough known =
    let wraps : (ptr + len) % 2 ^ 64 ≡ ptr + len = omega arith in
    let (bs, e, same, full) =
      translated_from-Covers mem (from_token token) (ptr + len) fits entry fuel ptr (omega arith)
        (omega arith) known in
    let bytes : pointers bs ≡ range (byte_of entry) ptr len =
      same ∙ ap (range (byte_of entry) ptr) (omega arith) in
    (
      bs,
      ap (translated_from fuel mem (from_token token) ptr) wraps ∙ e,
      visited-pointers fuel bs full
            (omega (arith, ap length bytes, length-range (byte_of entry) ptr len))
          ∙ ap (λ (ps : List Pointer). returned (some ps)) bytes,
    )

-- `translated_byte_buffer` panics when the page table has no table for the entry of one of the pages, below
-- 2 ^ 38; with more fuel than there are bytes.
pub translated_byte_buffer-unmapped :
    (mem : Memory) (token ptr len fuel x : ℕ)
    → ptr + len < 2 ^ 38
    → len < fuel
    → ptr ≤ x
    → x < ptr + len
    → translate mem (from_token token) (x / 4096) ≡ none
    → translated_byte_buffer fuel mem token ptr len ≡ panicked
unfolding translated_byte_buffer
translated_byte_buffer-unmapped mem token ptr len fuel x fits enough lo hi missing =
    let wraps : (ptr + len) % 2 ^ 64 ≡ ptr + len = omega arith in
    ap (translated_from fuel mem (from_token token) ptr) wraps
    ∙ translated_from-unmapped mem (from_token token) (ptr + len) fits fuel ptr x lo hi missing
        (omega arith)
