-- ===== src/Mm/PageTable/Mapping.antt =====
-- What `map` and `unmap` do to the partial map.
use bitos.Base.{
  ◌+◌, ◌↔◌, ℕ, ◌^◌, ◌≤◌, ◌<◌, ◌≡◌, ◌≢◌, refl, ◌∙◌, arith, bit_or, true, Option, none, some, Outcome,
  returned, panicked, Bool-cases, inl, inr, ◌⊎◌,
}
use bitos.Mm.Address.{Indexes, indexes}
use bitos.Mm.FrameAllocator.{Frames}
use bitos.Mm.FrameAllocator.Views.{free_count}
use bitos.Mm.PageTableEntry.{PageTableEntry, flag_v, is_valid, ppn}
use bitos.Mm.PageTableEntry
use bitos.Mm.PageTableEntry.Fields.{new_fields, or_valid, not-is_valid-empty}
use bitos.Mm.PageTable.{PageTable, map, unmap, translate}
use bitos.Mm.PageTable.Tree.{Owner}
use bitos.Mm.PageTable.Walk.{IsSound}
use bitos.Mm.PageTable.Found.{
  entry_of, entry_of-written, Found, set_entry, entry_before, find_pte_create-Walked, written,
  written-IsSound,
}

-- The entry that `map` makes.
abbrev pub made : ℕ → ℕ → PageTableEntry
made p f = PageTableEntry.new p (bit_or f flag_v)

-- How `map` ends: already mapped, no frame, or done.
abbrev pub Mapped :
    (start : ℕ) → Frames → PageTable → (vpn p f : ℕ) → Outcome (Frames × PageTable) → Type 0
Mapped start s t vpn p f o =
    ((o ≡ panicked) × (entry_of s.mem t vpn ≢ none))
    ⊎ ((o ≡ panicked) × (free_count s.allocator ≤ 1))
    ⊎ ((s' : Frames) × (t' : PageTable) × (owner' : Owner) × (o ≡ returned (s', t'))
        × (entry_of s.mem t vpn ≡ none)
        × IsSound start s' t' owner'
        × (t'.root_ppn ≡ t.root_ppn)
        × (free_count s.allocator ≤ free_count s'.allocator + 2)
        × ((x : ℕ)
            → x < 2 ^ 27
            → entry_of s'.mem t' x ≡ set_entry (entry_of s.mem t) vpn (some (made p f)) x))

-- How `unmap` ends: not mapped, or done.
abbrev pub Unmapped : (start : ℕ) → Frames → PageTable → Owner → (vpn : ℕ) → Outcome Frames → Type 0
Unmapped start s t owner vpn o =
    ((o ≡ panicked) × (entry_of s.mem t vpn ≡ none))
    ⊎ ((s' : Frames) × (e : PageTableEntry) × (o ≡ returned s')
        × (entry_of s.mem t vpn ≡ some e)
        × IsSound start s' t owner
        × ((x : ℕ) → x < 2 ^ 27 → entry_of s'.mem t x ≡ set_entry (entry_of s.mem t) vpn none x))

module _ {start : ℕ} {s : Frames} {t : PageTable} {owner : Owner} (v : IsSound start s t owner)
    (vpn : ℕ) (small : vpn < 2 ^ 27) where
  made-is_valid : (p f : ℕ) → p < 2 ^ 44 → f < 2 ^ 8 → is_valid (made p f) ≡ true
  made-is_valid p f hp hf = (new_fields p (bit_or f 1) hp (or_valid f hf).0).2 ∙ (or_valid f hf).1

  -- On a sound page table `map` panics if the page is mapped already, and otherwise if the walk runs
  -- out of frames, which needs that at most one was free. Else it returns a sound table with the
  -- same root, in which this page has the new entry and every other page the entry it had, and at most
  -- two frames more are in use.
  pub map_refines : (p f : ℕ) → p < 2 ^ 44 → f < 2 ^ 8 → Mapped start s t vpn p f (map s t vpn p f)
  unfolding map
  map_refines p f hp hf = elim (find_pte_create-Walked v vpn) [
    | inl (e, few) ↦ inr (inl (rw e refl, few))
    | inr (q, s', t', owner', e, found) ↦
        elim (Bool-cases (is_valid (s'.mem q (Indexes.i2 (indexes vpn))))) [
          | inl taken ↦
              inl (rw (e, taken) refl, λ e'. absurd (ground (arith, entry_before vpn q found)))
          | inr free ↦ inr (
              inr (
                record s' { mem = written vpn q (made p f) small found },
                t',
                owner',
                rw (e, free) refl,
                ground (arith, entry_before vpn q found),
                written-IsSound vpn q (made p f) small found,
                found.top,
                found.count,
                λ x hx.
                    entry_of-written vpn q (made p f) small found x hx
                    ∙ rw (made-is_valid p f hp hf) refl,
              ))
        ]
  ]

  abbrev last_page : ℕ
  last_page =
      ppn (s.mem (ppn (s.mem t.root_ppn (Indexes.i0 (indexes vpn)))) (Indexes.i1 (indexes vpn)))

  reached :
      (w : PageTableEntry)
      → entry_of s.mem t vpn ≡ some w
      → Found start s t (Indexes.i0 (indexes vpn)) (Indexes.i1 (indexes vpn)) last_page s t owner
  reached w e =
      let i0 = Indexes.i0 (indexes vpn) in
      let i1 = Indexes.i1 (indexes vpn) in
      let first : is_valid (s.mem t.root_ppn i0) ≡ true = ground arith in
      let second : is_valid (s.mem (ppn (s.mem t.root_ppn i0)) i1) ≡ true = ground arith in
      record {
        sound = v;
        top = refl;
        owned = v.tree.to_leaf _ i0 i1 (v.tree.to_middle i0 first) second;
        valid0 = first;
        valid1 = second;
        leads = refl;
        same = λ a b c. refl;
        count = omega arith;
      }

  unmap_cases :
      (o : Option PageTableEntry)
      → entry_of s.mem t vpn ≡ o
      → Unmapped start s t owner vpn (unmap s t vpn)
  unfolding unmap
  unmap_cases none e = inl (ground arith, e)
  unmap_cases (some w) e = inr (
    record s { mem = written vpn last_page 0 small (reached w e) },
    w,
    ground arith,
    e,
    written-IsSound vpn last_page 0 small (reached w e),
    λ x hx. entry_of-written vpn last_page 0 small (reached w e) x hx ∙ rw not-is_valid-empty refl,
  )

  -- On a sound page table `unmap` panics exactly if the page is not mapped. Otherwise it leaves a
  -- sound table in which this page has no valid entry and every other page the entry it had.
  pub unmap_refines : Unmapped start s t owner vpn (unmap s t vpn)
  unmap_refines = unmap_cases (entry_of s.mem t vpn) refl

  -- `translate` shows the valid entry of a page, where there is one.
  pub translate-entry_of :
      (w : PageTableEntry)
      → (entry_of s.mem t vpn ≡ some w) ↔ (translate s.mem t vpn ≡ some w) × (is_valid w ≡ true)
  unfolding translate
  translate-entry_of w = (λ e. ground arith, λ e. ground arith)
