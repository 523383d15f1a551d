-- ===== src/Task/Mmap/Dropping.antt =====
-- What becomes of the frame that `sys_mmap` maps a page to.
use bitos.Base.{
  ℕ, ◌^◌, ◌≤◌, ◌<◌, ◌≡◌, ◌⊎◌, inl, inr, refl, sym, ap, ◌∙◌, arith, true, false, Bool-cases,
  contains, ==_self, Option, none, some, Outcome, returned, panicked,
}
use bitos.Base.Between.{contains_bounds}
use bitos.Mm.FrameAllocator.{StackFrameAllocator, Frames, frame_alloc, frame_dealloc, dealloc}
use bitos.Mm.FrameAllocator.Views.{
  IsValid, is_free, free_count, Given, dealloc-is_free, frame_alloc-Grant, frame_alloc-end,
}
use bitos.Mm.PageTableEntry.{PageTableEntry, is_valid}
use bitos.Mm.PageTable.{translate}
use bitos.Mm.PageTable.Tree.{Owner}
use bitos.Mm.PageTable.Walk.{IsSound}
use bitos.Mm.PageTable.Found.{entry_of}
use bitos.Mm.PageTable.Mapping.{made, map_refines}
use bitos.Mm.PageTable.Kept.{map-Kept}
use bitos.Mm.MapArea.Page.{frame_alloc-IsSound, frame_alloc-entry_of}
use bitos.Mm.MemorySet
use bitos.Mm.MemorySet.{MemorySet}
use bitos.Task.Mmap.{mmap_one, mmap_pages}
use bitos.Task.Mmap.Rounds.{translate-from_token, invalid}

-- Giving a frame back that is in use.
abbrev Freed : StackFrameAllocator → ℕ → Type 0
Freed a f = (a' : StackFrameAllocator) × (dealloc a f ≡ returned a') × (is_free a' f ≡ true)

Freed-Given :
    (start : ℕ) (a : StackFrameAllocator) (f : ℕ) (o : Outcome StackFrameAllocator)
    → is_free a f ≡ false
    → f < a.end
    → dealloc a f ≡ o
    → Given start a f o
    → Freed a f
unfolding Given
Freed-Given start a f panicked used low e (inl taken) = absurd (cc (used, taken))
Freed-Given start a f panicked used low e (inr high) = absurd (omega (arith, high, low))
Freed-Given start a f (returned a') used low e (_, _, frees, _) =
    (a', e, frees f ∙ rw (==_self f) refl)

is_free-low :
    {start : ℕ} (a : StackFrameAllocator) (f : ℕ) → IsValid start a → is_free a f ≡ true → f < a.end
is_free-low {start} a f v free = elim (Bool-cases (contains f a.recycled)) [
  | inl again ↦ omega (arith, contains_bounds start a.current a.recycled f v.known again, v.high)
  | inr fresh ↦ ground arith
]

-- One page that is not mapped.
mmap_one-Freed :
    {start : ℕ} {owner : Owner} (s : Frames) (m : MemorySet) (vpn f flag : ℕ)
    → IsSound start s m.page_table owner
    → is_free s.allocator f ≡ false
    → f < s.allocator.end
    → f < 2 ^ 44
    → vpn < 2 ^ 27
    → flag < 2 ^ 8
    → entry_of s.mem m.page_table vpn ≡ none
    → 2 ≤ free_count s.allocator
    → (s' : Frames) × (m' : MemorySet) × (mmap_one s m vpn f flag ≡ returned (s', m'))
      × (entry_of s'.mem m'.page_table vpn ≡ some (made f flag))
      × (is_free s'.allocator f ≡ true)
unfolding mmap_one MemorySet.map frame_dealloc
mmap_one-Freed s m vpn f flag v used low page small byte gone many =
    elim (map_refines v vpn small f flag page byte) [
      | inl (_, taken) ↦ absurd (taken gone)
      | inr (inl (_, few)) ↦ absurd (omega (arith, few, many))
      | inr (inr (s1, t1, owner1, e, _, sound, _, _, entries)) ↦
          let kept = map-Kept s m.page_table vpn f flag s1 t1 v.allocator e in
          let (a', freed, free) =
            Freed-Given _ s1.allocator f (dealloc s1.allocator f) (kept.used f used)
              (omega (arith, kept.end, low)) refl (dealloc-is_free f kept.valid) in
          (
            record s1 { allocator = a' },
            record m { page_table = t1 },
            rw (e, freed) refl,
            entries vpn small ∙ rw (==_self vpn) refl,
            free,
          )
    ]

-- A round for a page that is not mapped.
mmap_round :
    (f : ℕ) (s s1 s' : Frames) (m m' : MemorySet) (vpn flag : ℕ)
    → m.page_table.root_ppn < 2 ^ 44
    → frame_alloc s ≡ (some f, s1)
    → (translate s1.mem m.page_table vpn ≡ none)
      ⊎ ((e : PageTableEntry) × (translate s1.mem m.page_table vpn ≡ some e) × (is_valid e ≡ false))
    → mmap_one s1 m vpn f flag ≡ returned (s', m')
    → mmap_pages 1 (MemorySet.token m) s m vpn flag ≡ returned (true, s', m')
unfolding mmap_pages MemorySet.token
mmap_round f s s1 s' m m' vpn flag root got (inl missing) e =
    rw
      (
        got,
        translate-from_token s1.mem m.page_table vpn root,
        missing,
        ap (λ (r : Option ℕ × Frames). mmap_one r.1 m vpn f flag) got ∙ e,
      )
      refl
mmap_round f s s1 s' m m' vpn flag root got (inr (w, found, bad)) e =
    rw
      (
        got,
        translate-from_token s1.mem m.page_table vpn root,
        found,
        bad,
        ap (λ (r : Option ℕ × Frames). mmap_one r.1 m vpn f flag) got ∙ e,
      )
      refl

module _ {start : ℕ} {owner : Owner} (s : Frames) (m : MemorySet) (vpn flag : ℕ)
    (v : IsSound start s m.page_table owner) where
  -- A page that is not mapped is mapped by a round of the loop of `sys_mmap`, with three frames free, to a
  -- frame that is given back to the allocator at once: the page then leads to a frame that the allocator takes
  -- as free.
  pub mmap_pages-Freed :
      m.page_table.root_ppn < 2 ^ 44
      → vpn < 2 ^ 27
      → flag < 2 ^ 8
      → entry_of s.mem m.page_table vpn ≡ none
      → 3 ≤ free_count s.allocator
      → (f : ℕ) × (s' : Frames) × (m' : MemorySet) × (mmap_pages 1 (MemorySet.token m) s m vpn flag
          ≡ returned (true, s', m'))
        × (entry_of s'.mem m'.page_table vpn ≡ some (made f flag))
        × (is_free s'.allocator f ≡ true)
  mmap_pages-Freed root small byte gone many = elim (frame_alloc-Grant s v.allocator) [
    | inl (_, nothing) ↦ absurd (omega (arith, nothing, many))
    | inr (f, s1, g) ↦
        let v1 = frame_alloc-IsSound v f s1 g in
        let gone1 = frame_alloc-entry_of v f s1 g vpn ∙ gone in
        let (s', m', e, entry, free) =
          mmap_one-Freed s1 m vpn f flag v1 (g.now_free f ∙ rw (==_self f) refl)
            (omega (
              arith,
              is_free-low s.allocator f v.allocator g.was_free,
              ap (λ (r : Option ℕ × Frames). r.1.allocator.end) (sym g.grants) ∙ frame_alloc-end s,
            ))
            g.page small byte gone1 (omega (arith, g.count, many)) in
        (
          f,
          s',
          m',
          mmap_round f s s1 s' m m' vpn flag root g.grants (invalid v1 vpn small gone1) e,
          entry,
          free,
        )
  ]
