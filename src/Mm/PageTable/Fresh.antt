-- ===== src/Mm/PageTable/Fresh.antt =====
-- A new page table.
use bitos.Base.{
  ℕ, ◌≡◌, refl, arith, none, some, [], ◌∷◌, ◌==◌, if◌then◌else◌, Outcome, returned, panicked, inl,
  inr, ◌⊎◌,
}
use bitos.Mm.FrameAllocator.{Frames, clear_frame}
use bitos.Mm.FrameAllocator.Views.{IsValid, free_count, Granted, frame_alloc-Grant}
use bitos.Mm.PageTableEntry.Fields.{not-is_valid-empty}
use bitos.Mm.PageTable.{PageTable, new}
use bitos.Mm.PageTable.Tree.{Owner, root}
use bitos.Mm.PageTable.Walk.{IsSound}
use bitos.Mm.PageTable.Found.{entry_of}

abbrev root_only : ℕ → Owner
root_only f p = if p == f then some root else none

-- How `PageTable::new` ends.
abbrev pub New : (start : ℕ) → Frames → Outcome (PageTable × Frames) → Type 0
New start s o =
    ((o ≡ panicked) × (free_count s.allocator ≡ 0))
    ⊎ ((t : PageTable) × (s' : Frames) × (owner : Owner) × (o ≡ returned (t, s'))
        × IsSound start s' t owner
        × ((vpn : ℕ) → entry_of s'.mem t vpn ≡ none))

module _ {start : ℕ} (s : Frames) (v : IsValid start s.allocator) where
  granted : (f : ℕ) (s' : Frames) → Granted start s f s' → New start s (new s)
  unfolding new clear_frame
  granted f s' g = inr (
    record { root_ppn = f; frames = f ∷ [] },
    s',
    root_only f,
    rw g.grants refl,
    record {
      allocator = g.valid;
      tree = rw g.cleared (record {
        at_root = ground arith;
        to_middle = λ i. ground (arith, not-is_valid-empty);
        to_leaf = λ p i j. ground (arith, not-is_valid-empty);
      });
      apart = λ p free. ground (arith, g.now_free p);
    },
    λ vpn. rw g.cleared (ground (arith, not-is_valid-empty)),
  )

  -- On a valid allocator `PageTable::new` panics exactly if no frame is free. Otherwise it makes a
  -- sound page table that maps nothing.
  pub new-IsSound : New start s (new s)
  unfolding new
  new-IsSound = elim (frame_alloc-Grant s v) [
    | inl (e, none_left) ↦ inl (rw e refl, none_left)
    | inr (f, s', g) ↦ granted f s' g
  ]
