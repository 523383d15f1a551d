-- ===== src/Mm/PageTable/Walk.antt =====
-- The walk of `find_pte_create` down a sound page table, round by round.
use bitos.Base.{
  ℕ, ◌+◌, ◌^◌, ◌≤◌, ◌<◌, ◌≡◌, ◌≢◌, refl, arith, true, false, none, some, [], ◌∷◌, ◌++◌, returned,
  panicked, Bool-cases, inl, inr, ◌⊎◌,
}
use bitos.Mm.FrameAllocator.{Memory, Frames, frame_alloc, clear_frame}
use bitos.Mm.FrameAllocator.Views.{IsValid, is_free, free_count, Granted, frame_alloc-Grant}
use bitos.Mm.PageTableEntry.{PageTableEntry, flag_v, is_valid, ppn}
use bitos.Mm.PageTableEntry
use bitos.Mm.PageTableEntry.Fields.{new_fields}
use bitos.Mm.PageTable.{PageTable, write, descend_create}
use bitos.Mm.PageTable.Tree.{
  Slot, Owner, IsTree, assign, mapped, middle, leaf, link_root-IsTree, mapped-link_root,
  link_middle-IsTree, mapped-link_middle,
}

-- A page table in memory, none of whose pages is free; frames from `start` on are managed.
pub record IsSound (start : ℕ) (s : Frames) (t : PageTable) (owner : Owner) : Type 0 where
  pub allocator : IsValid start s.allocator
  pub tree : IsTree s.mem t.root_ppn owner
  pub apart : (p : ℕ) → is_free s.allocator p ≡ true → owner p ≡ none

-- What a round of the walk leaves: the page it found, and the same mapping.
pub record Descended (start : ℕ) (s : Frames) (t : PageTable) (owner : Owner) (p i q : ℕ)
    (s' : Frames) (t' : PageTable) (owner' : Owner) : Type 0 where
  pub sound : IsSound start s' t' owner'
  pub top : t'.root_ppn ≡ t.root_ppn
  pub valid : is_valid (s'.mem p i) ≡ true
  pub leads : ppn (s'.mem p i) ≡ q
  pub kept : (x : ℕ) → owner x ≢ none → owner' x ≡ owner x
  pub same : (a b c : ℕ) → mapped s'.mem t'.root_ppn a b c ≡ mapped s.mem t.root_ppn a b c
  pub older : (x j : ℕ) → owner x ≢ none → is_valid (s.mem x j) ≡ true → s'.mem x j ≡ s.mem x j
  pub count : free_count s.allocator ≤ free_count s'.allocator + 1

link_facts :
    (f : ℕ)
    → f < 2 ^ 44
    → (is_valid (PageTableEntry.new f flag_v) ≡ true) × (ppn (PageTableEntry.new f flag_v) ≡ f)
link_facts f h = let r = new_fields f 1 h (omega arith) in (r.2, r.0)

module _ {start : ℕ} {s : Frames} {t : PageTable} {owner : Owner}
    (v : IsSound start s t owner) where
  abbrev pub Round : ℕ → ℕ → Owner → Type 0
  Round p i owner' =
      (q : ℕ) × (s' : Frames) × (t' : PageTable) × (descend_create s t (p, i)
        ≡ returned (q, s', t'))
      × Descended start s t owner p i q s' t' owner'

  stay : (p i : ℕ) → is_valid (s.mem p i) ≡ true → Round p i owner
  unfolding descend_create
  stay p i e = (
    ppn (s.mem p i),
    s,
    t,
    rw e refl,
    record {
      sound = v;
      top = refl;
      valid = e;
      leads = refl;
      kept = λ x h. refl;
      same = λ a b c. refl;
      older = λ x j h w. refl;
      count = omega arith;
    },
  )

  no_frame :
      (p i : ℕ)
      → is_valid (s.mem p i) ≡ false
      → frame_alloc s ≡ (none, s)
      → descend_create s t (p, i) ≡ panicked
  unfolding descend_create
  no_frame p i e g = rw (e, g) refl

  apart_after :
      (f : ℕ) (s' : Frames) (x : ℕ) (slot : Slot)
      → Granted start s f s'
      → is_free s'.allocator x ≡ true
      → assign owner f slot x ≡ none
  apart_after f s' x slot g free = ground (arith, g.now_free x, v.apart x)

  -- A round that has to make the page, below a page `p` of the table.
  module _ (p i f : ℕ) (s' : Frames) (slot : Slot) (g : Granted start s f s')
      (owned : owner p ≢ none) (vacant : is_valid (s.mem p i) ≡ false) where
    abbrev entry : ℕ
    entry = PageTableEntry.new f flag_v

    abbrev owner' : Owner
    owner' = assign owner f slot

    abbrev linked : Memory
    linked = write (clear_frame s.mem f) (p, i) entry

    linked_self : linked p i ≡ entry
    unfolding write
    linked_self = ground arith

    linked-older : (x j : ℕ) → owner x ≢ none → is_valid (s.mem x j) ≡ true → linked x j ≡ s.mem x j
    unfolding write clear_frame
    linked-older x j h w = ground (arith, v.apart f g.was_free)

    linked-kept : (x : ℕ) → owner x ≢ none → owner' x ≡ owner x
    linked-kept x h = ground (arith, v.apart f g.was_free)

    link :
        IsTree linked t.root_ppn owner'
        → ((a b c : ℕ) → mapped linked t.root_ppn a b c ≡ mapped s.mem t.root_ppn a b c)
        → Round p i owner'
    unfolding descend_create
    link tree same = (
      ppn entry,
      record s' { mem = write s'.mem (p, i) entry },
      record t { frames = t.frames ++ f ∷ [] },
      rw (vacant, g.grants) refl,
      record {
        sound = record {
          allocator = g.valid;
          tree = rw g.cleared tree;
          apart = λ x free. apart_after f s' x slot g free;
        };
        top = refl;
        valid = rw (g.cleared, linked_self) (link_facts f g.page).0;
        leads = rw (g.cleared, linked_self) refl;
        kept = linked-kept;
        same = rw g.cleared same;
        older = rw g.cleared linked-older;
        count = omega (arith, g.count);
      },
    )

  pub descend_root :
      (i : ℕ)
      → ((descend_create s t (t.root_ppn, i) ≡ panicked) × (free_count s.allocator ≡ 0))
        ⊎ ((owner' : Owner) × Round t.root_ppn i owner')
  descend_root i = elim (Bool-cases (is_valid (s.mem t.root_ppn i))) [
    | inl there ↦ inr (owner, stay t.root_ppn i there)
    | inr vacant ↦ elim (frame_alloc-Grant s v.allocator) [
      | inl (g, none_left) ↦ inl (no_frame t.root_ppn i vacant g, none_left)
      | inr (f, s', g) ↦
          let fresh : owner f ≡ none = v.apart f g.was_free in
          let (lv, ln) = link_facts f g.page in
          inr (
            assign owner f (middle i),
            link t.root_ppn i f s' (middle i) g (ground (arith, v.tree.at_root)) vacant
                (link_root-IsTree v.tree _ _ fresh lv ln i vacant)
                (λ a b c. mapped-link_root v.tree _ _ fresh lv ln i a b c vacant),
          )
    ]
  ]

  pub descend_middle :
      (p k i : ℕ)
      → owner p ≡ some (middle k)
      → ((descend_create s t (p, i) ≡ panicked) × (free_count s.allocator ≡ 0))
        ⊎ ((owner' : Owner) × Round p i owner')
  descend_middle p k i o = elim (Bool-cases (is_valid (s.mem p i))) [
    | inl there ↦ inr (owner, stay p i there)
    | inr vacant ↦ elim (frame_alloc-Grant s v.allocator) [
      | inl (g, none_left) ↦ inl (no_frame p i vacant g, none_left)
      | inr (f, s', g) ↦
          let fresh : owner f ≡ none = v.apart f g.was_free in
          let (lv, ln) = link_facts f g.page in
          inr (
            assign owner f (leaf k i),
            link p i f s' (leaf k i) g (ground arith) vacant
                (link_middle-IsTree v.tree _ _ fresh lv ln p k i o vacant)
                (λ a b c. mapped-link_middle v.tree _ _ fresh lv ln p k i a b c o vacant),
          )
    ]
  ]
