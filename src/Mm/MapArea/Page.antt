-- ===== src/Mm/MapArea/Page.antt =====
-- What mapping one page of a framed area does to the page table and to the frames.
use bitos.Base.{
  ℕ, ◌+◌, ◌^◌, ◌≤◌, ◌<◌, ◌≡◌, refl, ap, ◌∙◌, arith, Option, none, some, List, [], ◌∷◌, ◌==◌,
  if◌then◌else◌, returned, inl, inr,
}
use bitos.Mm.Address.{PhysPageNum, VirtPageNum}
use bitos.Mm.FrameAllocator.{Frames, frame_alloc}
use bitos.Mm.FrameAllocator.Views.{free_count, Granted, frame_alloc-Grant}
use bitos.Mm.PageTable
use bitos.Mm.PageTable.{PageTable}
use bitos.Mm.PageTable.Tree.{Owner, clear-IsTree, mapped-clear}
use bitos.Mm.PageTable.Walk.{IsSound}
use bitos.Mm.PageTable.Found.{entry_of, set_entry}
use bitos.Mm.PageTable.Mapping.{made, map_refines}
use bitos.Mm.MapArea.{MapArea, framed, take_frame, drop_frame, map_one}

-- The frame that an area holds for a page.
abbrev pub held : List (VirtPageNum × PhysPageNum) → VirtPageNum → Option PhysPageNum
held frames vpn = (take_frame frames vpn).0

take_frame-absent :
    (frames : List (VirtPageNum × PhysPageNum)) (vpn : ℕ)
    → held frames vpn ≡ none
    → take_frame frames vpn ≡ (none, frames)
unfolding take_frame
take_frame-absent [] vpn h = refl
take_frame-absent ((v, f) ∷ rest) vpn h = ground (arith, take_frame-absent rest vpn)

pub held-cons :
    (frames : List (VirtPageNum × PhysPageNum)) (v f x : ℕ)
    → held ((v, f) ∷ frames) x ≡ (if v == x then some f else held frames x)
unfolding take_frame
held-cons frames v f x = ground arith

-- An area with one frame more.
abbrev pub holding : MapArea → ℕ → ℕ → MapArea
holding a vpn f = record a { data_frames = (vpn, f) ∷ a.data_frames }

module _ {start : ℕ} {s : Frames} {t : PageTable} {owner : Owner}
    (v : IsSound start s t owner) where
  pub frame_alloc-IsSound : (f : ℕ) (s' : Frames) → Granted start s f s' → IsSound start s' t owner
  frame_alloc-IsSound f s' g = record {
    allocator = g.valid;
    tree = rw g.cleared (clear-IsTree v.tree f (v.apart f g.was_free));
    apart = λ p free. v.apart p (ground (arith, g.now_free p, free));
  }

  pub frame_alloc-entry_of :
      (f : ℕ) (s' : Frames)
      → Granted start s f s'
      → (x : ℕ) → entry_of s'.mem t x ≡ entry_of s.mem t x
  frame_alloc-entry_of f s' g x = rw g.cleared (mapped-clear v.tree f (v.apart f g.was_free) _ _ _)

  map_one-returned :
      (a : MapArea) (vpn f : ℕ) (s1 s' : Frames) (t' : PageTable)
      → a.map_type ≡ framed
      → held a.data_frames vpn ≡ none
      → frame_alloc s ≡ (some f, s1)
      → PageTable.map s1 t vpn f a.map_perm ≡ returned (s', t')
      → map_one s t a vpn ≡ returned (s', t', holding a vpn f)
  unfolding map_one drop_frame
  map_one-returned a vpn f s1 s' t' kind absent got done =
      rw (map_one, kind, got, take_frame-absent a.data_frames vpn absent, done)
        (ap (λ k. returned (s', t', record (holding a vpn f) { map_type = k })) kind)

  -- What mapping one page leaves.
  abbrev pub Added : MapArea → ℕ → Type 0
  Added a vpn =
      (f : ℕ) × (s' : Frames) × (t' : PageTable) × (owner' : Owner) × (map_one s t a vpn
        ≡ returned (s', t', holding a vpn f))
      × IsSound start s' t' owner'
      × (t'.root_ppn ≡ t.root_ppn)
      × (free_count s.allocator ≤ free_count s'.allocator + 3)
      × ((x : ℕ)
          → x < 2 ^ 27
          → entry_of s'.mem t' x ≡ set_entry (entry_of s.mem t) vpn (some (made f a.map_perm)) x)

  pub map_one-Added :
      (a : MapArea) (vpn : ℕ)
      → vpn < 2 ^ 27
      → a.map_type ≡ framed
      → a.map_perm < 2 ^ 8
      → held a.data_frames vpn ≡ none
      → entry_of s.mem t vpn ≡ none
      → 3 ≤ free_count s.allocator
      → Added a vpn
  map_one-Added a vpn small kind byte absent vacant many = elim (frame_alloc-Grant s v.allocator) [
    | inl (g, none_left) ↦ absurd (omega (arith, none_left))
    | inr (f, s1, g) ↦
        elim (map_refines (frame_alloc-IsSound f s1 g) vpn small f a.map_perm g.page byte) [
          | inl (e, taken) ↦ absurd (taken (frame_alloc-entry_of f s1 g vpn ∙ vacant))
          | inr (inl (e, few)) ↦ absurd (omega (arith, few, g.count))
          | inr (inr (s', t', owner', e, was, sound, top, count, entries)) ↦ (
            f,
            s',
            t',
            owner',
            map_one-returned a vpn f s1 s' t' kind absent g.grants e,
            sound,
            top,
            omega (arith, count, g.count),
            λ x hx.
                entries x hx
                ∙ ap (λ o. if x == vpn then some (made f a.map_perm) else o)
                    (frame_alloc-entry_of f s1 g x),
          )
        ]
  ]
