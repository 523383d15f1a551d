-- ===== src/Mm/MapArea/Mapping.antt =====
-- What mapping the pages of a framed area does, in `map` and in `append_to`.
use bitos.Base.{
  ℕ, zero, suc, ◌+◌, ◌-◌, ◌*◌, ◌^◌, ◌≤◌, ◌<◌, ◌≡◌, refl, ◌∙◌, arith, true, false, none, some, List,
  ◌==◌, Outcome, returned, leb, Bool-cases, ◌⊎◌, inl, inr,
}
use bitos.Mm.Address.{PhysPageNum, VirtPageNum, new_range, step}
use bitos.Mm.FrameAllocator.{Frames}
use bitos.Mm.FrameAllocator.Views.{free_count}
use bitos.Mm.PageTable.{PageTable}
use bitos.Mm.PageTable.Tree.{Owner}
use bitos.Mm.PageTable.Walk.{IsSound}
use bitos.Mm.PageTable.Found.{entry_of, set_entry}
use bitos.Mm.PageTable.Mapping.{made}
use bitos.Mm.MapArea.{
  MapArea, MapType, framed, take_frame, drop_frame, map_one, map_pages, append_to,
}
use bitos.Mm.MapArea
use bitos.Mm.MapArea.Page.{held, held-cons, holding, map_one-Added}

-- What mapping `n` pages from `vpn` on leaves: each has an entry with the permissions of the area, which
-- leads to the frame that the area holds for it, and nothing else changed.
pub record Filled (s : Frames) (t : PageTable) (a : MapArea) (n vpn : ℕ) (s' : Frames)
    (t' : PageTable) (frames' : List (VirtPageNum × PhysPageNum)) : Type 0 where
  pub top : t'.root_ppn ≡ t.root_ppn
  pub inside :
      (x : ℕ)
      → vpn ≤ x
      → x < vpn + n
      → (f : ℕ) × (held frames' x ≡ some f) × (entry_of s'.mem t' x ≡ some (made f a.map_perm))
  pub outside :
      (x : ℕ)
      → x < 2 ^ 27
      → (x < vpn) ⊎ (vpn + n ≤ x)
      → (held frames' x ≡ held a.data_frames x) × (entry_of s'.mem t' x ≡ entry_of s.mem t x)
  pub count : free_count s.allocator ≤ free_count s'.allocator + 3 * n

-- The pages are neither mapped nor held yet.
abbrev pub Vacant : Frames → PageTable → MapArea → (n vpn : ℕ) → Type 0
Vacant s t a n vpn =
    (x : ℕ) → vpn ≤ x → x < vpn + n → (held a.data_frames x ≡ none) × (entry_of s.mem t x ≡ none)

step_small : (vpn : ℕ) → vpn < 2 ^ 27 → step vpn ≡ suc vpn
unfolding step
step_small vpn h = omega arith

Vacant-later :
    (s s' : Frames) (t t' : PageTable) (a : MapArea) (n vpn f : ℕ)
    → suc vpn + n ≤ 2 ^ 27
    → Vacant s t a (suc n) vpn
    → ((x : ℕ)
        → x < 2 ^ 27
        → entry_of s'.mem t' x ≡ set_entry (entry_of s.mem t) vpn (some (made f a.map_perm)) x)
    → Vacant s' t' (holding a vpn f) n (suc vpn)
Vacant-later s s' t t' a n vpn f small vacant entries x lo hi =
    let (h, e) = vacant x (omega arith) (omega arith) in
    let differ : (x == vpn) ≡ false = ground arith in
    (held-cons a.data_frames vpn f x ∙ ground (arith, h), entries x (omega arith) ∙ rw differ e)

Filled-later :
    {s s1 s' : Frames} {t t1 t' : PageTable} (a : MapArea)
    {frames' : List (VirtPageNum × PhysPageNum)} (n vpn f : ℕ)
    → vpn < 2 ^ 27
    → t1.root_ppn ≡ t.root_ppn
    → free_count s.allocator ≤ free_count s1.allocator + 3
    → ((x : ℕ)
        → x < 2 ^ 27
        → entry_of s1.mem t1 x ≡ set_entry (entry_of s.mem t) vpn (some (made f a.map_perm)) x)
    → Filled s1 t1 (holding a vpn f) n (suc vpn) s' t' frames'
    → Filled s t a (suc n) vpn s' t' frames'
Filled-later {s} {t} a n vpn f small top count entries later = record {
  top = later.top ∙ top;
  inside = λ x lo hi. elim (Bool-cases (x == vpn)) [
    | inl here ↦
        let (h, e) = later.outside x (ground (arith, small)) (inl (ground arith)) in
        (
          f,
          h ∙ held-cons a.data_frames vpn f x ∙ ground arith,
          e ∙ entries x (ground (arith, small)) ∙ rw here refl,
        )
    | inr there ↦ later.inside x (ground arith) (omega arith)
  ];
  outside = λ x hx apart.
      let differ : (x == vpn) ≡ false = ground arith in
      let (h, e) = later.outside x hx (ground arith) in
      (h ∙ held-cons a.data_frames vpn f x ∙ ground arith, e ∙ entries x hx ∙ rw differ refl);
  count = omega (arith, count, later.count);
}

abbrev pub Fills :
    ℕ → Frames → PageTable → MapArea → (n vpn : ℕ) → Outcome (Frames × PageTable × MapArea) → Type 0
Fills start s t a n vpn o =
    (s' : Frames) × (t' : PageTable) × (frames' : List (VirtPageNum × PhysPageNum))
    × (owner' : Owner) × (o ≡ returned (s', t', record a { data_frames = frames' }))
    × IsSound start s' t' owner'
    × Filled s t a n vpn s' t' frames'

map_pages-Fills :
    (n vpn : ℕ) (a : MapArea) {start : ℕ} {s : Frames} {t : PageTable} {owner : Owner}
    (v : IsSound start s t owner)
    → vpn + n ≤ 2 ^ 27
    → a.map_type ≡ framed
    → a.map_perm < 2 ^ 8
    → Vacant s t a n vpn
    → 3 * n ≤ free_count s.allocator
    → Fills start s t a n vpn (map_pages n s t a vpn)
unfolding map_pages
map_pages-Fills zero vpn a {s} {t} {owner} v small kind byte vacant many = (
  s,
  t,
  a.data_frames,
  owner,
  refl,
  v,
  record {
    top = refl;
    inside = λ x lo hi. absurd (omega arith);
    outside = λ x hx apart. (refl, refl);
    count = omega arith;
  },
)
map_pages-Fills (suc n) vpn a {start} {s} {t} {owner} v small kind byte vacant many =
    let (absent, unmapped) = vacant vpn (omega arith) (omega arith) in
    let (f, s1, t1, owner1, e, sound, top, count, entries) =
      map_one-Added v a vpn (omega arith) kind byte absent unmapped (omega arith) in
    let (s', t', frames', owner', e', sound', later) =
      map_pages-Fills n (suc vpn) (holding a vpn f) sound (omega arith) kind byte
        (Vacant-later s s1 t t1 a n vpn f (omega arith) vacant entries) (omega (arith, count)) in
    (
      s',
      t',
      frames',
      owner',
      rw (map_pages, e, step_small vpn (omega arith)) e',
      sound',
      Filled-later a n vpn f (omega arith) top count entries later,
    )

-- Over a sound page table, `map` of a framed area returns, if its pages are in order and within 27 bits, its
-- permissions are a byte, no page of it is mapped or held, and three frames are free for each page. Then
-- the page table is sound with the same root, each page of the area has an entry with the permissions
-- of the area, which leads to the frame that the area now holds for it, all other pages of 27 bits are
-- as before, and at most three frames more for each page are in use.
pub map-Fills :
    {start : ℕ} {s : Frames} {t : PageTable} {owner : Owner} (v : IsSound start s t owner)
    (a : MapArea)
    → a.vpn_range.l ≤ a.vpn_range.r
    → a.vpn_range.r ≤ 2 ^ 27
    → a.map_type ≡ framed
    → a.map_perm < 2 ^ 8
    → Vacant s t a (a.vpn_range.r - a.vpn_range.l) a.vpn_range.l
    → 3 * (a.vpn_range.r - a.vpn_range.l) ≤ free_count s.allocator
    → Fills start s t a (a.vpn_range.r - a.vpn_range.l) a.vpn_range.l (MapArea.map s t a)
unfolding MapArea.map
map-Fills v a ordered small kind byte vacant many =
    map_pages-Fills (a.vpn_range.r - a.vpn_range.l) a.vpn_range.l a v (omega arith) kind byte vacant
      many

-- Under the same conditions on the pages from the old end of a framed area to the new one, `append_to` maps
-- these pages likewise, and the area then ends at the new end.
pub append_to-Filled :
    {start : ℕ} {s : Frames} {t : PageTable} {owner : Owner} (v : IsSound start s t owner)
    (a : MapArea) (new_end : ℕ)
    → a.vpn_range.l ≤ a.vpn_range.r
    → a.vpn_range.r ≤ new_end
    → new_end ≤ 2 ^ 27
    → a.map_type ≡ framed
    → a.map_perm < 2 ^ 8
    → Vacant s t a (new_end - a.vpn_range.r) a.vpn_range.r
    → 3 * (new_end - a.vpn_range.r) ≤ free_count s.allocator
    → (s' : Frames) × (t' : PageTable) × (frames' : List (VirtPageNum × PhysPageNum))
      × (owner' : Owner) × (append_to s t a new_end
          ≡ returned (
            s',
            t',
            record a {
              data_frames = frames';
              vpn_range = record { l = a.vpn_range.l; r = new_end };
            },
          ))
      × IsSound start s' t' owner'
      × Filled s t a (new_end - a.vpn_range.r) a.vpn_range.r s' t' frames'
unfolding append_to new_range
append_to-Filled {s} {t} v a new_end ordered later small kind byte vacant many =
    let (s', t', frames', owner', e, sound, filled) =
      map_pages-Fills (new_end - a.vpn_range.r) a.vpn_range.r a v (omega arith) kind byte vacant
        many in
    let test1 : leb a.vpn_range.r new_end ≡ true = ground arith in
    let test2 : leb a.vpn_range.l new_end ≡ true = ground arith in
    (s', t', frames', owner', rw (append_to, test1, e, test2) refl, sound, filled)
