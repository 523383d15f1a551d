-- ===== src/Mm/FrameAllocator/Views.antt =====
-- The allocator as the set of its free frames.
use bitos.Base.{
  ℕ, ◌+◌, ◌-◌, ◌%◌, ◌^◌, ◌≤◌, ◌<◌, ◌≡◌, ◌⊎◌, inl, inr, refl, ap, ◌∙◌, arith, Bool, true, false,
  ◌||◌, ◌&&◌, Option, none, some, List, [], ◌∷◌, ◌==◌, ltb, leb, Outcome, returned, panicked,
  contains, Bool-cases, ne_of_==, eq_of_==, length,
}
use bitos.Base.Between.{Between, update}
use bitos.Mm.Address.{phys_page_num_from}
use bitos.Mm.Address.Pages.{phys_page_num_from-eq-mod}
use bitos.Mm.FrameAllocator.{
  StackFrameAllocator, alloc, alloc_fresh, dealloc, Frames, frame_alloc, clear_frame,
}

-- The frames from `start` on are managed.
pub record IsValid (start : ℕ) (a : StackFrameAllocator) : Type 0 where
  pub low : start ≤ a.current
  pub high : a.current ≤ a.end
  pub fits : a.end ≤ 2 ^ 44
  pub known : Between start a.current a.recycled

abbrev pub is_free : StackFrameAllocator → ℕ → Bool
is_free a p = contains p a.recycled || (leb a.current p && ltb p a.end)

abbrev pub free_count : StackFrameAllocator → ℕ
free_count a = length a.recycled + (a.end - a.current)

page_num_fits : (p : ℕ) → p < 2 ^ 44 → phys_page_num_from p ≡ p
page_num_fits p h = omega (arith, phys_page_num_from-eq-mod p)

unfoldable pub Taken : ℕ → StackFrameAllocator → Option ℕ × StackFrameAllocator → Type 0
Taken start a (none, a') = (a' ≡ a) × ((p : ℕ) → is_free a p ≡ false) × (free_count a ≡ 0)
Taken start a (some p, a') =
    (start ≤ p)
    × (p < a.end)
    × (is_free a p ≡ true)
    × ((q : ℕ) → is_free a' q ≡ update (is_free a) p false q)
    × IsValid start a'
    × (free_count a' + 1 ≡ free_count a)

abbrev stack : ℕ → ℕ → List ℕ → StackFrameAllocator
stack c e xs = record { current = c; end = e; recycled = xs }

alloc_fresh-Taken :
    (start c e : ℕ)
    → IsValid start (stack c e [])
    → Taken start (stack c e []) (alloc_fresh (stack c e []))
unfolding alloc_fresh Taken
alloc_fresh-Taken start c e v = elim (Bool-cases (c == e)) [
  | inl full ↦ rw full (refl, (λ p. ground arith), omega (arith, eq_of_== c e full))
  | inr more ↦
      let room : c < e = omega (arith, v.high, ne_of_== c e more) in
      let next : (c + 1) % 2 ^ 64 ≡ c + 1 = omega (arith, v.fits) in
      let back : (c + 1 + 2 ^ 64 - 1) % 2 ^ 64 ≡ c = omega (arith, v.fits) in
      let page = page_num_fits c (omega (arith, v.fits)) in
      rw (more, next, back, page)
        (
          v.low,
          room,
          ground arith,
          (λ q. ground arith),
          record { low = omega (arith, v.low); high = omega arith; fits = v.fits; known = tt },
          omega arith,
        )
]

alloc-Taken :
    (start c e : ℕ) (xs : List ℕ)
    → IsValid start (stack c e xs)
    → Taken start (stack c e xs) (alloc (stack c e xs))
unfolding alloc Taken
alloc-Taken start c e [] v = alloc_fresh-Taken start c e v
alloc-Taken start c e (x ∷ xs) v =
    let page = page_num_fits x (omega (arith, v.known.1, v.high, v.fits)) in
    rw page (
      v.known.0,
      omega (arith, v.known.1, v.high),
      ground arith,
      (λ q. ground (arith, v.known)),
      record { low = v.low; high = v.high; fits = v.fits; known = v.known.3 },
      omega arith,
    )

-- On a valid allocator `alloc` fails exactly when no frame is free, and then changes nothing.
-- Otherwise it hands out a free frame of the managed range, which is free no longer, while every
-- other frame is as free as before; there is one free frame less, and the allocator stays valid.
pub alloc-is_free :
    {start : ℕ} {a : StackFrameAllocator} → IsValid start a → Taken start a (alloc a)
alloc-is_free {start} {a} v = alloc-Taken start a.current a.end a.recycled v

unfoldable pub Given : ℕ → StackFrameAllocator → ℕ → Outcome StackFrameAllocator → Type 0
Given start a p panicked = (is_free a p ≡ true) ⊎ (a.end ≤ p)
Given start a p (returned a') =
    (is_free a p ≡ false)
    × (p < a.end)
    × ((q : ℕ) → is_free a' q ≡ update (is_free a) p true q)
    × (start ≤ p → IsValid start a')

-- On a valid allocator `dealloc` panics exactly when the frame is free already or lies beyond the
-- end. Otherwise the frame becomes free, every other frame is as free as before, and the allocator
-- stays valid if the frame is one that it manages.
pub dealloc-is_free :
    {start : ℕ} {a : StackFrameAllocator} (p : ℕ) → IsValid start a → Given start a p (dealloc a p)
unfolding dealloc Given
dealloc-is_free {start} {a} p v = elim (Bool-cases (leb a.current p || contains p a.recycled)) [
  | inl refused ↦ rw refused (ground arith)
  | inr taken ↦ rw taken (
    ground (arith, v.high),
    ground (arith, v.high),
    (λ q. ground arith),
    λ s. record {
      low = v.low;
      high = v.high;
      fits = v.fits;
      known = (s, ground arith, ground arith, v.known);
    },
  )
]

-- A frame that is given back is the next one to be handed out, and the allocator is then as before.
pub alloc-dealloc :
    {start : ℕ} {a a' : StackFrameAllocator} (p : ℕ)
    → IsValid start a
    → dealloc a p ≡ returned a'
    → alloc a' ≡ (some p, a)
unfolding dealloc alloc
alloc-dealloc {a} p v h = ground (arith, page_num_fits p)

-- A frame that `frame_alloc` handed out, and what is left.
pub record Granted (start : ℕ) (s : Frames) (f : ℕ) (s' : Frames) : Type 0 where
  pub grants : frame_alloc s ≡ (some f, s')
  pub cleared : s'.mem ≡ clear_frame s.mem f
  pub page : f < 2 ^ 44
  pub was_free : is_free s.allocator f ≡ true
  pub now_free : (q : ℕ) → is_free s'.allocator q ≡ update (is_free s.allocator) f false q
  pub valid : IsValid start s'.allocator
  pub count : free_count s'.allocator + 1 ≡ free_count s.allocator

abbrev pub Grant : ℕ → Frames → Type 0
Grant start s =
    ((frame_alloc s ≡ (none, s)) × (free_count s.allocator ≡ 0))
    ⊎ ((f : ℕ) × (s' : Frames) × Granted start s f s')

frame_alloc_cases :
    {start : ℕ} (s : Frames) (r : Option ℕ × StackFrameAllocator)
    → IsValid start s.allocator
    → alloc s.allocator ≡ r
    → Taken start s.allocator r
    → Grant start s
unfolding frame_alloc Taken
frame_alloc_cases s (none, a') v e (same, _, count) = inl (ground arith, count)
frame_alloc_cases s (some f, a') v e (low, high, was, now, valid, count) = inr (
  f,
  record { allocator = a'; mem = clear_frame s.mem f },
  record {
    grants = ground arith;
    cleared = refl;
    page = omega (arith, v.fits);
    was_free = was;
    now_free = now;
    valid = valid;
    count = count;
  },
)

-- With a valid allocator `frame_alloc` fails exactly when no frame is free, and changes nothing
-- then. Otherwise it hands out a free frame cleared to zeros, leaves the memory of all others, and
-- exactly that frame is free no longer.
pub frame_alloc-Grant : {start : ℕ} (s : Frames) → IsValid start s.allocator → Grant start s
frame_alloc-Grant s v = frame_alloc_cases s (alloc s.allocator) v refl (alloc-is_free v)

alloc-end : (c e : ℕ) (xs : List ℕ) → (alloc (stack c e xs)).1.end ≡ e
unfolding alloc alloc_fresh
alloc-end c e [] = elim (Bool-cases (c == e)) [ inl full ↦ rw full refl | inr more ↦ rw more refl ]
alloc-end c e (x ∷ xs) = refl

frame_alloc-end_of :
    (s : Frames) (r : Option ℕ × StackFrameAllocator)
    → alloc s.allocator ≡ r
    → (frame_alloc s).1.allocator.end ≡ r.1.end
unfolding frame_alloc
frame_alloc-end_of s (none, a) e =
    rw (frame_alloc, e) (ap (λ (r : Option ℕ × StackFrameAllocator). r.1.end) e)
frame_alloc-end_of s (some f, a) e =
    rw (frame_alloc, e) (ap (λ (r : Option ℕ × StackFrameAllocator). r.1.end) e)

-- No call moves the end of the managed frames.
pub frame_alloc-end : (s : Frames) → (frame_alloc s).1.allocator.end ≡ s.allocator.end
frame_alloc-end s =
    frame_alloc-end_of s (alloc s.allocator) refl
    ∙ alloc-end s.allocator.current s.allocator.end s.allocator.recycled
