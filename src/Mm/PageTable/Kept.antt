-- ===== src/Mm/PageTable/Kept.antt =====
-- `map` takes frames and gives none back.
use bitos.Base.{
  ℕ, ◌≡◌, inl, inr, refl, sym, ap, subst, ◌∙◌, arith, false, Bool-cases, Option, Outcome, returned,
  panicked, >>=-eq-returned, assert, not,
}
use bitos.Mm.Address.{PhysPageNum, indexes}
use bitos.Mm.FrameAllocator.{StackFrameAllocator, Frames}
use bitos.Mm.FrameAllocator.Views.{IsValid, is_free, Granted, frame_alloc-Grant, frame_alloc-end}
use bitos.Mm.PageTableEntry.{is_valid, ppn}
use bitos.Mm.PageTable.{PageTable, Place, descend_create, find_pte_create, map}

-- What is in use stays in use, of the same frames.
pub record Kept (start : ℕ) (a a' : StackFrameAllocator) : Type 0 where
  pub valid : IsValid start a'
  pub used : (x : ℕ) → is_free a x ≡ false → is_free a' x ≡ false
  pub end : a'.end ≡ a.end

Kept-then :
    {start : ℕ} {a b c : StackFrameAllocator} → Kept start a b → Kept start b c → Kept start a c
Kept-then k l = record { valid = l.valid; used = λ x u. l.used x (k.used x u); end = l.end ∙ k.end }

Kept-refl : {start : ℕ} {a : StackFrameAllocator} → IsValid start a → Kept start a a
Kept-refl v = record { valid = v; used = λ x u. u; end = refl }

frame_alloc-Kept :
    {start : ℕ} (s : Frames) (f : ℕ) (s' : Frames)
    → Granted start s f s'
    → Kept start s.allocator s'.allocator
frame_alloc-Kept s f s' g = record {
  valid = g.valid;
  used = λ x u. ground (arith, g.now_free x, u);
  end = ap (λ (r : Option ℕ × Frames). r.1.allocator.end) (sym g.grants) ∙ frame_alloc-end s;
}

-- The allocator that a walk leaves.
abbrev left_by {ℓ κ} :
    {A : Type ℓ} {B : Type κ} → StackFrameAllocator → Outcome (A × Frames × B) → StackFrameAllocator
left_by a panicked = a
left_by a (returned (_, s, _)) = s.allocator

descend_create-Kept :
    {start : ℕ} (s : Frames) (t : PageTable) (place : Place) (q : PhysPageNum) (s' : Frames)
    (t' : PageTable)
    → IsValid start s.allocator
    → descend_create s t place ≡ returned (q, s', t')
    → Kept start s.allocator s'.allocator
unfolding descend_create
descend_create-Kept {start} s t (p, i) q s' t' v e = elim (Bool-cases (is_valid (s.mem p i))) [
  | inl there ↦
      subst (λ (a : StackFrameAllocator). Kept start s.allocator a)
        (sym (
            ap (left_by s.allocator) (
              let z : descend_create s t (p, i) ≡ returned (ppn (s.mem p i), s, t) =
                rw there refl in
              z))
          ∙ ap (left_by s.allocator) e)
        (Kept-refl v)
  | inr missing ↦ elim (frame_alloc-Grant s v) [
    | inl (g, _) ↦
        absurd (cc (let z : descend_create s t (p, i) ≡ panicked = rw (missing, g) refl in z, e))
    | inr (f, s1, g) ↦
        subst (λ (a : StackFrameAllocator). Kept start s.allocator a)
          (sym (
              let z : left_by s.allocator (descend_create s t (p, i)) ≡ s1.allocator =
                rw (missing, g.grants) refl in
              z)
            ∙ ap (left_by s.allocator) e)
          (frame_alloc-Kept s f s1 g)
  ]
]

find_pte_create-Kept :
    {start : ℕ} (s : Frames) (t : PageTable) (vpn : ℕ) (place : Place) (s' : Frames)
    (t' : PageTable)
    → IsValid start s.allocator
    → find_pte_create s t vpn ≡ returned (place, s', t')
    → Kept start s.allocator s'.allocator
unfolding find_pte_create
find_pte_create-Kept {start} s t vpn place s' t' v e =
    let idxs = indexes vpn in
    let ((p1, s1, t1), e1, rest) = >>=-eq-returned (descend_create s t (t.root_ppn, idxs.i0)) _ e in
    let ((p2, s2, t2), e2, last) = >>=-eq-returned (descend_create s1 t1 (p1, idxs.i1)) _ rest in
    let first = descend_create-Kept s t (t.root_ppn, idxs.i0) p1 s1 t1 v e1 in
    let second = descend_create-Kept s1 t1 (p1, idxs.i1) p2 s2 t2 first.valid e2 in
    subst (λ (a : StackFrameAllocator). Kept start s.allocator a) (ap (left_by s.allocator) last)
      (Kept-then first second)

pub map-Kept :
    {start : ℕ} (s : Frames) (t : PageTable) (vpn p f : ℕ) (s' : Frames) (t' : PageTable)
    → IsValid start s.allocator
    → map s t vpn p f ≡ returned (s', t')
    → Kept start s.allocator s'.allocator
unfolding map
map-Kept {start} s t vpn p f s' t' v e =
    let ((place, s1, t1), e1, rest) = >>=-eq-returned (find_pte_create s t vpn) _ e in
    let (_, _, done) = >>=-eq-returned (assert (not (is_valid (s1.mem place.0 place.1)))) _ rest in
    let walked = find_pte_create-Kept s t vpn place s1 t1 v e1 in
    subst (λ (a : StackFrameAllocator). Kept start s.allocator a)
      (ap
        (λ (o : Outcome (Frames × PageTable)). elim o [
          | panicked ↦ s.allocator
          | returned (s, _) ↦ s.allocator
        ])
        done)
      walked
