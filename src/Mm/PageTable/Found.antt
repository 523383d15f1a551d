-- ===== src/Mm/PageTable/Found.antt =====
-- Where the walks end, and the page table as a partial map from page numbers to entries.
use bitos.Base.{
  ◌+◌, ℕ, ◌^◌, ◌≤◌, ◌<◌, ◌≡◌, ◌≢◌, refl, ap, sym, ◌∙◌, arith, true, Option, none, some, ◌==◌,
  if◌then◌else◌, Outcome, returned, panicked, ne_of_==, eq_of_==, Bool-cases, inl, inr, ◌⊎◌,
}
use bitos.Mm.Address.{Indexes, indexes}
use bitos.Mm.Address.Pages.{indexes-eq-digits}
use bitos.Mm.FrameAllocator.{Memory, Frames}
use bitos.Mm.FrameAllocator.Views.{free_count}
use bitos.Mm.PageTableEntry.{PageTableEntry, is_valid, ppn}
use bitos.Mm.PageTable.{Place, PageTable, write, find_pte_create}
use bitos.Mm.PageTable.Tree.{
  Owner, mapped, root, middle, leaf, write-leaf-IsTree, mapped-write_other, mapped-write_self,
}
use bitos.Mm.PageTable.Walk.{IsSound, Descended, descend_root, descend_middle}

-- The valid entry of a page number.
abbrev pub entry_of : Memory → PageTable → ℕ → Option PageTableEntry
entry_of mem t vpn = let x = indexes vpn in mapped mem t.root_ppn x.i0 x.i1 x.i2

-- Where the walk for `vpn` ends, in a table that maps what it mapped before.
pub record Found (start : ℕ) (s : Frames) (t : PageTable) (i0 i1 : ℕ) (p : ℕ) (s' : Frames)
    (t' : PageTable) (owner' : Owner) : Type 0 where
  pub sound : IsSound start s' t' owner'
  pub top : t'.root_ppn ≡ t.root_ppn
  pub owned : owner' p ≡ some (leaf i0 i1)
  pub valid0 : is_valid (s'.mem t'.root_ppn i0) ≡ true
  pub valid1 : is_valid (s'.mem (ppn (s'.mem t'.root_ppn i0)) i1) ≡ true
  pub leads : ppn (s'.mem (ppn (s'.mem t'.root_ppn i0)) i1) ≡ p
  pub same : (a b c : ℕ) → mapped s'.mem t'.root_ppn a b c ≡ mapped s.mem t.root_ppn a b c
  pub count : free_count s.allocator ≤ free_count s'.allocator + 2

module _ {start : ℕ} {s : Frames} {t : PageTable} {owner : Owner}
    (v : IsSound start s t owner) where
  first_middle :
      {i0 p1 : ℕ} {s1 : Frames} {t1 : PageTable} {owner1 : Owner}
      → Descended start s t owner t.root_ppn i0 p1 s1 t1 owner1
      → owner1 p1 ≡ some (middle i0)
  first_middle {i0} {p1} {s1} {t1} {owner1} d1 =
      ap owner1 (sym (ap ppn first_entry ∙ d1.leads))
      ∙ d1.sound.tree.to_middle i0 (ap is_valid first_entry ∙ d1.valid)
    where
      first_entry : s1.mem t1.root_ppn i0 ≡ s1.mem t.root_ppn i0
      first_entry = ap (λ x. s1.mem x i0) d1.top

  second_round :
      (i0 i1 p1 : ℕ) (s1 : Frames) (t1 : PageTable) (owner1 : Owner)
      → Descended start s t owner t.root_ppn i0 p1 s1 t1 owner1
      → (p2 : ℕ) (s2 : Frames) (t2 : PageTable) (owner2 : Owner)
      → Descended start s1 t1 owner1 p1 i1 p2 s2 t2 owner2
      → Found start s t i0 i1 p2 s2 t2 owner2
  second_round i0 i1 p1 s1 t1 owner1 d1 p2 s2 t2 owner2 d2 = record {
    sound = d2.sound;
    top = d2.top ∙ d1.top;
    owned = ap owner2 (sym d2.leads) ∙ d2.sound.tree.to_leaf p1 i0 i1 still_middle d2.valid;
    valid0 = ap is_valid root_entry ∙ d1.valid;
    valid1 = ap (λ x. is_valid (s2.mem x i1)) down ∙ d2.valid;
    leads = ap (λ x. ppn (s2.mem x i1)) down ∙ d2.leads;
    same = λ a b c. d2.same a b c ∙ d1.same a b c;
    count = omega (arith, d1.count, d2.count);
  }
    where
      at_root : owner1 t.root_ppn ≡ some root
      at_root = ap owner1 (sym d1.top) ∙ d1.sound.tree.at_root

      still_middle : owner2 p1 ≡ some (middle i0)
      still_middle = d2.kept p1 (λ e. absurd (cc (first_middle d1))) ∙ first_middle d1

      root_entry : s2.mem t2.root_ppn i0 ≡ s1.mem t.root_ppn i0
      root_entry =
          ap (λ x. s2.mem x i0) (d2.top ∙ d1.top)
          ∙ d2.older t.root_ppn i0 (λ e. absurd (cc)) d1.valid

      down : ppn (s2.mem t2.root_ppn i0) ≡ p1
      down = ap ppn root_entry ∙ d1.leads

  -- The walk ends at the entry of `vpn`, or it panics for want of a frame.
  abbrev pub Walked : ℕ → Outcome (Place × Frames × PageTable) → Type 0
  Walked vpn o =
      ((o ≡ panicked) × (free_count s.allocator ≤ 1))
      ⊎ ((p : ℕ) × (s' : Frames) × (t' : PageTable) × (owner' : Owner) × (o
            ≡ returned ((p, Indexes.i2 (indexes vpn)), s', t'))
          × Found start s t (Indexes.i0 (indexes vpn)) (Indexes.i1 (indexes vpn)) p s' t' owner')

  pub find_pte_create-Walked : (vpn : ℕ) → Walked vpn (find_pte_create s t vpn)
  unfolding find_pte_create
  find_pte_create-Walked vpn = elim (descend_root v i0) [
    | inl (e, none_left) ↦ inl (rw e refl, omega (arith, none_left))
    | inr (owner1, (p1, s1, t1, e1, d1)) ↦
        elim (descend_middle d1.sound p1 i0 i1 (first_middle d1)) [
          | inl (e, none_left) ↦ inl (rw (e1, e) refl, omega (arith, none_left, d1.count))
          | inr (owner2, (p2, s2, t2, e2, d2)) ↦ inr (
            p2,
            s2,
            t2,
            owner2,
            rw (e1, e2) refl,
            second_round i0 i1 p1 s1 t1 owner1 d1 p2 s2 t2 owner2 d2,
          )
        ]
  ]
    where
      i0 : ℕ
      i0 = Indexes.i0 (indexes vpn)

      i1 : ℕ
      i1 = Indexes.i1 (indexes vpn)

-- Page numbers of 27 bits are told apart by their indexes.
indexes-injective :
    (a b : ℕ)
    → a < 2 ^ 27
    → b < 2 ^ 27
    → a ≢ b
    → Indexes.i0 (indexes a) ≡ Indexes.i0 (indexes b)
    → Indexes.i1 (indexes a) ≡ Indexes.i1 (indexes b)
    → Indexes.i2 (indexes a) ≡ Indexes.i2 (indexes b)
    → ⊥
indexes-injective a b ha hb differ e0 e1 e2 =
    omega (arith, indexes-eq-digits a, indexes-eq-digits b)

abbrev pub set_entry :
    (ℕ → Option PageTableEntry) → ℕ → Option PageTableEntry → ℕ → Option PageTableEntry
set_entry f vpn e x = if x == vpn then e else f x

-- What the walk for `vpn` finds is the entry that the table had.
pub entry_before :
    {start : ℕ} {s : Frames} {t : PageTable} (vpn p : ℕ) {s' : Frames} {t' : PageTable}
    {owner : Owner}
    → Found start s t (Indexes.i0 (indexes vpn)) (Indexes.i1 (indexes vpn)) p s' t' owner
    → let e = s'.mem p (Indexes.i2 (indexes vpn)) in
      entry_of s.mem t vpn ≡ (if is_valid e then some e else none)
entry_before vpn p {s'} {t'} f = sym (f.same _ _ _) ∙ rw (f.valid0, f.valid1, f.leads) refl

-- A write at the end of the walk for `vpn` changes the entry of `vpn` alone.
module _ {start : ℕ} {s : Frames} {t : PageTable} {owner : Owner} (vpn p w : ℕ)
    (small : vpn < 2 ^ 27) {s' : Frames} {t' : PageTable}
    (f : Found start s t (Indexes.i0 (indexes vpn)) (Indexes.i1 (indexes vpn)) p s' t' owner) where
  abbrev pub written : Memory
  written = write s'.mem (p, Indexes.i2 (indexes vpn)) w

  pub written-IsSound : IsSound start (record s' { mem = written }) t' owner
  written-IsSound = record {
    allocator = f.sound.allocator;
    tree = write-leaf-IsTree f.sound.tree p _ _ _ w f.owned;
    apart = f.sound.apart;
  }

  pub entry_of-written :
      (x : ℕ)
      → x < 2 ^ 27
      → entry_of written t' x
        ≡ set_entry (entry_of s.mem t) vpn (if is_valid w then some w else none) x
  entry_of-written x hx = elim (Bool-cases (x == vpn)) [
    | inl e ↦ rw e (
        ap (entry_of written t') (eq_of_== x vpn e)
        ∙ mapped-write_self f.sound.tree p _ _ _ w f.owned f.valid0 f.valid1 f.leads)
    | inr e ↦ rw e (
        mapped-write_other f.sound.tree p _ _ _ w _ _ _ f.owned
          (indexes-injective x vpn hx small (ne_of_== x vpn e))
        ∙ f.same _ _ _)
  ]
