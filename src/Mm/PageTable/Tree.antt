-- ===== src/Mm/PageTable/Tree.antt =====
-- The pages of a page table form a tree, and what a write to it changes.
use bitos.Base.{ℕ, ◌≡◌, arith, true, false, Option, none, some, ◌==◌, if◌then◌else◌}
use bitos.Mm.Address.{PhysPageNum}
use bitos.Mm.FrameAllocator.{Memory, clear_frame}
use bitos.Mm.PageTableEntry.{PageTableEntry, is_valid, ppn}
use bitos.Mm.PageTableEntry.Fields.{not-is_valid-empty}
use bitos.Mm.PageTable.{Place, write}

-- The part that a page plays in a table.
pub data Slot : Type 0 where
  root : Slot
  middle : ℕ → Slot
  leaf : ℕ → ℕ → Slot

abbrev pub Owner : Type 0
Owner = PhysPageNum → Option Slot

abbrev pub assign : Owner → PhysPageNum → Slot → Owner
assign owner f slot q = if q == f then some slot else owner q

-- Each page plays one part, given by the indexes that lead to it.
pub record IsTree (mem : Memory) (top : PhysPageNum) (owner : Owner) : Type 0 where
  pub at_root : owner top ≡ some root
  pub to_middle : (i : ℕ) → is_valid (mem top i) ≡ true → owner (ppn (mem top i)) ≡ some (middle i)
  pub to_leaf :
      (p i j : ℕ)
      → owner p ≡ some (middle i)
      → is_valid (mem p j) ≡ true
      → owner (ppn (mem p j)) ≡ some (leaf i j)

-- The valid entry that three indexes lead to.
abbrev pub mapped : Memory → PhysPageNum → (i j k : ℕ) → Option PageTableEntry
mapped mem top i j k =
    let e0 = mem top i in
    let e1 = mem (ppn e0) j in
    let e2 = mem (ppn e1) k in
    if is_valid e0
    then (if is_valid e1 then (if is_valid e2 then some e2 else none) else none)
    else none

module _ {mem : Memory} {top : PhysPageNum} {owner : Owner} (v : IsTree mem top owner) where
  -- A write to a page of the last level keeps the tree.
  pub write-leaf-IsTree :
      (p i j k w : ℕ) → owner p ≡ some (leaf i j) → IsTree (write mem (p, k) w) top owner
  unfolding write
  write-leaf-IsTree p i j k w o = record {
    at_root = v.at_root;
    to_middle = λ i'. ground (arith, v.at_root, v.to_middle i');
    to_leaf = λ p' i' j'. ground (arith, v.to_leaf p' i' j');
  }

  pub mapped-write_other :
      (p i j k w i' j' k' : ℕ)
      → owner p ≡ some (leaf i j)
      → ((i' ≡ i) → (j' ≡ j) → (k' ≡ k) → ⊥)
      → mapped (write mem (p, k) w) top i' j' k' ≡ mapped mem top i' j' k'
  unfolding write
  mapped-write_other p i j k w i' j' k' o other =
      ground (arith, v.at_root, v.to_middle i', v.to_leaf (ppn (mem top i')) i' j')

  pub mapped-write_self :
      (p i j k w : ℕ)
      → owner p ≡ some (leaf i j)
      → is_valid (mem top i) ≡ true
      → is_valid (mem (ppn (mem top i)) j) ≡ true
      → ppn (mem (ppn (mem top i)) j) ≡ p
      → mapped (write mem (p, k) w) top i j k ≡ (if is_valid w then some w else none)
  unfolding write
  mapped-write_self p i j k w o v0 v1 e = ground (arith, v.at_root, v.to_middle i)

  -- A cleared page, linked from an entry that was not valid, extends the tree and maps nothing.
  module _ (f e : ℕ) (fresh : owner f ≡ none) (valid : is_valid e ≡ true) (names : ppn e ≡ f) where
    abbrev linked : Place → Memory
    linked place = write (clear_frame mem f) place e

    pub link_root-IsTree :
        (i : ℕ)
        → is_valid (mem top i) ≡ false
        → IsTree (linked (top, i)) top (assign owner f (middle i))
    unfolding write clear_frame
    link_root-IsTree i vacant = record {
      at_root = ground (arith, v.at_root);
      to_middle = λ i'. ground (arith, v.at_root, v.to_middle i', not-is_valid-empty);
      to_leaf = λ p' i' j'. ground (arith, v.at_root, v.to_leaf p' i' j', not-is_valid-empty);
    }

    pub mapped-link_root :
        (i i' j' k' : ℕ)
        → is_valid (mem top i) ≡ false
        → mapped (linked (top, i)) top i' j' k' ≡ mapped mem top i' j' k'
    unfolding write clear_frame
    mapped-link_root i i' j' k' vacant =
        ground
          (arith, v.at_root, v.to_middle i', v.to_leaf (ppn (mem top i')) i' j', not-is_valid-empty)

    pub link_middle-IsTree :
        (p i j : ℕ)
        → owner p ≡ some (middle i)
        → is_valid (mem p j) ≡ false
        → IsTree (linked (p, j)) top (assign owner f (leaf i j))
    unfolding write clear_frame
    link_middle-IsTree p i j o vacant = record {
      at_root = ground (arith, v.at_root);
      to_middle = λ i'. ground (arith, v.at_root, v.to_middle i', not-is_valid-empty);
      to_leaf = λ p' i' j'. ground (arith, v.at_root, v.to_leaf p' i' j', not-is_valid-empty);
    }

    pub mapped-link_middle :
        (p i j i' j' k' : ℕ)
        → owner p ≡ some (middle i)
        → is_valid (mem p j) ≡ false
        → mapped (linked (p, j)) top i' j' k' ≡ mapped mem top i' j' k'
    unfolding write clear_frame
    mapped-link_middle p i j i' j' k' o vacant =
        ground
          (arith, v.at_root, v.to_middle i', v.to_leaf (ppn (mem top i')) i' j', not-is_valid-empty)

-- A page that plays no part may be cleared.
module _ {mem : Memory} {top : PhysPageNum} {owner : Owner} (v : IsTree mem top owner) (f : ℕ)
    (fresh : owner f ≡ none) where
  pub clear-IsTree : IsTree (clear_frame mem f) top owner
  unfolding clear_frame
  clear-IsTree = record {
    at_root = v.at_root;
    to_middle = λ i. ground (arith, v.at_root, v.to_middle i);
    to_leaf = λ p i j. ground (arith, v.to_leaf p i j);
  }

  pub mapped-clear : (i j k : ℕ) → mapped (clear_frame mem f) top i j k ≡ mapped mem top i j k
  unfolding clear_frame
  mapped-clear i j k = ground (arith, v.at_root, v.to_middle i, v.to_leaf (ppn (mem top i)) i j)
