-- ===== src/Task/Tcb/Files.antt =====
-- Which descriptor `alloc_fd` gives.
use bitos.Base.{
  ℕ, zero, suc, ◌+◌, ◌≤◌, ◌<◌, ◌≡◌, refl, sym, subst, arith, Option, none, some, List, [], ◌∷◌,
  ◌++◌, length, get_elem?,
}
use bitos.Task.Tcb.{File, TaskControlBlock, find_none, alloc_fd}

-- Slot `fd` of a table is free, and those before it are taken.
pub record Lowest (fds : List (Option File)) (fd : ℕ) : Type 0 where
  pub free : get_elem? fds fd ≡ some none
  pub taken : (q : ℕ) → q < fd → (f : File) × (get_elem? fds q ≡ some (some f))

later :
    (f : File) (fds : List (Option File)) (fd : ℕ) → Lowest fds fd → Lowest (some f ∷ fds) (suc fd)
later f fds fd l = record { free = l.free; taken = λ q h. shifted q h }
  where
    shifted : (q : ℕ) → q < suc fd → (g : File) × (get_elem? (some f ∷ fds) q ≡ some (some g))
    shifted zero h = (f, refl)
    shifted (suc q) h = l.taken q (omega arith)

-- The search gives the lowest free slot, or the table has none and one more is the lowest.
abbrev Searched : List (Option File) → (i : ℕ) → Option ℕ → Type 0
Searched fds i (some r) = (fd : ℕ) × (r ≡ i + fd) × (fd < length fds) × Lowest fds fd
Searched fds i none = Lowest (fds ++ none ∷ []) (length fds)

find_none-Searched : (fds : List (Option File)) (i : ℕ) → Searched fds i (find_none fds i)
unfolding find_none
find_none-Searched [] i = record { free = refl; taken = λ q h. absurd (omega arith) }
find_none-Searched (none ∷ fds) i =
    (0, omega arith, omega arith, record { free = refl; taken = λ q h. absurd (omega arith) })
find_none-Searched (some f ∷ fds) i = next (find_none fds (suc i)) (find_none-Searched fds (suc i))
  where
    next : (o : Option ℕ) → Searched fds (suc i) o → Searched (some f ∷ fds) i o
    next none l = later f (fds ++ none ∷ []) (length fds) l
    next (some r) (fd, e, h, l) = (suc fd, omega (arith, e), omega (arith, h), later f fds fd l)

get_elem?-append_left :
    (fds more : List (Option File)) (q : ℕ)
    → q < length fds
    → get_elem? (fds ++ more) q ≡ get_elem? fds q
get_elem?-append_left [] more q h = absurd (omega arith)
get_elem?-append_left (f ∷ fds) more zero h = refl
get_elem?-append_left (f ∷ fds) more (suc q) h = get_elem?-append_left fds more q (omega arith)

-- What `alloc_fd` gives.
pub record Allocated (t : TaskControlBlock) (r : ℕ × TaskControlBlock) : Type 0 where
  pub within : r.0 ≤ length t.fd_table
  pub lowest : Lowest (TaskControlBlock.fd_table r.1) r.0
  pub others :
      (q : ℕ)
      → q < length t.fd_table
      → get_elem? (TaskControlBlock.fd_table r.1) q ≡ get_elem? t.fd_table q
  pub rest : r.1 ≡ record t { fd_table = TaskControlBlock.fd_table r.1 }

-- `alloc_fd` gives the lowest free descriptor, which may be the one behind the end of the table; that
-- descriptor is then in the table and free, all below it are taken, and nothing else of the task changes.
pub alloc_fd-Allocated : (t : TaskControlBlock) → Allocated t (alloc_fd t)
unfolding alloc_fd
alloc_fd-Allocated t = allocated (find_none t.fd_table 0) (find_none-Searched t.fd_table 0)
  where
    allocated :
        (o : Option ℕ)
        → Searched t.fd_table 0 o
        → Allocated t (elim o [
          | some fd ↦ (fd, t)
          | none ↦ (length t.fd_table, record t { fd_table = t.fd_table ++ none ∷ [] })
        ])
    allocated none l = record {
      within = omega arith;
      lowest = l;
      others = get_elem?-append_left t.fd_table (none ∷ []);
      rest = refl;
    }
    allocated (some r) (fd, e, h, l) = record {
      within = omega (arith, e, h);
      lowest = subst (Lowest t.fd_table) (sym (let e' : r ≡ fd = omega (arith, e) in e')) l;
      others = λ q h. refl;
      rest = refl;
    }
