-- ===== src/Task/Id/Views.antt =====
-- The allocator as the set of the identifiers in use, and runs of it.
use bitos.Base.{
  ℕ, ◌+◌, ◌-◌, ◌%◌, ◌^◌, ◌≤◌, ◌<◌, ◌≡◌, refl, arith, Bool, true, false, ◌&&◌, not, List, [], ◌∷◌,
  ltb, Outcome, returned, panicked, contains, Bool-cases, inl, inr,
}
use bitos.Base.Between.{Between, update}
use bitos.Task.Id.{RecycleAllocator, alloc, dealloc}

-- The count of identifiers ever made stays below 2 ^ 64.
pub record IsValid (a : RecycleAllocator) : Type 0 where
  pub fits : a.current < 2 ^ 64 - 1
  pub started : 1 ≤ a.current
  pub known : Between 1 a.current a.recycled

-- Handed out and not given back.
abbrev pub in_use : RecycleAllocator → ℕ → Bool
in_use a id = ltb id a.current && not (contains id a.recycled)

abbrev ids : ℕ → List ℕ → RecycleAllocator
ids c xs = record { current = c; recycled = xs }

unfoldable pub Fresh : RecycleAllocator → ℕ × RecycleAllocator → Type 0
Fresh a (id, a') =
    (in_use a id ≡ false)
    × (id ≤ a.current)
    × ((q : ℕ) → in_use a' q ≡ update (in_use a) id true q)
    × (1 ≤ id)
    × (a.current ≤ RecycleAllocator.current a')
    × (RecycleAllocator.current a' ≤ a.current + 1)
    × Between 1 (RecycleAllocator.current a') (RecycleAllocator.recycled a')

alloc_cases : (c : ℕ) (xs : List ℕ) → IsValid (ids c xs) → Fresh (ids c xs) (alloc (ids c xs))
unfolding alloc Fresh
alloc_cases c [] v =
    let next : (c + 1) % 2 ^ 64 ≡ c + 1 = omega (arith, v.fits) in
    let back : (c + 1 + 2 ^ 64 - 1) % 2 ^ 64 ≡ c = omega (arith, v.fits) in
    rw (next, back)
      (
        ground arith,
        omega arith,
        (λ q. ground arith),
        omega (arith, v.started),
        omega arith,
        omega arith,
        tt,
      )
alloc_cases c (x ∷ xs) v = (
  ground arith,
  omega (arith, v.known.1),
  (λ q. ground (arith, v.known)),
  v.known.0,
  omega arith,
  omega arith,
  v.known.3,
)

-- `alloc` hands out an identifier from 1 on that is not in use, after which exactly that one more is
-- in use; the recycled identifiers stay distinct and below the counter, which grows by at most one.
pub alloc-in_use : {a : RecycleAllocator} → IsValid a → Fresh a (alloc a)
alloc-in_use {a} v = alloc_cases a.current a.recycled v

unfoldable pub Retired : RecycleAllocator → ℕ → Outcome RecycleAllocator → Type 0
Retired a id panicked = in_use a id ≡ false
Retired a id (returned a') =
    (RecycleAllocator.current a' ≡ a.current)
    × (in_use a id ≡ true)
    × ((q : ℕ) → in_use a' q ≡ update (in_use a) id false q)
    × (1 ≤ id → IsValid a')

-- `dealloc` panics exactly when the identifier is not in use. Otherwise exactly that one goes out of
-- use, the counter stays, and the allocator stays valid if the identifier is not 0.
pub dealloc-in_use : {a : RecycleAllocator} (id : ℕ) → IsValid a → Retired a id (dealloc a id)
unfolding dealloc Retired
dealloc-in_use {a} id v = elim (Bool-cases (ltb id a.current)) [
  | inl low ↦ elim (Bool-cases (contains id a.recycled)) [
    | inl free ↦ rw (low, free) (ground arith)
    | inr used ↦
        rw (low, used)
          (
            refl,
            ground arith,
            (λ q. ground arith),
            λ pos. record {
              fits = v.fits;
              started = v.started;
              known = (pos, ground arith, used, v.known);
            },
          )
  ]
  | inr high ↦ rw high (ground arith)
]
