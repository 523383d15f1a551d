-- ===== src/Task/Manager/Stride.antt =====
-- Which task `fetch` takes.
use bitos.Base.{
  ℕ, suc, ◌+◌, ◌≤◌, ◌<◌, ◌≡◌, refl, ap, ◌⊎◌, inl, inr, arith, Option, some, List, [], ◌∷◌, ◌++◌,
  Outcome, returned, panicked, length, Bool-cases, get_elem?-middle, remove-middle,
}
use bitos.Base.Isize.{rank, le_signed}
use bitos.Task.Manager.{TaskManager, scan, fetch}

abbrev pub All {ℓ} : (ℕ → Type ℓ) → List ℕ → Type ℓ
All P [] = Unit
All P (x ∷ xs) = P x × All P xs

module _ (stride : ℕ → ℕ) where
  abbrev pub key : ℕ → ℕ
  key task = rank (stride task)

  -- The last task of least stride, and the tasks before and behind it.
  pub record Least (queue before : List ℕ) (task : ℕ) (after : List ℕ) : Type 0 where
    pub split : queue ≡ before ++ task ∷ after
    pub least : All (λ u. key task ≤ key u) before
    pub last : All (λ u. key task < key u) after

  -- Either no task is as good as the one before the loop, or the loop stops at the last least one.
  abbrev Scanned : List ℕ → ℕ → ℕ → ℕ → ℕ → Type 0
  Scanned tasks i id least r =
      (All (λ u. rank least < key u) tasks × (r ≡ id))
      ⊎ ((before : List ℕ) × (task : ℕ) × (after : List ℕ) × Least tasks before task after
          × (key task ≤ rank least)
          × (r ≡ i + length before))

  scan-Scanned :
      (tasks : List ℕ) (i id least : ℕ) → Scanned tasks i id least (scan stride tasks i id least)
  unfolding scan
  scan-Scanned [] i id least = inl (tt, refl)
  scan-Scanned (t ∷ ts) i id least = elim (Bool-cases (le_signed (stride t) least)) [
    | inl better ↦ rw better (elim (scan-Scanned ts (suc i) i (stride t)) [
      | inl (worse, e) ↦ inr (
        [],
        t,
        ts,
        record { split = refl; least = tt; last = worse },
        ground arith,
        omega (arith, e),
      )
      | inr (before, task, after, l, le, e) ↦ inr (
        t ∷ before,
        task,
        after,
        record { split = ap (◌∷◌ t) l.split; least = (le, l.least); last = l.last },
        ground arith,
        omega (arith, e),
      )
    ])
    | inr worse ↦ rw worse (elim (scan-Scanned ts (suc i) id least) [
      | inl (all, e) ↦ inl ((ground arith, all), e)
      | inr (before, task, after, l, le, e) ↦ inr (
        t ∷ before,
        task,
        after,
        record { split = ap (◌∷◌ t) l.split; least = (ground arith, l.least); last = l.last },
        le,
        omega (arith, e),
      )
    ])
  ]

  position : (before : List ℕ) {n : ℕ} → n ≡ 0 + length before → n ≡ length before
  position before e = omega (arith, e)

  fetch_cases :
      (first : ℕ) (others : List ℕ)
      → (before : List ℕ) × (task : ℕ) × (after : List ℕ) × Least (first ∷ others) before task after
        × (fetch stride (record { ready_queue = first ∷ others })
            ≡ returned (some task, record { ready_queue = before ++ after }))
  unfolding fetch
  fetch_cases first others = elim (scan-Scanned (first ∷ others) 0 0 (stride first)) [
    | inl (worse, e) ↦ absurd (omega (arith, worse.0))
    | inr (before, task, after, l, le, e) ↦ (
      before,
      task,
      after,
      l,
      rw (
        position before e,
        l.split,
        get_elem?-middle before after task,
        remove-middle before after task,
      ),
    )
  ]

  abbrev pub Fetched : List ℕ → Outcome (Option ℕ × TaskManager) → Type 0
  Fetched queue o =
      ((queue ≡ []) × (o ≡ panicked))
      ⊎ ((before : List ℕ) × (task : ℕ) × (after : List ℕ) × Least queue before task after
          × (o ≡ returned (some task, record { ready_queue = before ++ after })))

  fetch-Fetched : (queue : List ℕ) → Fetched queue (fetch stride (record { ready_queue = queue }))
  unfolding fetch
  fetch-Fetched [] = inl (refl, refl)
  fetch-Fetched (first ∷ others) = inr (fetch_cases first others)

  -- `fetch` panics on an empty queue. From any other it takes a task of least stride, the last of
  -- those, and leaves the other tasks in their order; it never returns `None`.
  pub fetch_refines : (m : TaskManager) → Fetched m.ready_queue (fetch stride m)
  fetch_refines m = fetch-Fetched m.ready_queue
