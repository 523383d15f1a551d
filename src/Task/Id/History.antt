-- ===== src/Task/Id/History.antt =====
-- Any history of `pid_alloc` and of dropped `PidHandle`s, from the empty allocator.
use bitos.Base.{
  ℕ, zero, suc, ◌+◌, ◌-◌, ◌^◌, ◌≤◌, ◌<◌, ◌≡◌, refl, arith, true, false, ◌&&◌, List, [], ◌∷◌, ◌==◌,
  leb, if◌then◌else◌, Outcome, returned, panicked, contains, sym, subst,
}
use bitos.Base.Between.{Between, Between-mono, contains_bounds}
use bitos.Task.Id.{RecycleAllocator, new, alloc, dealloc}
use bitos.Task.Id.Views.{IsValid, in_use, Fresh, Retired, alloc-in_use, dealloc-in_use}

-- The allocator, and the identifiers of the handles that are alive.
pub record System : Type 0 where
  pub allocator : RecycleAllocator
  pub live : List ℕ

abbrev pub erase : ℕ → List ℕ → List ℕ
erase id [] = []
erase id (x ∷ xs) = if x == id then xs else x ∷ erase id xs

abbrev pub taken : System → System
taken s =
    let (id, allocator) = alloc s.allocator in record { allocator = allocator; live = id ∷ s.live }

pub data Step : System → System → Type 0 where
  takes : (s : System) → Step s (taken s)
  drops :
      (s : System) (id : ℕ) (a' : RecycleAllocator)
      → contains id s.live ≡ true
      → dealloc s.allocator id ≡ returned a'
      → Step s (record { allocator = a'; live = erase id s.live })

abbrev pub boot : System
unfolding new
boot = record { allocator = new; live = [] }

-- What `n` steps lead to.
pub data Reach : ℕ → System → Type 0 where
  here : Reach zero boot
  then_step : {n : ℕ} {s t : System} → Reach n s → Step s t → Reach (suc n) t

-- The handles alive are distinct, and they are the identifiers in use.
pub record Inv (n : ℕ) (s : System) : Type 0 where
  pub count : s.allocator.current ≤ n + 1
  pub started : 1 ≤ s.allocator.current
  pub known : Between 1 s.allocator.current s.allocator.recycled
  pub distinct : Between 1 s.allocator.current s.live
  pub exact : (q : ℕ) → contains q s.live ≡ (leb 1 q && in_use s.allocator q)

contains-erase :
    (lo hi id q : ℕ) (xs : List ℕ)
    → Between lo hi xs
    → contains q (erase id xs) ≡ (if q == id then false else contains q xs)
contains-erase lo hi id q [] b = ground arith
contains-erase lo hi id q (x ∷ xs) b = ground (arith, contains-erase lo hi id q xs b.3)

erase-Between : (lo hi id : ℕ) (xs : List ℕ) → Between lo hi xs → Between lo hi (erase id xs)
erase-Between lo hi id [] b = tt
erase-Between lo hi id (x ∷ xs) b =
    ground (arith, erase-Between lo hi id xs b.3, contains-erase lo hi id x xs b.3)

module _ {n : ℕ} {s : System} (v : Inv n s) (fits : n < 2 ^ 64 - 2) where
  valid : IsValid s.allocator
  valid = record { fits = omega (arith, v.count); started = v.started; known = v.known }

  takes-Inv : Inv (suc n) (taken s)
  unfolding Fresh
  takes-Inv =
      let (unused, _, others, positive, grows, bounded, known) = alloc-in_use valid in
      record {
        count = omega (arith, bounded, v.count);
        started = omega (arith, grows, v.started);
        known = known;
        distinct = (
          positive,
          ground (arith, others (alloc s.allocator).0),
          ground (arith, v.exact (alloc s.allocator).0),
          Between-mono 1 s.allocator.current (alloc s.allocator).1.current s.live grows v.distinct,
        );
        exact = λ q. ground (arith, v.exact q, others q);
      }

  drops-Inv :
      (id : ℕ) (a' : RecycleAllocator)
      → contains id s.live ≡ true
      → dealloc s.allocator id ≡ returned a'
      → Inv (suc n) (record { allocator = a'; live = erase id s.live })
  unfolding Retired
  drops-Inv id a' alive e =
      let r : Retired s.allocator id (returned a') =
        subst (Retired s.allocator id) e (dealloc-in_use id valid) in
      let (same, used, others, keep) = r in
      let b = contains_bounds 1 s.allocator.current s.live id v.distinct alive in
      record {
        count = omega (arith, same, v.count);
        started = omega (arith, same, v.started);
        known = (keep b.0).known;
        distinct =
            subst (λ c. Between 1 c (erase id s.live)) (sym same)
              (erase-Between 1 s.allocator.current id s.live v.distinct);
        exact = λ q. ground (
          arith,
          v.exact q,
          others q,
          contains-erase 1 s.allocator.current id q s.live v.distinct,
        );
      }

boot-Inv : Inv zero boot
unfolding new
boot-Inv = record {
  count = omega arith;
  started = omega arith;
  known = tt;
  distinct = tt;
  exact = λ q. ground arith;
}

Reach-Inv : {n : ℕ} {s : System} → Reach n s → n < 2 ^ 64 - 1 → Inv n s
Reach-Inv here fits = boot-Inv
Reach-Inv (then_step {n} r (takes s)) fits = takes-Inv (Reach-Inv r (omega arith)) (omega arith)
Reach-Inv (then_step {n} r (drops s id a' alive e)) fits =
    drops-Inv (Reach-Inv r (omega arith)) (omega arith) id a' alive e

drop_succeeds :
    (a : RecycleAllocator) (id : ℕ) (o : Outcome RecycleAllocator)
    → in_use a id ≡ true
    → Retired a id o
    → (a' : RecycleAllocator) × (o ≡ returned a')
unfolding Retired
drop_succeeds a id (returned a') used r = (a', refl)
drop_succeeds a id panicked used r = absurd (ground arith)

-- After any history of fewer than 2 ^ 64 - 2 allocations and drops, the identifiers alive are
-- distinct, positive and below the counter, and dropping any of them does not panic.
pub Reach-distinct :
    {n : ℕ} {s : System}
    → Reach n s
    → n < 2 ^ 64 - 2
    → Between 1 s.allocator.current s.live
      × ((id : ℕ)
          → contains id s.live ≡ true
          → (a' : RecycleAllocator) × (dealloc s.allocator id ≡ returned a'))
Reach-distinct {n} {s} r fits =
    let v : Inv n s = Reach-Inv r (omega arith) in
    (
      v.distinct,
      λ id alive.
          let valid : IsValid s.allocator = record {
            fits = omega (arith, v.count);
            started = v.started;
            known = v.known;
          } in
          drop_succeeds _ id _ (ground (arith, v.exact id)) (dealloc-in_use id valid),
    )
