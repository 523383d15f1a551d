-- ===== src/Fat32/BlockCacheManager/Writes.antt =====
-- Writes to cached blocks, and the drop of all caches.
use bitos.Base.{
  ℕ, suc, ◌+◌, ◌≤◌, ◌≡◌, refl, ap, ◌∙◌, subst, arith, true, some, List, [], ◌∷◌, ◌++◌, ◌==◌,
  if◌then◌else◌, leb, length, take, drop, Bool-cases, inl, inr, eq_of_==, returned,
}
use bitos.Fat32.BlockCache.{Disk, BlockCache, sync, write_mut, block_sz}
use bitos.Fat32.BlockCacheManager.{
  Cached, BlockCacheManager, read_block_cache, drop_queue, drop_all, modify,
}
use bitos.Fat32.BlockCacheManager.Queue.{Distinct, Drained-here}
use bitos.Fat32.BlockCacheManager.Coherence.{view, IsCopy, IsValid, Roomy, Roomy-Drained}

-- Nobody holds a cache of the queue.
abbrev pub Unheld : List Cached → Type 0
Unheld [] = Unit {0}
Unheld (c ∷ cs) = (c.strong_count ≡ 1) × Unheld cs

drop_queue-view :
    (disk : Disk) (queue : List Cached) (b : ℕ)
    → IsValid disk queue
    → Unheld queue
    → drop_queue disk queue b ≡ view disk queue b
unfolding drop_queue read_block_cache
drop_queue-view disk [] b v u = refl
drop_queue-view disk (c ∷ cs) b v (one, u) =
    let test : (c.strong_count == 1) ≡ true = ground (arith, one) in
    let r : Roomy disk ((sync disk c.block).0) (c ∷ cs) cs =
      Roomy-Drained v (Drained-here c cs v.distinct one) in
    rw test (drop_queue-view ((sync disk c.block).0) cs b r.valid u ∙ r.seen b)

-- When nobody holds a cache of a valid queue, `drop_all` leaves on the disk what every block showed, and an empty
-- queue.
pub drop_all-view :
    (disk : Disk) (m : BlockCacheManager)
    → IsValid disk m.queue
    → Unheld m.queue
    → ((b : ℕ) → (drop_all disk m).0 b ≡ view disk m.queue b)
      × (BlockCacheManager.queue ((drop_all disk m).1) ≡ [])
unfolding drop_all
drop_all-view disk m v u = (λ b. drop_queue-view disk m.queue b v u, refl)

-- A block after a write of `type_size` bytes at an offset.
abbrev pub spliced : ℕ → List ℕ → ℕ → (List ℕ → List ℕ) → List ℕ
spliced type_size bytes offset f =
    take offset bytes ++ f (take type_size (drop offset bytes)) ++ drop (offset + type_size) bytes

abbrev dirty : ℕ → BlockCache → ℕ → (List ℕ → List ℕ) → BlockCache
dirty type_size c offset f = record c {
  cache = spliced type_size c.cache offset f;
  modified = true;
}

module _ (type_size offset : ℕ) (f : List ℕ → List ℕ) (fits : offset + type_size ≤ block_sz) where
  write_mut-fits :
      (c : BlockCache) → write_mut type_size c offset f ≡ returned (dirty type_size c offset f)
  unfolding write_mut
  write_mut-fits c =
      let test : leb (offset + type_size) block_sz ≡ true = ground (arith, fits) in rw test refl

  abbrev Modifies : List Cached → List Cached → ℕ → BlockCache → Type 0
  Modifies queue queue' id c =
      ((b : ℕ)
        → read_block_cache queue' b
          ≡ (if id == b then some (dirty type_size c offset f) else read_block_cache queue b))
      × (Distinct queue → Distinct queue')
      × (length queue' ≡ length queue)

  modify_cases :
      (queue : List Cached) (id : ℕ) (c : BlockCache)
      → read_block_cache queue id ≡ some c
      → (queue' : List Cached) × (modify type_size queue id offset f ≡ returned queue')
        × Modifies queue queue' id c
  unfolding read_block_cache modify
  modify_cases [] id c at = absurd (cc)
  modify_cases (x ∷ xs) id c at = elim (Bool-cases (x.id == id)) [
    | inl e ↦
        let it : x.block ≡ c = ground (arith, at, e) in
        (
          record x { block = dirty type_size c offset f } ∷ xs,
          rw (e, write_mut-fits x.block, it) refl,
          (λ b. rw (eq_of_== x.id id e) (ground arith), λ d. d, refl),
        )
    | inr e ↦
        let (xs', run, (reads, apart, l)) = modify_cases xs id c (ground (arith, at, e)) in
        (
          x ∷ xs',
          rw (e, run) refl,
          (
            λ b. ground (arith, reads b, e),
            λ (n, d). (ground (arith, reads x.id, e, n), apart d),
            ap suc l,
          ),
        )
  ]

  -- A write that fits into a cached block of a valid queue does not panic. The block then shows the bytes with the
  -- written ones in their place, all other blocks show the same as before, and the queue is valid.
  pub modify-view :
      (disk : Disk) (queue : List Cached) (id : ℕ) (c : BlockCache)
      → IsValid disk queue
      → read_block_cache queue id ≡ some c
      → (queue' : List Cached) × (modify type_size queue id offset f ≡ returned queue')
        × IsValid disk queue'
        × ((b : ℕ)
            → view disk queue' b ≡ (
                if id == b
                then spliced type_size (view disk queue id) offset f
                else view disk queue b))
  modify-view disk queue id c v at =
      let (queue', run, (reads, apart, l)) = modify_cases queue id c at in
      (
        queue',
        run,
        record {
          distinct = apart v.distinct;
          bounded = omega (arith, l, v.bounded);
          copies = λ b x found. elim (Bool-cases (id == b)) [
            | inl h ↦
                let it : dirty type_size c offset f ≡ x = ground (arith, reads b, found, h) in
                let same : id ≡ b = eq_of_== id b h in
                subst (λ x. IsCopy disk b x) it ((v.copies id c at).0 ∙ same, λ m. cc)
            | inr h ↦ v.copies b x (ground (arith, reads b, found, h))
          ];
        },
        λ b. elim (Bool-cases (id == b)) [
          | inl h ↦ rw (reads b, h, at) refl
          | inr h ↦ rw (reads b, h) refl
        ],
      )
