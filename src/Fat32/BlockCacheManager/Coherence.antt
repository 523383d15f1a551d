-- ===== src/Fat32/BlockCacheManager/Coherence.antt =====
-- The caches and the disk show one sequence of blocks.
use bitos.Base.{
  ℕ, ◌≤◌, ◌<◌, ◌≡◌, refl, ap, ◌∙◌, sym, subst, arith, false, Option, none, some, List, [], ◌∷◌,
  ◌++◌, ◌==◌, if◌then◌else◌, length, length-append, Bool-cases, inl, inr, ==_self, eq_of_==,
  Option-cases, Outcome, returned, panicked, ◌>>=◌,
}
use bitos.Fat32.BlockCache.{Disk, BlockCache, new, sync}
use bitos.Fat32.BlockCacheManager.{
  Cached, BlockCacheManager, block_cache_size, read_block_cache, hold, drain_free, make_room,
  get_block_cache,
}
use bitos.Fat32.BlockCacheManager.Queue.{
  or_else, Distinct, Drained, Drains, AllHeld, drain_free-Drains, read_block_cache-append,
  read_block_cache-hold, Distinct-hold, Distinct-append,
}

abbrev pub block_or : Option BlockCache → List ℕ → List ℕ
block_or none bytes = bytes
block_or (some c) bytes = c.cache

-- A block as a reader sees it: the cached copy, or the one on the disk.
abbrev pub view : Disk → List Cached → ℕ → List ℕ
view disk queue b = block_or (read_block_cache queue b) (disk b)

abbrev pub IsCopy : Disk → ℕ → BlockCache → Type 0
IsCopy disk b c = (c.block_id ≡ b) × (c.modified ≡ false → c.cache ≡ disk b)

-- No block stands twice, at most ten are cached, and an unmodified one is as on the disk.
pub record IsValid (disk : Disk) (queue : List Cached) : Type 0 where
  pub distinct : Distinct queue
  pub bounded : length queue ≤ block_cache_size
  pub copies : (b : ℕ) (c : BlockCache) → read_block_cache queue b ≡ some c → IsCopy disk b c

sync-eq :
    (disk : Disk) (c : BlockCache) (b x : ℕ)
    → IsCopy disk b c
    → (sync disk c).0 x ≡ (if x == b then c.cache else disk x)
unfolding sync
sync-eq disk c b x (id, same) = elim (Bool-cases c.modified) [
  | inl e ↦ rw (e, id) refl
  | inr e ↦ elim (Bool-cases (x == b)) [
    | inl h ↦ rw (e, h) (ground (arith, same e, h))
    | inr h ↦ rw (e, h) refl
  ]
]

-- Room was made: what is seen is unchanged, one cache fits, and no block entered the queue.
pub record Roomy (disk disk' : Disk) (queue queue' : List Cached) : Type 0 where
  pub valid : IsValid disk' queue'
  pub room : length queue' < block_cache_size
  pub seen : (b : ℕ) → view disk' queue' b ≡ view disk queue b
  pub absent : (b : ℕ) → read_block_cache queue b ≡ none → read_block_cache queue' b ≡ none

pub Roomy-Drained :
    {disk : Disk} {queue : List Cached} {free : Cached} {rest : List Cached}
    → IsValid disk queue
    → Drained queue free rest
    → Roomy disk ((sync disk free.block).0) queue rest
Roomy-Drained {disk} {queue} {free} {rest} v d =
    let copy = v.copies free.id free.block d.was in
    let disk' : (x : ℕ)
        → (sync disk free.block).0 x
          ≡ (if x == free.id then BlockCache.cache free.block else disk x) =
      λ x. sync-eq disk free.block free.id x copy in
    record {
      valid = record {
        distinct = d.apart;
        bounded = omega (arith, d.shorter, v.bounded);
        copies = λ b c at. elim (Bool-cases (b == free.id)) [
          | inl h ↦ absurd (ground (arith, d.reads b, h, at))
          | inr h ↦
              let before : read_block_cache queue b ≡ some c = ground (arith, d.reads b, h, at) in
              let (id, same) = v.copies b c before in
              (id, λ m. same m ∙ sym (disk' b ∙ ground (arith, h)))
        ];
      };
      room = omega (arith, d.shorter, v.bounded);
      seen = λ b. elim (Bool-cases (b == free.id)) [
        | inl h ↦ rw (d.reads b, disk' b, h) (ground (arith, d.was, h))
        | inr h ↦ rw (d.reads b, disk' b, h) refl
      ];
      absent = λ b n. ground (arith, d.reads b, n);
    }

abbrev Makes : Disk → List Cached → Outcome (Disk × List Cached) → Type 0
Makes disk queue panicked = (length queue ≡ block_cache_size) × AllHeld queue
Makes disk queue (returned (disk', queue')) = Roomy disk disk' queue queue'

make_room-Makes :
    (disk : Disk) (queue : List Cached)
    → IsValid disk queue
    → Makes disk queue (make_room disk queue)
unfolding make_room
make_room-Makes disk queue v = elim (Bool-cases (length queue == block_cache_size)) [
  | inl full ↦
      rw full
        (evicted (ground (arith, full)) (drain_free queue) (drain_free-Drains queue v.distinct))
  | inr short ↦ rw short (record {
    valid = v;
    room = ground (arith, v.bounded, short);
    seen = λ b. refl;
    absent = λ b n. n;
  })
]
  where
    evicted :
        length queue ≡ block_cache_size
        → (o : Option (Cached × List Cached)) → Drains queue o
        → Makes disk queue (elim o [
          | none ↦ panicked
          | some (free, rest) ↦ returned ((sync disk free.block).0, rest)
        ])
    evicted full none h = (full, h)
    evicted full (some (free, rest)) h = Roomy-Drained v h

-- What a call for a block promises.
pub record Fetched (disk disk' : Disk) (queue queue' : List Cached) (block_id : ℕ) : Type 0 where
  pub valid : IsValid disk' queue'
  pub seen : (b : ℕ) → view disk' queue' b ≡ view disk queue b
  pub cached :
      (c : BlockCache) × (read_block_cache queue' block_id ≡ some c)
      × (c.cache ≡ view disk queue block_id)

abbrev pub Fetches : Disk → List Cached → ℕ → Outcome (Disk × BlockCacheManager) → Type 0
Fetches disk queue block_id panicked =
    (read_block_cache queue block_id ≡ none) × (length queue ≡ block_cache_size) × AllHeld queue
Fetches disk queue block_id (returned (disk', m')) = Fetched disk disk' queue m'.queue block_id

IsValid-hold :
    {disk : Disk} {queue : List Cached} (id : ℕ) → IsValid disk queue → IsValid disk (hold queue id)
IsValid-hold {disk} {queue} id v =
    let (d, l) = Distinct-hold queue id v.distinct in
    record {
      distinct = d;
      bounded = omega (arith, l, v.bounded);
      copies = λ b c at. v.copies b c (sym (read_block_cache-hold queue id b) ∙ at);
    }

Fetched-hold :
    {disk : Disk} {queue : List Cached} (id : ℕ) (c : BlockCache)
    → IsValid disk queue
    → read_block_cache queue id ≡ some c
    → Fetched disk disk queue (hold queue id) id
Fetched-hold {disk} {queue} id c v at = record {
  valid = IsValid-hold id v;
  seen = λ b. ap (λ o. block_or o (disk b)) (read_block_cache-hold queue id b);
  cached = (c, read_block_cache-hold queue id id ∙ at, rw at refl);
}

read_block_cache-pushed :
    (queue : List Cached) (id n b : ℕ) (c : BlockCache)
    → read_block_cache (queue ++ record { id = id; strong_count = n; block = c } ∷ []) b
      ≡ or_else (read_block_cache queue b) (if id == b then some c else none)
unfolding read_block_cache
read_block_cache-pushed queue id n b c =
    read_block_cache-append queue (record { id = id; strong_count = n; block = c } ∷ []) b

IsValid-pushed :
    {disk : Disk} {queue : List Cached} (id : ℕ)
    → IsValid disk queue
    → length queue < block_cache_size
    → read_block_cache queue id ≡ none
    → IsValid disk (queue ++ record { id = id; strong_count = 2; block = new disk id } ∷ [])
unfolding new
IsValid-pushed {disk} {queue} id v room missing =
    let c = new disk id in
    record {
      distinct =
          Distinct-append queue (record { id = id; strong_count = 2; block = c }) v.distinct
            missing;
      bounded =
          omega (
            arith,
            length-append queue (record { id = id; strong_count = 2; block = c } ∷ []),
            room,
          );
      copies = λ b x at. elim (Option-cases (read_block_cache queue b)) [
        | inr (y, e) ↦ v.copies b x (ground (arith, read_block_cache-pushed queue id 2 b c, at, e))
        | inl e ↦ elim (Bool-cases (id == b)) [
          | inl h ↦
              let same : id ≡ b = ground (arith, h) in
              let it : c ≡ x = ground (arith, read_block_cache-pushed queue id 2 b c, at, e, h) in
              subst (λ x. IsCopy disk b x) it (same, λ m. ap disk same)
          | inr h ↦ absurd (ground (arith, read_block_cache-pushed queue id 2 b c, at, e, h))
        ]
      ];
    }

Fetched-append :
    {disk disk' : Disk} {queue queue' : List Cached} (id : ℕ)
    → read_block_cache queue id ≡ none
    → Roomy disk disk' queue queue'
    → Fetched disk disk' queue
        (queue' ++ record { id = id; strong_count = 2; block = new disk' id } ∷ [])
        id
unfolding new
Fetched-append {disk} {disk'} {queue} {queue'} id missing r =
    let c = new disk' id in
    let gone : read_block_cache queue' id ≡ none = r.absent id missing in
    record {
      valid = IsValid-pushed id r.valid r.room gone;
      seen = λ b. elim (Option-cases (read_block_cache queue' b)) [
        | inr (y, e) ↦
            rw (read_block_cache-pushed queue' id 2 b c, e)
              (sym (ap (λ o. block_or o (disk' b)) e) ∙ r.seen b)
        | inl e ↦ elim (Bool-cases (id == b)) [
          | inl h ↦
              rw (read_block_cache-pushed queue' id 2 b c, e, h)
                (ap disk' (eq_of_== id b h) ∙ sym (ap (λ o. block_or o (disk' b)) e) ∙ r.seen b)
          | inr h ↦
              rw (read_block_cache-pushed queue' id 2 b c, e, h)
                (sym (ap (λ o. block_or o (disk' b)) e) ∙ r.seen b)
        ]
      ];
      cached = (
        c,
        rw (read_block_cache-pushed queue' id 2 id c, gone, ==_self id) refl,
        sym (ap (λ o. block_or o (disk' id)) gone) ∙ r.seen id,
      );
    }

-- On a valid queue, a call for a block panics exactly if it is not cached and ten others are, all of them held
-- elsewhere. Otherwise the block is cached with the bytes it showed before, every block shows the same
-- bytes as before, whatever was evicted, and the queue is valid: no block stands twice in it, it holds
-- at most ten, and those that were not modified are as on the disk.
pub get_block_cache-Fetches :
    (disk : Disk) (m : BlockCacheManager) (block_id : ℕ)
    → IsValid disk m.queue
    → Fetches disk m.queue block_id (get_block_cache disk m block_id)
unfolding get_block_cache
get_block_cache-Fetches disk m block_id v =
    elim (Option-cases (read_block_cache m.queue block_id)) [
      | inr (c, e) ↦ rw (get_block_cache, e) (Fetched-hold block_id c v e)
      | inl e ↦
          rw (get_block_cache, e)
            (pushed (make_room disk m.queue) (make_room-Makes disk m.queue v) e)
    ]
  where
    pushed :
        (o : Outcome (Disk × List Cached))
        → Makes disk m.queue o
        → read_block_cache m.queue block_id ≡ none
        → Fetches disk m.queue block_id (
            o >>= λ (disk', queue'). returned (
              disk',
              record m {
                queue =
                    queue'
                    ++ record { id = block_id; strong_count = 2; block = new disk' block_id } ∷ [];
              },
            ))
    pushed panicked (full, held) e = (e, full, held)
    pushed (returned (disk', queue')) r e = Fetched-append block_id e r
