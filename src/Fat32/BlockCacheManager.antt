-- ===== src/Fat32/BlockCacheManager.antt =====
-- `BlockCacheManager` of fat32/src/block_cache.rs, and the functions that the file system calls it by,
-- which are the same for its two instances. The strong count of an `Arc` is kept beside the cache it
-- counts for: 1 is the queue's own.
pub mod Coherence
pub mod Writes
pub mod Queue
pub mod Tests
use bitos.Base.{
  ℕ, zero, suc, ◌+◌, ◌-◌, ◌%◌, ◌^◌, Bool, true, false, Option, none, some, List, [], ◌∷◌, ◌++◌,
  ◌==◌, if◌then◌else◌, Outcome, returned, panicked, ◌>>=◌, ◌>>◌, length, unwrap,
}
use bitos.Fat32.BlockCache.{Disk, BlockCache, new, sync, write_mut}

abbrev pub block_cache_size : ℕ
block_cache_size = 10

-- An element of the queue.
pub record Cached : Type 0 where
  pub id : ℕ
  pub strong_count : ℕ
  pub block : BlockCache

pub record BlockCacheManager : Type 0 where
  pub start_sec : ℕ
  pub queue : List Cached

abbrev pub new_manager : BlockCacheManager
new_manager = record { start_sec = 0; queue = [] }

unfoldable pub set_start_sec : BlockCacheManager → ℕ → BlockCacheManager
set_start_sec m new_start_sec = record m { start_sec = new_start_sec }

-- `read_block_cache`, without the clone.
unfoldable pub read_block_cache : List Cached → ℕ → Option BlockCache
read_block_cache [] block_id = none
read_block_cache (c ∷ cs) block_id =
    if c.id == block_id then some c.block else read_block_cache cs block_id

-- The `Arc` of a block cloned, and a clone dropped.
unfoldable pub hold : List Cached → ℕ → List Cached
hold [] block_id = []
hold (c ∷ cs) block_id =
    if c.id == block_id
    then record c { strong_count = suc c.strong_count } ∷ cs
    else c ∷ hold cs block_id

unfoldable pub release : List Cached → ℕ → List Cached
release [] block_id = []
release (c ∷ cs) block_id =
    if c.id == block_id
    then record c { strong_count = c.strong_count - 1 } ∷ cs
    else c ∷ release cs block_id

-- The first element that nobody else holds, and the rest without it.
unfoldable pub drain_free : List Cached → Option (Cached × List Cached)
drain_free [] = none
drain_free (c ∷ cs) =
    let later = drain_free cs in
    if c.strong_count == 1
    then some (c, cs)
    else elim later [ none ↦ none | some (free, rest) ↦ some (free, c ∷ rest) ]

-- Room for a new cache: the disk after the drop of the evicted one, and the queue.
unfoldable pub make_room : Disk → List Cached → Outcome (Disk × List Cached)
make_room disk queue =
    if length queue == block_cache_size
    then elim (drain_free queue) [
      | none ↦ panicked
      | some (free, rest) ↦ returned ((sync disk free.block).0, rest)
    ]
    else returned (disk, queue)

-- The clone that is returned counts.
unfoldable pub get_block_cache : Disk → BlockCacheManager → ℕ → Outcome (Disk × BlockCacheManager)
get_block_cache disk m block_id = elim (read_block_cache m.queue block_id) [
  | some block ↦ returned (disk, record m { queue = hold m.queue block_id })
  | none ↦ do
    (disk', queue') ← make_room disk m.queue
    returned (
      disk',
      record m {
        queue =
            queue' ++ record { id = block_id; strong_count = 2; block = new disk' block_id } ∷ [];
      },
    )
]

-- The elements that are dropped with the queue write their blocks; one that is still held elsewhere is
-- not dropped.
unfoldable pub drop_queue : Disk → List Cached → Disk
drop_queue disk [] = disk
drop_queue disk (c ∷ cs) =
    drop_queue (if c.strong_count == 1 then (sync disk c.block).0 else disk) cs

unfoldable pub drop_all : Disk → BlockCacheManager → Disk × BlockCacheManager
drop_all disk m = (drop_queue disk m.queue, record m { queue = [] })

-- `modify` of a held cache.
unfoldable pub modify :
    (type_size : ℕ)
    → List Cached
    → (block_id offset : ℕ) → (List ℕ → List ℕ)
    → Outcome (List Cached)
modify type_size [] block_id offset f = returned []
modify type_size (c ∷ cs) block_id offset f =
    let later = modify type_size cs block_id offset f in
    if c.id == block_id
    then (do
      block' ← write_mut type_size c.block offset f
      returned (record c { block = block' } ∷ cs))
    else (do cs' ← later; returned (c ∷ cs'))

pub data CacheMode : Type 0 where
  mode_read : CacheMode
  mode_write : CacheMode

-- `get_block_cache` and `get_info_cache` of the file system: the queue holds the block for the
-- caller. On a read, the clone that brought the block in is dropped and another is made.
unfoldable pub get_cache :
    Disk → BlockCacheManager → (block_id : ℕ) → CacheMode → Outcome (Disk × BlockCacheManager)
get_cache disk m block_id mode_read = do
  (disk', m') ← get_block_cache disk m ((m.start_sec + block_id) % 2 ^ 64)
  block ← unwrap (read_block_cache m'.queue ((m.start_sec + block_id) % 2 ^ 64))
  let dropped = release m'.queue ((m.start_sec + block_id) % 2 ^ 64) in
      returned (disk', record m' { queue = hold dropped ((m.start_sec + block_id) % 2 ^ 64) })
get_cache disk m block_id mode_write = get_block_cache disk m ((m.start_sec + block_id) % 2 ^ 64)
