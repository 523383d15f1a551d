-- ===== src/Fat32/BlockCache.antt =====
-- `BlockCache` of fat32/src/block_cache.rs: a copy of a sector that is written back when it is dropped.
-- The device is the parameter of the model: it keeps what `write_block` stored in a block, and `read_block`
-- reads it.
use bitos.Base.{
  ℕ, ◌+◌, Bool, true, false, List, ◌++◌, ◌==◌, leb, if◌then◌else◌, Outcome, returned, ◌>>◌, assert,
  take, drop,
}

abbrev pub block_sz : ℕ
block_sz = 512

abbrev pub Disk : Type 0
Disk = ℕ → List ℕ

abbrev pub write_block : Disk → (block_id : ℕ) → List ℕ → Disk
write_block disk block_id buf = λ b. if b == block_id then buf else disk b

pub record BlockCache : Type 0 where
  pub cache : List ℕ
  pub block_id : ℕ
  pub modified : Bool

unfoldable pub new : Disk → ℕ → BlockCache
new disk block_id = record { cache = disk block_id; block_id = block_id; modified = false }

-- A reference to `type_size` bytes at an offset, as those bytes.
unfoldable pub get_ref : (type_size : ℕ) → BlockCache → (offset : ℕ) → Outcome (List ℕ)
get_ref type_size c offset = do
  assert (leb (offset + type_size) block_sz)
  returned (take type_size (drop offset c.cache))

-- `get_mut`, and the bytes written through the reference.
unfoldable pub write_mut :
    (type_size : ℕ) → BlockCache → (offset : ℕ) → (List ℕ → List ℕ) → Outcome BlockCache
write_mut type_size c offset f = do
  assert (leb (offset + type_size) block_sz)
  returned (record c {
    cache =
        take offset c.cache
        ++ f (take type_size (drop offset c.cache))
        ++ drop (offset + type_size) c.cache;
    modified = true;
  })

-- Also the drop of a cache.
unfoldable pub sync : Disk → BlockCache → Disk × BlockCache
sync disk c =
    if c.modified
    then (write_block disk c.block_id c.cache, record c { modified = false })
    else (disk, c)
