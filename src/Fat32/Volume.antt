-- ===== src/Fat32/Volume.antt =====
-- The disk as the file system sees it through its two queues of cached blocks: the 32-bit words that
-- `get_info_cache` gives access to, by sector and byte offset, and the bytes that `get_block_cache` gives access
-- to, with the sectors that each queue has changed since both were last written back (fat32/src/block_cache.rs).
-- Until then a change through one queue is not taken to show in the other, as for a block that both hold.
use bitos.Base.{ℕ, ◌+◌, ◌*◌, ◌/◌, ◌%◌, ◌^◌, Bool, false, ◌&&◌, ◌||◌, ◌==◌, if◌then◌else◌}

pub record Volume : Type 0 where
  pub info : ℕ → ℕ → ℕ
  pub bytes : ℕ → ℕ → ℕ
  pub info_modified : ℕ → Bool
  pub bytes_modified : ℕ → Bool

-- `modify` of the `u32` at an offset of a sector.
unfoldable pub set_info : Volume → (sector offset value : ℕ) → Volume
set_info vol sector offset value = record vol {
  info = λ s o. if s == sector && o == offset then value else vol.info s o;
  info_modified = λ s. s == sector || vol.info_modified s;
}

-- `modify` that fills a sector of data with zeros.
unfoldable pub clear_sector : Volume → ℕ → Volume
clear_sector vol sector = record vol {
  bytes = λ s o. if s == sector then 0 else vol.bytes s o;
  bytes_modified = λ s. s == sector || vol.bytes_modified s;
}

-- The `u32` of four bytes, and a byte of the word that it lies in.
unfoldable pub word_of_bytes : (ℕ → ℕ) → (o : ℕ) → ℕ
word_of_bytes bytes o =
    bytes o + bytes (o + 1) * 2 ^ 8 + bytes (o + 2) * 2 ^ 16 + bytes (o + 3) * 2 ^ 24

unfoldable pub byte_of_words : (ℕ → ℕ) → (k : ℕ) → ℕ
byte_of_words info k = info (k / 4 * 4) / 2 ^ (8 * (k % 4)) % 2 ^ 8

-- `write_to_dev`: the blocks of words are written first and those of bytes over them, and then both queues are
-- empty and show the disk.
unfoldable pub write_to_dev : Volume → Volume
write_to_dev vol = record {
  info = λ s o. if vol.bytes_modified s then word_of_bytes (vol.bytes s) o else vol.info s o;
  bytes = λ s k.
      if vol.bytes_modified s
      then vol.bytes s k
      else if vol.info_modified s
      then byte_of_words (vol.info s) k
      else vol.bytes s k;
  info_modified = λ s. false;
  bytes_modified = λ s. false;
}
