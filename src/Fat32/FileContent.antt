-- ===== src/Fat32/FileContent.antt =====
-- `get_pos`, `read_at` and `write_at` of `ShortDirEntry` in fat32/src/layout.rs: the bytes of a file, by the
-- chain of its clusters. The buffer of `read_at` is its length, and the bytes that are put into it from its
-- start on are the result. Each round of the loops takes one of the fuel, and none means that it ran out.
pub mod Blocks
pub mod Reading
pub mod Position
pub mod Access
pub mod Slices
pub mod Writing
pub mod RoundTrip
pub mod Tests
use bitos.Base.{
  ℕ, zero, suc, ◌+◌, ◌-◌, ◌*◌, ◌/◌, ◌%◌, ◌^◌, min, Bool, true, false, Option, none, some, List, [],
  ◌∷◌, ◌++◌, ◌==◌, ◌&&◌, ◌||◌, leb, if◌then◌else◌, Outcome, returned, panicked, ◌>>=◌, ◌>>◌, assert,
  length, take, drop,
}
use bitos.Fat32.Volume.{Volume, set_info}
use bitos.Fat32.Table.{end_cluster, get_next_cluster, get_cluster_at, count_claster_num}
use bitos.Fat32.Manager.{Fat32Manager, first_sector_of_cluster, cluster_of_offset}
use bitos.Fat32.ShortDirEntry.{ShortDirEntry, is_dir, first_cluster}

-- The cluster, the sector and the offset in it.
unfoldable pub get_pos : Fat32Manager → Volume → ShortDirEntry → (offset : ℕ) → ℕ × ℕ × ℕ
get_pos m vol e offset =
    let cluster_index = cluster_of_offset m offset in
    let current_cluster = get_cluster_at m.fat vol (first_cluster e) cluster_index in
    let into =
      (offset + 2 ^ 64 - cluster_index * m.bytes_per_cluster % 2 ^ 64)
      % 2 ^ 64
      / m.bytes_per_sector in
    (
      current_cluster,
      (first_sector_of_cluster m current_cluster + into) % 2 ^ 64,
      offset % m.bytes_per_sector,
    )

-- A byte of a sector. Those of a directory are reached through the caches of words.
unfoldable pub get_byte : Volume → (dir : Bool) → (sector k : ℕ) → ℕ
get_byte vol dir sector k =
    if dir then vol.info sector (k / 4 * 4) / 2 ^ (8 * (k % 4)) % 2 ^ 8 else vol.bytes sector k

unfoldable pub put_byte : Volume → (dir : Bool) → (sector k byte : ℕ) → Volume
put_byte vol dir sector k byte =
    if dir
    then (let word = vol.info sector (k / 4 * 4) in
        let digit = 2 ^ (8 * (k % 4)) in
        set_info vol sector (k / 4 * 4) (word - word / digit % 2 ^ 8 * digit + byte * digit))
    else record vol {
      bytes = λ s o. if s == sector && o == k then byte else vol.bytes s o;
      bytes_modified = λ s. s == sector || vol.bytes_modified s;
    }

-- `copy_from_slice` between a buffer and the bytes of a sector from the `k`-th on.
unfoldable pub get_slice : (n : ℕ) → Volume → (dir : Bool) → (sector k : ℕ) → List ℕ
get_slice zero vol dir sector k = []
get_slice (suc n) vol dir sector k = get_byte vol dir sector k ∷ get_slice n vol dir sector (suc k)

unfoldable pub put_slice : List ℕ → Volume → (dir : Bool) → (sector k : ℕ) → Volume
put_slice [] vol dir sector k = vol
put_slice (b ∷ bs) vol dir sector k = put_slice bs (put_byte vol dir sector k b) dir sector (suc k)

-- Where the access ends: a file ends with its size, a directory with its clusters.
unfoldable pub access_end :
    (fuel : ℕ) → Fat32Manager → Volume → ShortDirEntry → (offset len : ℕ) → Option ℕ
access_end fuel m vol e offset len =
    if is_dir e
    then elim (count_claster_num fuel m.fat vol (first_cluster e)) [
      | none ↦ none
      | some count ↦ some ((offset + min len (m.bytes_per_cluster * count)) % 2 ^ 64)
    ]
    else some (min ((offset + len) % 2 ^ 64) e.size)

-- The end of the block that `off` lies in, or of the access.
abbrev pub block_end : Fat32Manager → (off end : ℕ) → ℕ
block_end m off end = min ((off / m.bytes_per_sector + 1) * m.bytes_per_sector % 2 ^ 64) end

abbrev pub prepend : List ℕ → Option (List ℕ) → Option (List ℕ)
prepend part none = none
prepend part (some rest) = some (part ++ rest)

-- The loop of `read_at`. A slice out of range panics.
unfoldable pub read_blocks :
    (fuel : ℕ)
    → Fat32Manager
    → Volume
    → (dir : Bool) → (end off cluster sector : ℕ) → Outcome (Option (List ℕ))
read_blocks zero m vol dir end off cluster sector = returned none
read_blocks (suc fuel) m vol dir end off cluster sector =
    let next_off = block_end m off end in
    let part = get_slice (next_off - off) vol dir sector (off % 512) in
    let next = get_next_cluster m.fat vol cluster in
    let in_next = read_blocks fuel m vol dir end next_off next (first_sector_of_cluster m next) in
    let in_same = read_blocks fuel m vol dir end next_off cluster ((sector + 1) % 2 ^ 64) in
    assert (leb off next_off && leb (off % 512 + (next_off - off)) 512)
    >> (if next_off == end
        then returned (some part)
        else if next_off % m.bytes_per_cluster == 0
        then (if leb end_cluster next
            then returned (some part)
            else in_next >>= λ rest. returned (prepend part rest))
        else in_same >>= λ rest. returned (prepend part rest))

-- An access up to a known end.
unfoldable pub read_to :
    (fuel : ℕ)
    → Fat32Manager
    → Volume
    → ShortDirEntry
    → (offset end : ℕ) → Outcome (Option (List ℕ))
read_to fuel m vol e offset end =
    let (cluster, sector, _) = get_pos m vol e offset in
    if leb end offset
    then returned (some [])
    else if leb end_cluster cluster
    then returned (some [])
    else read_blocks fuel m vol (is_dir e) end offset cluster sector

unfoldable pub read_at :
    (fuel : ℕ)
    → Fat32Manager
    → Volume
    → ShortDirEntry
    → (offset len : ℕ) → Outcome (Option (List ℕ))
read_at fuel m vol e offset len = elim (access_end fuel m vol e offset len) [
  | none ↦ returned none
  | some end ↦ read_to fuel m vol e offset end
]

abbrev pub add_written : ℕ → Option (ℕ × Volume) → Option (ℕ × Volume)
add_written n none = none
add_written n (some (written, vol)) = some (n + written, vol)

-- The loop of `write_at`; `buf` is what is left of the buffer.
unfoldable pub write_blocks :
    (fuel : ℕ)
    → Fat32Manager
    → Volume
    → (dir : Bool) → (end off cluster sector : ℕ) → (buf : List ℕ) → Outcome (Option (ℕ × Volume))
write_blocks zero m vol dir end off cluster sector buf = returned none
write_blocks (suc fuel) m vol dir end off cluster sector buf =
    let next_off = block_end m off end in
    let n = next_off - off in
    let vol' = put_slice (take n buf) vol dir sector (off % 512) in
    let next = get_next_cluster m.fat vol' cluster in
    let in_next =
      write_blocks fuel m vol' dir end next_off next (first_sector_of_cluster m next)
        (drop n buf) in
    let in_same =
      write_blocks fuel m vol' dir end next_off cluster ((sector + 1) % 2 ^ 64) (drop n buf) in
    assert (leb off next_off && leb n (length buf) && leb (off % 512 + n) 512)
    >> (if next_off == end
        then returned (some (n, vol'))
        else if next_off % m.bytes_per_cluster == 0
        then (if leb end_cluster next
            then panicked
            else in_next >>= λ rest. returned (add_written n rest))
        else in_same >>= λ rest. returned (add_written n rest))

unfoldable pub write_to :
    (fuel : ℕ)
    → Fat32Manager
    → Volume
    → ShortDirEntry
    → (offset end : ℕ) → (buf : List ℕ) → Outcome (Option (ℕ × Volume))
write_to fuel m vol e offset end buf =
    let (cluster, sector, _) = get_pos m vol e offset in
    write_blocks fuel m vol (is_dir e) end offset cluster sector buf

unfoldable pub write_at :
    (fuel : ℕ)
    → Fat32Manager
    → Volume
    → ShortDirEntry
    → (offset : ℕ) → (buf : List ℕ) → Outcome (Option (ℕ × Volume))
write_at fuel m vol e offset buf = elim (access_end fuel m vol e offset (length buf)) [
  | none ↦ returned none
  | some end ↦ write_to fuel m vol e offset end buf
]
