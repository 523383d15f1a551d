-- ===== src/Fs/Inode.antt =====
-- os/src/fs/inode.rs: `OSInode`, a file of the disk with a place in it. A user buffer is the list of its slices:
-- for a read their lengths, and the bytes that are put into each from its start on are the result; for a write
-- their bytes. `walk` is the fuel of the walks along chains, and `none` means that fuel ran out.
pub mod Reading
pub mod Writing
pub mod Tests
use bitos.Base.{
  ℕ, zero, suc, ◌+◌, ◌%◌, ◌^◌, bit_and, Bool, true, false, not, Option, none, some, List, [], ◌∷◌,
  ◌++◌, ◌==◌, if◌then◌else◌, Outcome, returned, ◌>>◌, ◌>?=◌, done, assert, length,
}
use bitos.Fat32.VirtualFile.{FileSystem, VFile}
use bitos.Fat32.VirtualFile

-- Both parts of an `OSInode`.
pub record OsInode : Type 0 where
  pub readable : Bool
  pub writable : Bool
  pub offset : ℕ
  pub inode : VFile

unfoldable pub new : (readable writable : Bool) → VFile → OsInode
new readable writable inode = record {
  readable = readable;
  writable = writable;
  offset = 0;
  inode = inode;
}

abbrev pub wronly : ℕ
wronly = 1

-- `OpenFlags::read_write`
unfoldable pub read_write : (flags : ℕ) → Bool × Bool
read_write flags =
    if flags == 0
    then (true, false)
    else if bit_and flags wronly == wronly
    then (false, true)
    else (true, true)

-- The loop of `read`: what goes into each slice, the offset behind, and `total_read_size`.
unfoldable pub read_slices :
    (lens : List ℕ)
    → (walk : ℕ) → FileSystem
    → VFile
    → (offset total : ℕ) → Outcome (Option (List (List ℕ) × ℕ × ℕ))
read_slices [] walk fs f offset total = done ([], offset, total)
read_slices (len ∷ lens) walk fs f offset total =
    VirtualFile.read_at walk fs f offset len >?= λ bytes.
    if length bytes == 0
    then done ([], offset, total)
    else (read_slices lens walk fs f ((offset + length bytes) % 2 ^ 64)
          ((total + length bytes) % 2 ^ 64)
        >?= λ (parts, offset', total'). done (bytes ∷ parts, offset', total'))

-- The number that it returns stands between the slices and the file.
unfoldable pub read :
    (walk : ℕ)
    → FileSystem
    → OsInode
    → (lens : List ℕ) → Outcome (Option (List (List ℕ) × ℕ × OsInode))
read walk fs o lens = read_slices lens walk fs o.inode o.offset 0 >?= λ (parts, offset', total).
    done (parts, total, record o { offset = offset' })

-- The loop of `write`: the offset behind what was written, and `total_write_size`.
unfoldable pub write_slices :
    (slices : List (List ℕ))
    → (walk : ℕ) → FileSystem
    → VFile
    → (offset total : ℕ) → Outcome (Option (FileSystem × ℕ × ℕ))
write_slices [] walk fs f offset total = done (fs, offset, total)
write_slices (slice ∷ slices) walk fs f offset total =
    VirtualFile.write_at walk fs f offset slice >?= λ r.
    assert (r.0 == length slice)
    >> write_slices slices walk r.1 f ((offset + r.0) % 2 ^ 64) ((total + r.0) % 2 ^ 64)

unfoldable pub write :
    (walk : ℕ)
    → FileSystem
    → OsInode
    → (slices : List (List ℕ)) → Outcome (Option (FileSystem × ℕ × OsInode))
write walk fs o slices = write_slices slices walk fs o.inode o.offset 0 >?= λ (fs', offset', total).
    done (fs', total, record o { offset = offset' })

-- The loop of `read_all`, in pieces of 512 bytes.
unfoldable pub read_rest :
    (fuel walk : ℕ) → FileSystem → VFile → (offset : ℕ) → Outcome (Option (List ℕ × ℕ))
read_rest zero walk fs f offset = returned none
read_rest (suc fuel) walk fs f offset = VirtualFile.read_at walk fs f offset 512 >?= λ bytes.
    let later = read_rest fuel walk fs f ((offset + length bytes) % 2 ^ 64) in
    if length bytes == 0 then done ([], offset) else (later >?= λ r. done (bytes ++ r.0, r.1))

unfoldable pub read_all :
    (fuel walk : ℕ) → FileSystem → OsInode → Outcome (Option (List ℕ × OsInode))
read_all fuel walk fs o =
    read_rest fuel walk fs o.inode o.offset >?= λ r. done (r.0, record o { offset = r.1 })
