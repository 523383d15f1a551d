-- ===== src/Fat32/DirentBytes.antt =====
-- `as_bytes` and `as_bytes_mut` of `ShortDirEntry` in fat32/src/layout.rs: the packed record as its 32 bytes,
-- little-endian, which is how entries are read from directories and written to them.
pub mod RoundTrip
pub mod Tests
use bitos.Base.{ℕ, zero, suc, ◌+◌, ◌*◌, ◌/◌, ◌%◌, ◌^◌, ◌<◌, List, [], ◌∷◌, ◌++◌, take, drop, get_or}
use bitos.Fat32.ShortDirEntry.{ShortDirEntry}
use bitos.Fat32.LongDirEntry.{LongDirEntry}

abbrev pub dirent_sz : ℕ
dirent_sz = 32

-- All below 256.
abbrev pub AllBytes : List ℕ → Type 0
AllBytes [] = Unit
AllBytes (b ∷ bs) = (b < 2 ^ 8) × AllBytes bs

-- `n` bytes of a number, the lowest first.
abbrev pub le_bytes : (n value : ℕ) → List ℕ
le_bytes zero value = []
le_bytes (suc n) value = value % 2 ^ 8 ∷ le_bytes n (value / 2 ^ 8)

-- The bytes behind the name and the extension.
abbrev pub number_bytes : ShortDirEntry → List ℕ
number_bytes e =
    le_bytes 1 e.attribute
    ++ le_bytes 1 e.winnt_reserved
    ++ le_bytes 1 e.creation_tenths
    ++ le_bytes 2 e.creation_time
    ++ le_bytes 2 e.creation_date
    ++ le_bytes 2 e.last_acc_date
    ++ le_bytes 2 e.cluster_high
    ++ le_bytes 2 e.modification_time
    ++ le_bytes 2 e.modification_date
    ++ le_bytes 2 e.cluster_low
    ++ le_bytes 4 e.size

unfoldable pub as_bytes : ShortDirEntry → List ℕ
as_bytes e = e.name ++ e.extension ++ number_bytes e

-- The number in `n` bytes from the `i`-th on.
abbrev pub le_value : (n : ℕ) → List ℕ → (i : ℕ) → ℕ
le_value zero bytes i = 0
le_value (suc n) bytes i = get_or bytes i 0 + 2 ^ 8 * le_value n bytes (suc i)

-- The entry whose memory `as_bytes_mut` has filled with these bytes.
unfoldable pub from_bytes : List ℕ → ShortDirEntry
from_bytes bytes =
    let fields = drop 11 bytes in
    record {
      name = take 8 bytes;
      extension = take 3 (drop 8 bytes);
      attribute = le_value 1 fields 0;
      winnt_reserved = le_value 1 fields 1;
      creation_tenths = le_value 1 fields 2;
      creation_time = le_value 2 fields 3;
      creation_date = le_value 2 fields 5;
      last_acc_date = le_value 2 fields 7;
      cluster_high = le_value 2 fields 9;
      modification_time = le_value 2 fields 11;
      modification_date = le_value 2 fields 13;
      cluster_low = le_value 2 fields 15;
      size = le_value 4 fields 17;
    }

-- The bytes of a `LongDirEntry`, likewise.
unfoldable pub long_as_bytes : LongDirEntry → List ℕ
long_as_bytes e =
    le_bytes 1 e.order
    ++ e.name1
    ++ le_bytes 1 e.attribute
    ++ le_bytes 1 e.type_
    ++ le_bytes 1 e.check_sum
    ++ e.name2
    ++ e.zero_bytes
    ++ e.name3

unfoldable pub long_from_bytes : List ℕ → LongDirEntry
long_from_bytes bytes = record {
  order = get_or bytes 0 0;
  name1 = take 10 (drop 1 bytes);
  attribute = get_or bytes 11 0;
  type_ = get_or bytes 12 0;
  check_sum = get_or bytes 13 0;
  name2 = take 12 (drop 14 bytes);
  zero_bytes = take 2 (drop 26 bytes);
  name3 = take 4 (drop 28 bytes);
}
