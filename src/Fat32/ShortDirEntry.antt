-- ===== src/Fat32/ShortDirEntry.antt =====
-- `ShortDirEntry` of fat32/src/layout.rs: the 32-byte directory entry, its tests, dates, names and
-- checksum. Arrays of bytes are lists; a `String` is the list of its characters' code points.
pub mod Fields
pub mod Tests
use bitos.Base.{
  ℕ, zero, suc, ◌+◌, ◌-◌, ◌*◌, ◌/◌, ◌%◌, ◌^◌, bit_and, Bool, true, false, not, List, [], ◌∷◌, ◌++◌,
  ◌==◌, ◌&&◌, leb, if◌then◌else◌, take, set, replicate, map,
}

abbrev pub attribute_directory : ℕ
attribute_directory = 0x10

abbrev pub attribute_lfn : ℕ
attribute_lfn = 0x0F

pub record ShortDirEntry : Type 0 where
  pub name : List ℕ
  pub extension : List ℕ
  pub attribute : ℕ
  pub winnt_reserved : ℕ
  pub creation_tenths : ℕ
  pub creation_time : ℕ
  pub creation_date : ℕ
  pub last_acc_date : ℕ
  pub cluster_high : ℕ
  pub modification_time : ℕ
  pub modification_date : ℕ
  pub cluster_low : ℕ
  pub size : ℕ

unfoldable pub empty : ShortDirEntry
empty = record {
  name = replicate 8 0;
  extension = replicate 3 0;
  attribute = 0;
  winnt_reserved = 0;
  creation_tenths = 0;
  creation_time = 0;
  creation_date = 0;
  last_acc_date = 0;
  cluster_high = 0;
  modification_time = 0;
  modification_date = 0;
  cluster_low = 0;
  size = 0;
}

-- Also `initialize`, which overwrites the entry with such a one. The names have at least 8 and 3
-- bytes; the source panics on shorter ones.
unfoldable pub new : (name_ extension_ : List ℕ) → (attribute : ℕ) → ShortDirEntry
new name_ extension_ attribute = record {
  name = take 8 name_;
  extension = take 3 extension_;
  attribute = attribute;
  winnt_reserved = 0;
  creation_tenths = 0;
  creation_time = 0;
  creation_date = 0x529c;
  last_acc_date = 0;
  cluster_high = 0;
  modification_time = 0;
  modification_date = 0;
  cluster_low = 0;
  size = 0;
}

unfoldable pub data_clusters : ShortDirEntry → (bytes_per_cluster : ℕ) → ℕ
data_clusters e bytes_per_cluster =
    (e.size + bytes_per_cluster + 2 ^ 32 - 1) % 2 ^ 32 / bytes_per_cluster

unfoldable pub is_dir : ShortDirEntry → Bool
is_dir e = not (bit_and e.attribute attribute_directory == 0)

unfoldable pub is_file : ShortDirEntry → Bool
is_file e = bit_and e.attribute attribute_directory == 0

unfoldable pub is_long : ShortDirEntry → Bool
is_long e = e.attribute == attribute_lfn

-- `name[0]`
abbrev pub first_byte : List ℕ → ℕ
first_byte [] = 0
first_byte (b ∷ bs) = b

unfoldable pub is_valid : ShortDirEntry → Bool
is_valid e = not (first_byte e.name == 0xE5)

unfoldable pub is_deleted : ShortDirEntry → Bool
is_deleted e = first_byte e.name == 0xE5

unfoldable pub is_empty : ShortDirEntry → Bool
is_empty e = first_byte e.name == 0

pub record DateTime : Type 0 where
  pub year : ℕ
  pub month : ℕ
  pub day : ℕ
  pub hour : ℕ
  pub min : ℕ
  pub sec : ℕ
  pub long_sec : ℕ

-- The decoding that the three getters share, with `u32` arithmetic.
unfoldable pub date_time : (date time : ℕ) → DateTime
date_time date time =
    let year = bit_and date 0xFE00 / 2 ^ 9 + 1980 in
    let month = bit_and date 0x01E0 / 2 ^ 5 in
    let day = bit_and date 0x001F in
    let hour = bit_and time 0xF800 / 2 ^ 11 in
    let min = bit_and time 0x07E0 / 2 ^ 5 in
    let sec = bit_and time 0x001F * 2 in
    record {
      year = year;
      month = month;
      day = day;
      hour = hour;
      min = min;
      sec = sec;
      long_sec =
          ((((year - 1970) * 365 + month * 30 + day) * 24 + hour) * 3600 + min * 60 + sec) % 2 ^ 32;
    }

unfoldable pub get_creation_time : ShortDirEntry → DateTime
get_creation_time e = date_time e.creation_date e.creation_time

unfoldable pub get_modification_time : ShortDirEntry → DateTime
get_modification_time e = date_time e.modification_date e.modification_time

unfoldable pub get_accessed_time : ShortDirEntry → DateTime
get_accessed_time e = date_time e.last_acc_date 0

unfoldable pub first_cluster : ShortDirEntry → ℕ
first_cluster e = (e.cluster_high * 2 ^ 16 + e.cluster_low) % 2 ^ 32

unfoldable pub set_first_cluster : ShortDirEntry → ℕ → ShortDirEntry
set_first_cluster e cluster = record e {
  cluster_high = bit_and cluster 0xFFFF0000 / 2 ^ 16 % 2 ^ 16;
  cluster_low = bit_and cluster 0x0000FFFF % 2 ^ 16;
}

unfoldable pub set_size : ShortDirEntry → ℕ → ShortDirEntry
set_size e size = record e { size = size }

unfoldable pub set_case : ShortDirEntry → ℕ → ShortDirEntry
set_case e case = record e { winnt_reserved = case }

unfoldable pub clear : ShortDirEntry → ShortDirEntry
clear e = set_first_cluster (record e { size = 0 }) 0

unfoldable pub delete : ShortDirEntry → ShortDirEntry
delete e = set_first_cluster (record e { size = 0; name = set e.name 0 0xE5 }) 0

-- The bytes before the first space.
unfoldable pub before_space : List ℕ → List ℕ
before_space [] = []
before_space (b ∷ bs) = if b == 0x20 then [] else b ∷ before_space bs

-- The second loop of the getters of the name: a dot, if there is an extension, and the extension.
unfoldable pub dotted : List ℕ → List ℕ
dotted [] = []
dotted (b ∷ bs) = if b == 0x20 then [] else 0x2E ∷ before_space (b ∷ bs)

-- `char::to_ascii_lowercase` and `char::to_ascii_uppercase`
abbrev pub to_ascii_lowercase : ℕ → ℕ
to_ascii_lowercase c = if leb 65 c && leb c 90 then c + 32 else c

abbrev pub to_ascii_uppercase : ℕ → ℕ
to_ascii_uppercase c = if leb 97 c && leb c 122 then c - 32 else c

unfoldable pub get_name_uppercase : ShortDirEntry → List ℕ
get_name_uppercase e = before_space e.name ++ dotted e.extension

unfoldable pub get_name_lowercase : ShortDirEntry → List ℕ
get_name_lowercase e =
    map to_ascii_lowercase (before_space e.name) ++ map to_ascii_lowercase (dotted e.extension)

-- A round of the loop of `checksum`, in `u8` arithmetic.
unfoldable pub add_byte : (sum byte : ℕ) → ℕ
add_byte sum byte =
    if not (bit_and sum 1 == 0) then (0x80 + sum / 2 + byte) % 2 ^ 8 else (sum / 2 + byte) % 2 ^ 8

unfoldable pub checksum_from : ℕ → List ℕ → ℕ
checksum_from sum [] = sum
checksum_from sum (b ∷ bs) = checksum_from (add_byte sum b) bs

unfoldable pub checksum : ShortDirEntry → ℕ
checksum e = checksum_from 0 (e.name ++ e.extension)
