-- ===== src/Fat32/LongDirEntry.antt =====
-- `LongDirEntry` of fat32/src/layout.rs: the entry that holds up to 13 characters of a long name, each
-- in two bytes of three arrays.
pub mod Names
pub mod Tests
use bitos.Base.{
  ℕ, zero, suc, ◌+◌, Bool, not, Option, some, List, [], ◌∷◌, ◌++◌, ◌==◌, ◌&&◌, if◌then◌else◌,
  Outcome, returned, ◌>>=◌, unwrap, get_elem?, take, drop, replicate,
}
use bitos.Fat32.ShortDirEntry.{attribute_lfn}

pub record LongDirEntry : Type 0 where
  pub order : ℕ
  pub name1 : List ℕ
  pub attribute : ℕ
  pub type_ : ℕ
  pub check_sum : ℕ
  pub name2 : List ℕ
  pub zero_bytes : List ℕ
  pub name3 : List ℕ

unfoldable pub empty : LongDirEntry
empty = record {
  order = 0;
  name1 = replicate 10 0;
  attribute = 0;
  type_ = 0;
  check_sum = 0;
  name2 = replicate 12 0;
  zero_bytes = replicate 2 0;
  name3 = replicate 4 0;
}

unfoldable pub is_empty : LongDirEntry → Bool
is_empty e = e.order == 0

unfoldable pub is_valid : LongDirEntry → Bool
is_valid e = not (e.order == 0xE5)

unfoldable pub is_deleted : LongDirEntry → Bool
is_deleted e = e.order == 0xE5

-- The loops of `initialize`: `n` characters are left, from the `i`-th on. `end_offset` is where the
-- name ended, or 0.
unfoldable pub fill : (n i end_offset : ℕ) → List ℕ → Outcome (List ℕ × ℕ)
fill zero i end_offset name_buffer = returned ([], end_offset)
fill (suc n) i end_offset name_buffer = do
  b ← if end_offset == 0 then unwrap (get_elem? name_buffer i) else returned 0xFF
  (rest, last) ← fill n (suc i) (if end_offset == 0 && b == 0 then i else end_offset) name_buffer
  returned (b ∷ (if end_offset == 0 then 0 else 0xFF) ∷ rest, last)

-- The three loops are one, over the 26 bytes of the three arrays.
unfoldable pub initialize : (name_buffer : List ℕ) → (order check_sum : ℕ) → Outcome LongDirEntry
initialize name_buffer order check_sum = do
  (bytes, last) ← fill 13 0 0 name_buffer
  returned (record {
    order = order;
    name1 = take 10 bytes;
    attribute = attribute_lfn;
    type_ = 0;
    check_sum = check_sum;
    name2 = take 12 (drop 10 bytes);
    zero_bytes = replicate 2 0;
    name3 = drop 12 (drop 10 bytes);
  })

unfoldable pub delete : LongDirEntry → LongDirEntry
delete e = record e { order = 0xE5 }

-- Every second byte, from the first on.
unfoldable pub evens : List ℕ → List ℕ
evens [] = []
evens (b ∷ []) = b ∷ []
evens (b ∷ c ∷ bytes) = b ∷ evens bytes

-- `get_name_format` stops before a zero, and `get_name_raw` behind it.
unfoldable pub before_zero : List ℕ → List ℕ
before_zero [] = []
before_zero (c ∷ cs) = if c == 0 then [] else c ∷ before_zero cs

unfoldable pub through_zero : List ℕ → List ℕ
through_zero [] = []
through_zero (c ∷ cs) = if c == 0 then c ∷ [] else c ∷ through_zero cs

unfoldable pub get_name_raw : LongDirEntry → List ℕ
get_name_raw e = through_zero (evens (e.name1 ++ (e.name2 ++ e.name3)))

unfoldable pub get_name_format : LongDirEntry → List ℕ
get_name_format e = before_zero (evens (e.name1 ++ (e.name2 ++ e.name3)))
