-- ===== src/Fat32/LongDirEntry/Names.antt =====
-- A name that is written into an entry is the one that is read.
use bitos.Base.{
  ℕ, zero, suc, ◌+◌, ◌≤◌, ◌<◌, ◌≡◌, ◌≢◌, refl, ap, ◌∙◌, arith, some, List, [], ◌∷◌, ◌++◌,
  if◌then◌else◌, returned, get_elem?, take, drop, length, ==_of_ne, ltb, Bool-cases, ◌⊎◌, inl, inr,
}
use bitos.Fat32.ShortDirEntry.{attribute_lfn}
use bitos.Fat32.LongDirEntry.{LongDirEntry, fill, initialize, evens, before_zero, get_name_format}

-- No character of the name is 0.
abbrev pub NonZero : List ℕ → Type 0
NonZero [] = Unit {0}
NonZero (c ∷ cs) = (c ≢ 0) × NonZero cs

-- A part of a name as `long_name_split` gives it: a zero follows where there is room for one.
abbrev pub terminated : List ℕ → List ℕ
terminated cs = cs ++ (if ltb (length cs) 13 then 0 ∷ [] else [])

drop-cons :
    (i : ℕ) (xs : List ℕ) {y : ℕ} {ys : List ℕ}
    → drop i xs ≡ y ∷ ys
    → (get_elem? xs i ≡ some y) × (drop (suc i) xs ≡ ys)
drop-cons zero [] h = absurd (cc)
drop-cons zero (x ∷ xs) h = (ground (arith, h), ground (arith, h))
drop-cons (suc i) [] h = absurd (cc)
drop-cons (suc i) (x ∷ xs) h = drop-cons i xs h

-- Behind the end of the name.
fill_stopped :
    (n i e : ℕ) (buf : List ℕ) → e ≢ 0 → (bs : List ℕ) × (fill n i e buf ≡ returned (bs, e))
unfolding fill
fill_stopped zero i e buf h = ([], refl)
fill_stopped (suc n) i e buf h =
    let (bs, run) = fill_stopped n (suc i) e buf h in
    (0xFF ∷ 0xFF ∷ bs, rw (==_of_ne e 0 h, run) refl)

-- What is left of the buffer: characters, and a zero where there is room.
abbrev Ahead : (n i : ℕ) → (buf cs : List ℕ) → Type 0
Ahead n i buf cs =
    ((drop i buf ≡ cs ++ []) × (length cs ≡ n))
    ⊎ ((drop i buf ≡ cs ++ 0 ∷ []) × (length cs < n) × (0 < i + length cs))

fill_reads :
    (n i : ℕ) (buf cs : List ℕ)
    → NonZero cs
    → Ahead n i buf cs
    → (bs : List ℕ) × (last : ℕ) × (fill n i 0 buf ≡ returned (bs, last))
      × (before_zero (evens bs) ≡ cs)
unfolding fill evens before_zero
fill_reads zero i buf [] nz ahead = ([], 0, refl, refl)
fill_reads zero i buf (c ∷ cs) nz ahead = absurd (ground (arith, ahead))
fill_reads (suc n) i buf [] nz (inl (d, l)) = absurd (omega (arith, l))
fill_reads (suc n) i buf [] nz (inr (d, l, pos)) =
    let (here, rest) = drop-cons i buf d in
    let (bs, run) = fill_stopped n (suc i) i buf (λ z. omega arith) in
    (0 ∷ 0 ∷ bs, i, rw (here, run) refl, refl)
fill_reads (suc n) i buf (c ∷ cs) (nonzero, nz) (inl (d, l)) =
    let (here, rest) = drop-cons i buf d in
    let (bs, last, run, read) = fill_reads n (suc i) buf cs nz (inl (rest, omega (arith, l))) in
    (
      c ∷ 0 ∷ bs,
      last,
      rw (here, ==_of_ne c 0 nonzero, run) refl,
      rw (==_of_ne c 0 nonzero, read) refl,
    )
fill_reads (suc n) i buf (c ∷ cs) (nonzero, nz) (inr (d, l, pos)) =
    let (here, rest) = drop-cons i buf d in
    let (bs, last, run, read) =
      fill_reads n (suc i) buf cs nz (inr (rest, omega (arith, l), omega arith)) in
    (
      c ∷ 0 ∷ bs,
      last,
      rw (here, ==_of_ne c 0 nonzero, run) refl,
      rw (==_of_ne c 0 nonzero, read) refl,
    )

pub take-append-drop : (n : ℕ) (xs : List ℕ) → take n xs ++ drop n xs ≡ xs
take-append-drop zero xs = refl
take-append-drop (suc n) [] = refl
take-append-drop (suc n) (x ∷ xs) = ap (λ t. x ∷ t) (take-append-drop n xs)

Ahead-terminated : (cs : List ℕ) → 0 < length cs → length cs ≤ 13 → Ahead 13 0 (terminated cs) cs
Ahead-terminated cs some_ few = elim (Bool-cases (ltb (length cs) 13)) [
  | inl short ↦ inr (rw short refl, ground (arith, short), omega arith)
  | inr full ↦ inl (rw full refl, ground (arith, full))
]

-- A name of 1 to 13 characters, none of them 0, with a zero behind it if there is room, is written into an
-- entry without a panic and is then the one that `get_name_format` reads; order and checksum are those
-- that were given.
pub get_name_format-initialize :
    (cs : List ℕ) (order check_sum : ℕ)
    → NonZero cs
    → 0 < length cs
    → length cs ≤ 13
    → (e : LongDirEntry) × (initialize (terminated cs) order check_sum ≡ returned e)
      × (get_name_format e ≡ cs)
      × (e.order ≡ order)
      × (e.check_sum ≡ check_sum)
unfolding initialize get_name_format
get_name_format-initialize cs order check_sum nz nonempty few =
    let (bs, last, run, read) =
      fill_reads 13 0 (terminated cs) cs nz (Ahead-terminated cs nonempty few) in
    let whole : take 10 bs ++ (take 12 (drop 10 bs) ++ drop 12 (drop 10 bs)) ≡ bs =
      ap (λ t. take 10 bs ++ t) (take-append-drop 12 (drop 10 bs)) ∙ take-append-drop 10 bs in
    (
      record {
        order = order;
        name1 = take 10 bs;
        attribute = attribute_lfn;
        type_ = 0;
        check_sum = check_sum;
        name2 = take 12 (drop 10 bs);
        zero_bytes = 0 ∷ 0 ∷ [];
        name3 = drop 12 (drop 10 bs);
      },
      rw (initialize, run) refl,
      ap (λ t. before_zero (evens t)) whole ∙ read,
      refl,
      refl,
    )
