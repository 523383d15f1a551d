-- ===== src/Fat32/Names/Parts.antt =====
-- The parts of a long name.
use bitos.Base.{
  ℕ, zero, suc, ◌+◌, ◌-◌, ◌*◌, ◌/◌, ◌%◌, ◌^◌, ◌≤◌, ◌<◌, ◌≡◌, refl, ap, ◌∙◌, sym, arith, false, List,
  [], ◌∷◌, ◌++◌, if◌then◌else◌, ltb, get_or, take, drop, length, Bool-cases, inl, inr, map,
}
use bitos.Fat32.Names.{part, parts_from, long_name_split}
use bitos.Fat32.LongDirEntry.Names.{terminated, take-append-drop}

-- The parts of 13 characters, without the zeros.
abbrev pub pieces : (n i : ℕ) → List ℕ → List (List ℕ)
pieces zero i name = []
pieces (suc n) i name = take 13 (drop (i * 13) name) ∷ pieces n (suc i) name

abbrev pub concat : List (List ℕ) → List ℕ
concat [] = []
concat (xs ∷ xss) = xs ++ concat xss

-- What is left of a list from an index on.
at_end : (j : ℕ) (xs : List ℕ) → length xs ≤ j → drop j xs ≡ []
at_end zero [] h = refl
at_end zero (x ∷ xs) h = absurd (omega arith)
at_end (suc j) [] h = refl
at_end (suc j) (x ∷ xs) h = at_end j xs (omega arith)

before_end : (j : ℕ) (xs : List ℕ) → j < length xs → drop j xs ≡ get_or xs j 0 ∷ drop (suc j) xs
before_end j [] h = absurd (omega arith)
before_end zero (x ∷ xs) h = refl
before_end (suc j) (x ∷ xs) h = before_end j xs (omega arith)

part-eq :
    (k j : ℕ) (name : List ℕ)
    → j ≤ length name
    → part k j (length name) name
      ≡ take k (drop j name) ++ (if ltb (length (take k (drop j name))) k then 0 ∷ [] else [])
unfolding part
part-eq zero j name h = refl
part-eq (suc k) j name h = elim (Bool-cases (ltb j (length name))) [
  | inl more ↦
      rw (more, before_end j name (ground (arith, more))) (ground (arith, part-eq k (suc j) name))
  | inr done ↦
      let stop : ltb (length name) j ≡ false = ground (arith, h) in
      rw (done, stop, at_end j name (ground (arith, done))) (ground arith)
]

drop-drop : (a b : ℕ) (xs : List ℕ) → drop a (drop b xs) ≡ drop (b + a) xs
drop-drop a zero xs = ap (λ n. drop n xs) (let e : a ≡ 0 + a = omega arith in e)
drop-drop a (suc b) [] = at_end a [] (omega arith) ∙ sym (at_end (suc b + a) [] (omega arith))
drop-drop a (suc b) (x ∷ xs) =
    drop-drop a b xs
    ∙ ap (λ n. drop n (x ∷ xs)) (let e : suc (b + a) ≡ suc b + a = omega arith in e)

parts_from-eq :
    (n i : ℕ) (name : List ℕ)
    → (i + n) * 13 < length name + 13
    → parts_from n i (length name) name ≡ map terminated (pieces n i name)
unfolding parts_from
parts_from-eq zero i name h = refl
parts_from-eq (suc n) i name h =
    rw (part-eq 13 (i * 13) name (omega arith), parts_from-eq n (suc i) name (omega arith)) refl

concat-pieces :
    (n i : ℕ) (name : List ℕ)
    → length name ≤ (i + n) * 13
    → concat (pieces n i name) ≡ drop (i * 13) name
concat-pieces zero i name h = sym (at_end (i * 13) name (omega arith))
concat-pieces (suc n) i name h =
    let next : drop (suc i * 13) name ≡ drop 13 (drop (i * 13) name) =
      ap (λ k. drop k name) (let e : suc i * 13 ≡ i * 13 + 13 = omega arith in e)
      ∙ sym (drop-drop 13 (i * 13) name) in
    ap (λ t. take 13 (drop (i * 13) name) ++ t) (concat-pieces n (suc i) name (omega arith) ∙ next)
    ∙ take-append-drop 13 (drop (i * 13) name)

-- The parts of a name of fewer than 2 ^ 31 characters are consecutive pieces of it, of 13 characters as long as
-- they last, each with a zero behind it where a character is missing: together the pieces are the name.
pub long_name_split-pieces :
    (name : List ℕ)
    → length name < 2 ^ 31
    → let n = (length name + 12) / 13 in
      (long_name_split name ≡ map terminated (pieces n 0 name)) × (concat (pieces n 0 name) ≡ name)
unfolding long_name_split
long_name_split-pieces name h =
    let len : length name % 2 ^ 32 ≡ length name = omega arith in
    let count : (length name + 13 - 1) % 2 ^ 32 / 13 ≡ (length name + 12) / 13 = omega arith in
    (
      rw (len, count) (parts_from-eq ((length name + 12) / 13) 0 name (omega arith)),
      concat-pieces ((length name + 12) / 13) 0 name (omega arith),
    )
