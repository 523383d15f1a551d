-- ===== src/Mm/UserBuffer/Iteration.antt =====
-- What the iterator of a buffer visits.
use bitos.Base.{
  ℕ, zero, suc, ◌+◌, ◌-◌, ◌<◌, ◌≡◌, inl, inr, refl, sym, ap, ◌∙◌, arith, true, false, ◌==◌,
  if◌then◌else◌, Bool-cases, none, some, List, [], ◌∷◌, ◌++◌, returned, length, get_elem?, range,
  length-append, ap₂, eq_of_==, ne_of_==, length-range, get_elem?-middle, ltb_of_lt,
}
use mathlib.Core.List.{append_assoc, append-nil}
use bitos.Mm.UserBuffer.{
  Slice, Pointer, slice_len, UserBufferIterator, into_iter, advance, next, visited,
}

-- The bytes of a slice from the `i`-th on, and those of a buffer.
abbrev pub pointer_of : Slice → ℕ → Pointer
pointer_of b i = (b.ppn, b.first + i)

abbrev pub pointers : List Slice → List Pointer
pointers [] = []
pointers (b ∷ bs) = range (pointer_of b) 0 (slice_len b) ++ pointers bs

-- None of the slices is empty.
abbrev pub AllNonEmpty : List Slice → Type 0
AllNonEmpty [] = Unit
AllNonEmpty (b ∷ bs) = (0 < slice_len b) × AllNonEmpty bs

abbrev total : List Slice → ℕ
total [] = 0
total (b ∷ bs) = slice_len b + total bs

length-pointers : (bs : List Slice) → length (pointers bs) ≡ total bs
length-pointers [] = refl
length-pointers (b ∷ bs) = omega (
  arith,
  length-append (range (pointer_of b) 0 (slice_len b)) (pointers bs),
  length-range (pointer_of b) 0 (slice_len b),
  length-pointers bs,
)

get_elem?-end : (bs : List Slice) → get_elem? bs (length bs) ≡ none
get_elem?-end [] = refl
get_elem?-end (b ∷ bs) = get_elem?-end bs

-- An iterator that has `pre` behind it, and the first `i` bytes of `b`.
abbrev in_slice : (pre : List Slice) → Slice → (rest : List Slice) → (i : ℕ) → UserBufferIterator
in_slice pre b rest i = record {
  buffers = pre ++ b ∷ rest;
  current_buffer = length pre;
  current_idx = i;
}

abbrev going : List Slice → ℕ → UserBufferIterator
going bs n = record { buffers = bs; current_buffer = n; current_idx = 0 }

-- One that goes on behind `pre`.
abbrev behind : (pre rest : List Slice) → UserBufferIterator
behind pre rest = record { buffers = pre ++ rest; current_buffer = length pre; current_idx = 0 }

next-in_slice :
    (pre : List Slice) (b : Slice) (rest : List Slice) (i : ℕ)
    → i < slice_len b
    → next (in_slice pre b rest i)
      ≡ returned (
        some (pointer_of b i),
        (if i + 1 == slice_len b
            then record (in_slice pre b rest i) { current_idx = 0; current_buffer = length pre + 1 }
            else in_slice pre b rest (i + 1)),
      )
unfolding next advance
next-in_slice pre b rest i h =
    ap (advance (in_slice pre b rest i)) (get_elem?-middle pre rest b)
    ∙ rw (ltb_of_lt i (slice_len b) h) refl

next-behind_all : (pre : List Slice) → next (behind pre []) ≡ returned (none, behind pre [])
unfolding next advance
next-behind_all pre =
    ap (advance (behind pre []))
      (ap (λ (bs : List Slice). get_elem? bs (length pre)) (append-nil pre) ∙ get_elem?-end pre)

stepped :
    (pre : List Slice) (b : Slice) (rest : List Slice) (i : ℕ)
    → record (in_slice pre b rest i) { current_idx = 0; current_buffer = length pre + 1 }
      ≡ behind (pre ++ b ∷ []) rest
stepped pre b rest i =
    ap₂ (λ (bs : List Slice) (n : ℕ). going bs n) (sym (append_assoc pre (b ∷ []) rest))
      (sym (length-append pre (b ∷ [])))

visited-step :
    (fuel : ℕ) (it it' : UserBufferIterator) (p : Pointer) (ps : List Pointer)
    → next it ≡ returned (some p, it')
    → visited fuel it' ≡ returned (some ps)
    → visited (suc fuel) it ≡ returned (some (p ∷ ps))
unfolding visited
visited-step fuel it it' p ps e later = rw (e, later) refl

range-split :
    {A : Type 0} (f : ℕ → A) (i n : ℕ) (rest : List A)
    → i < n
    → range f i (n - i) ++ rest ≡ f i ∷ (range f (suc i) (n - suc i) ++ rest)
range-split f i n rest h =
    ap (λ (k : ℕ). range f i k ++ rest) (let e : n - i ≡ suc (n - suc i) = omega arith in e)

range-last :
    {A : Type 0} (f : ℕ → A) (i n : ℕ) (rest : List A)
    → i + 1 ≡ n
    → range f i (n - i) ++ rest ≡ f i ∷ rest
range-last f i n rest h = ap (λ (k : ℕ). range f i k ++ rest) (let e : n - i ≡ 1 = omega arith in e)

module _ (pre : List Slice) (b : Slice) (rest : List Slice) (i : ℕ) (h : i < slice_len b) where
  next-within :
      (i + 1 == slice_len b) ≡ false
      → next (in_slice pre b rest i) ≡ returned (some (pointer_of b i), in_slice pre b rest (suc i))
  next-within e =
      next-in_slice pre b rest i h
      ∙ rw e (
          ap (λ (k : ℕ). returned (some (pointer_of b i), in_slice pre b rest k))
            (let f : i + 1 ≡ suc i = omega arith in f))

  next-over :
      (i + 1 == slice_len b) ≡ true
      → next (in_slice pre b rest i) ≡ returned (some (pointer_of b i), behind (pre ++ b ∷ []) rest)
  next-over e =
      next-in_slice pre b rest i h
      ∙ rw e (
          ap (λ (it : UserBufferIterator). returned (some (pointer_of b i), it))
            (stepped pre b rest i))

visited-behind_all :
    (fuel : ℕ) (pre : List Slice) → 0 < fuel → visited fuel (behind pre []) ≡ returned (some [])
unfolding visited
visited-behind_all zero pre h = absurd (omega arith)
visited-behind_all (suc fuel) pre h = rw (next-behind_all pre) refl

-- The rounds within a slice, by what is left of the buffers, and those behind one.
visited-in_slice :
    (fuel : ℕ) (pre : List Slice) (b : Slice) (rest : List Slice) (i : ℕ)
    → i < slice_len b
    → AllNonEmpty rest
    → slice_len b - i + total rest < fuel
    → ((fuel : ℕ) (pre : List Slice)
        → total rest < fuel
        → visited fuel (behind pre rest) ≡ returned (some (pointers rest)))
    → visited fuel (in_slice pre b rest i)
      ≡ returned (some (range (pointer_of b) i (slice_len b - i) ++ pointers rest))
visited-in_slice zero pre b rest i h ne f go = absurd (omega arith)
visited-in_slice (suc fuel) pre b rest i h ne f go = elim (Bool-cases (i + 1 == slice_len b)) [
  | inr e ↦
      visited-step fuel _ _ _ _ (next-within pre b rest i h e) (
        visited-in_slice fuel pre b rest (suc i) (omega (arith, ne_of_== (i + 1) (slice_len b) e))
          ne (omega arith) go)
      ∙ ap (λ (ps : List Pointer). returned (some ps))
          (sym (range-split (pointer_of b) i (slice_len b) (pointers rest) h))
  | inl e ↦
      visited-step fuel _ _ _ _ (next-over pre b rest i h e)
        (go fuel (pre ++ b ∷ []) (omega (arith, eq_of_== (i + 1) (slice_len b) e)))
      ∙ ap (λ (ps : List Pointer). returned (some ps))
          (sym (
            range-last (pointer_of b) i (slice_len b) (pointers rest)
              (eq_of_== (i + 1) (slice_len b) e)))
]

visited-behind :
    (rest : List Slice)
    → AllNonEmpty rest
    → (fuel : ℕ) (pre : List Slice) → total rest < fuel
    → visited fuel (behind pre rest) ≡ returned (some (pointers rest))
visited-behind [] ne fuel pre f = visited-behind_all fuel pre (omega arith)
visited-behind (c ∷ rest) (pos, ne) fuel pre f =
    visited-in_slice fuel pre c rest 0 (omega (arith, pos)) ne (omega arith)
      (visited-behind rest ne)
    ∙ ap (λ (n : ℕ). returned (some (range (pointer_of c) 0 n ++ pointers rest)))
        (let e : slice_len c - 0 ≡ slice_len c = omega arith in e)

-- A loop over a buffer with no empty slice visits each byte of each slice once, in order, with more fuel
-- than there are bytes.
pub visited-pointers :
    (fuel : ℕ) (bs : List Slice)
    → AllNonEmpty bs
    → length (pointers bs) < fuel
    → visited fuel (into_iter bs) ≡ returned (some (pointers bs))
unfolding into_iter
visited-pointers fuel bs ne f = visited-behind bs ne fuel [] (omega (arith, length-pointers bs, f))
