-- ===== src/Fs/Inode/Reading.antt =====
-- What an `OSInode` reads.
use bitos.Base.{
  ℕ, zero, suc, ◌+◌, ◌-◌, ◌%◌, ◌^◌, ◌≤◌, ◌<◌, ◌≡◌, ◌≢◌, inl, inr, refl, ap, ap₂, ◌∙◌, arith, min,
  false, ◌==◌, Bool-cases, eq_of_==, ne_of_==, Option, some, List, [], ◌∷◌, ◌++◌, Outcome, returned,
  length, range, range-append, length-range,
}
use bitos.Fat32.FileContent.Reading.{IsMounted, byte_at}
use bitos.Fat32.FileContent.Access.{IsFile, read_at-range}
use bitos.Fat32.VirtualFile.{FileSystem, VFile, read_short_dirent}
use bitos.Fat32.VirtualFile
use bitos.Fs.Inode.{OsInode, read_slices, read, read_rest, read_all}

abbrev pub flatten : List (List ℕ) → List ℕ
flatten [] = []
flatten (xs ∷ xss) = xs ++ flatten xss

abbrev pub sum : List ℕ → ℕ
sum [] = 0
sum (n ∷ ns) = n + sum ns

-- No length is 0.
abbrev pub AllPositive : List ℕ → Type 0
AllPositive [] = Unit
AllPositive (n ∷ ns) = (0 < n) × AllPositive ns

module _ (walk : ℕ) (fs : FileSystem) (f : VFile) (offset len total : ℕ) (bytes : List ℕ)
    (here : VirtualFile.read_at walk fs f offset len ≡ returned (some bytes)) where
  slices_end :
      (lens : List ℕ)
      → length bytes ≡ 0
      → read_slices (len ∷ lens) walk fs f offset total ≡ returned (some ([], offset, total))
  unfolding read_slices
  slices_end lens none_left = rw (here, none_left) refl

  slices_step :
      (lens : List ℕ) (next counted k n : ℕ) (parts : List (List ℕ))
      → (length bytes == 0) ≡ false
      → (offset + length bytes) % 2 ^ 64 ≡ next
      → (total + length bytes) % 2 ^ 64 ≡ counted
      → read_slices lens walk fs f next counted ≡ returned (some (parts, k, n))
      → read_slices (len ∷ lens) walk fs f offset total ≡ returned (some (bytes ∷ parts, k, n))
  unfolding read_slices
  slices_step lens next counted k n parts more moved added rest =
      rw (here, more, moved, added, rest) refl

module _ (walk fuel : ℕ) (fs : FileSystem) (f : VFile) (offset : ℕ) (bytes : List ℕ)
    (here : VirtualFile.read_at walk fs f offset 512 ≡ returned (some bytes)) where
  rest_end : length bytes ≡ 0 → read_rest (suc fuel) walk fs f offset ≡ returned (some ([], offset))
  unfolding read_rest
  rest_end none_left = rw (here, none_left) refl

  rest_step :
      (next k : ℕ) (later : List ℕ)
      → (length bytes == 0) ≡ false
      → (offset + length bytes) % 2 ^ 64 ≡ next
      → read_rest fuel walk fs f next ≡ returned (some (later, k))
      → read_rest (suc fuel) walk fs f offset ≡ returned (some (bytes ++ later, k))
  unfolding read_rest
  rest_step next k later more moved rest = rw (here, more, moved, rest) refl

module _ (fs : FileSystem) (f : VFile) {cs : List ℕ} (v : IsMounted fs.manager)
    (w : IsFile fs.manager fs.vol (read_short_dirent fs f) cs) where
  abbrev size : ℕ
  size = (read_short_dirent fs f).size

  abbrev content : (offset n : ℕ) → List ℕ
  content offset n = range (byte_at fs.vol fs.manager cs) offset n

  read_at-content :
      (walk offset len n : ℕ)
      → offset + len < 2 ^ 64
      → len ≤ walk
      → min (offset + len) size - offset ≡ n
      → VirtualFile.read_at walk fs f offset len ≡ returned (some (content offset n))
  unfolding VirtualFile.read_at
  read_at-content walk offset len n fits enough e =
      read_at-range v w walk offset len fits enough
      ∙ ap (λ (k : ℕ). returned (some (content offset k))) e

  length-content : (offset n : ℕ) → length (content offset n) ≡ n
  length-content offset n = length-range (byte_at fs.vol fs.manager cs) offset n

  -- What a loop over slices gives.
  abbrev Reads : (offset total n : ℕ) → Outcome (Option (List (List ℕ) × ℕ × ℕ)) → Type 0
  Reads offset total n o =
      (parts : List (List ℕ)) × (o ≡ returned (some (parts, offset + n, total + n)))
      × (flatten parts ≡ content offset n)

  Reads-none :
      (offset total n : ℕ) (o : Outcome (Option (List (List ℕ) × ℕ × ℕ)))
      → n ≡ 0
      → o ≡ returned (some ([], offset, total))
      → Reads offset total n o
  Reads-none offset total n o e h = (
    [],
    h
        ∙ ap₂ (λ (k x : ℕ). returned (some ([], k, x)))
            (let z : offset ≡ offset + n = omega (arith, e) in z)
            (let z : total ≡ total + n = omega (arith, e) in z),
    ap (content offset) (let z : 0 ≡ n = omega (arith, e) in z),
  )

  Reads-some :
      (lens : List ℕ) (walk offset len total n1 n2 n : ℕ)
      → VirtualFile.read_at walk fs f offset len ≡ returned (some (content offset n1))
      → n1 ≢ 0
      → offset + n1 < 2 ^ 64
      → total + n1 < 2 ^ 64
      → n1 + n2 ≡ n
      → Reads (offset + n1) (total + n1) n2 (read_slices lens walk fs f (offset + n1) (total + n1))
      → Reads offset total n (read_slices (len ∷ lens) walk fs f offset total)
  Reads-some lens walk offset len total n1 n2 n here more fits small all (parts, rest, same) =
      let counted = length-content offset n1 in
      (
        content offset n1 ∷ parts,
        slices_step walk fs f offset len total (content offset n1) here lens (offset + n1)
              (total + n1) (offset + n1 + n2) (total + n1 + n2) parts
              (ground (arith, counted, more)) (omega (arith, counted, fits))
              (omega (arith, counted, small)) rest
            ∙ ap₂ (λ (k x : ℕ). returned (some (content offset n1 ∷ parts, k, x)))
                (let z : offset + n1 + n2 ≡ offset + n = omega (arith, all) in z)
                (let z : total + n1 + n2 ≡ total + n = omega (arith, all) in z),
        ap (λ (l : List ℕ). content offset n1 ++ l) same
            ∙ range-append (byte_at fs.vol fs.manager cs) offset n1 n2
            ∙ ap (content offset) all,
      )

  read_slices-Reads :
      (lens : List ℕ) (walk offset total n : ℕ)
      → AllPositive lens
      → offset + sum lens < 2 ^ 64
      → total + sum lens < 2 ^ 64
      → sum lens ≤ walk
      → min (offset + sum lens) size - offset ≡ n
      → Reads offset total n (read_slices lens walk fs f offset total)
  unfolding read_slices
  read_slices-Reads [] walk offset total n ps fits small enough e =
      Reads-none offset total n _ (omega (arith, e)) refl
  read_slices-Reads (len ∷ lens) walk offset total n (p, ps) fits small enough e =
      let n1 = min (offset + len) size - offset in
      let here =
        read_at-content walk offset len n1 (omega (arith, fits)) (omega (arith, enough)) refl in
      elim (Bool-cases (n1 == 0)) [
        | inl over ↦
            let nothing : n1 ≡ 0 = eq_of_== n1 0 over in
            Reads-none offset total n _ (omega (arith, nothing, p, e)) (
              slices_end walk fs f offset len total (content offset n1) here lens
                (length-content offset n1 ∙ nothing))
        | inr more ↦
            let some_read : n1 ≢ 0 = ne_of_== n1 0 more in
            Reads-some lens walk offset len total n1 (n - n1) n here some_read (omega (arith, fits))
              (omega (arith, small)) (omega (arith, some_read, e))
              (read_slices-Reads lens walk (offset + n1) (total + n1) (n - n1) ps
                (omega (arith, fits)) (omega (arith, small)) (omega (arith, enough))
                (omega (arith, some_read, e)))
      ]

  -- The rounds of `read_all`.
  read_rest-content :
      (fuel walk offset n : ℕ)
      → 512 ≤ walk
      → offset + 512 < 2 ^ 64
      → n < fuel
      → size - offset ≡ n
      → read_rest fuel walk fs f offset ≡ returned (some (content offset n, offset + n))
  read_rest-content zero walk offset n enough fits more e = absurd (omega arith)
  read_rest-content (suc fuel) walk offset n enough fits more e =
      let n1 = min (offset + 512) size - offset in
      let here = read_at-content walk offset 512 n1 (omega (arith, fits)) enough refl in
      let counted = length-content offset n1 in
      elim (Bool-cases (n1 == 0)) [
        | inl over ↦
            let nothing : n1 ≡ 0 = eq_of_== n1 0 over in
            rest_end walk fuel fs f offset (content offset n1) here (counted ∙ nothing)
            ∙ ap₂ (λ (k x : ℕ). returned (some (content offset k, x)))
                (let z : 0 ≡ n = omega (arith, nothing, e) in z)
                (let z : offset ≡ offset + n = omega (arith, nothing, e) in z)
        | inr left ↦
            let some_read : n1 ≢ 0 = ne_of_== n1 0 left in
            rest_step walk fuel fs f offset (content offset n1) here (offset + n1)
              (offset + n1 + (n - n1)) (content (offset + n1) (n - n1))
              (ground (arith, counted, some_read)) (omega (arith, counted, w.size))
              (read_rest-content fuel walk (offset + n1) (n - n1) enough
                (omega (arith, w.size, some_read)) (omega (arith, more, some_read, e))
                (omega (arith, e)))
            ∙ ap (λ (l : List ℕ). returned (some (l, offset + n1 + (n - n1))))
                (range-append (byte_at fs.vol fs.manager cs) offset n1 (n - n1))
            ∙ ap₂ (λ (k x : ℕ). returned (some (content offset k, x)))
                (let z : n1 + (n - n1) ≡ n = omega (arith, e) in z)
                (let z : offset + n1 + (n - n1) ≡ offset + n = omega (arith, e) in z)
      ]

  -- `OSInode::read` of a file fills the slices of a user buffer, none of them empty, with the bytes of the file
  -- from the offset on, in order, up to the end of the buffer or of the file, moves the offset behind them and
  -- returns their number; on a mounted volume, with as much fuel as the buffer has bytes.
  pub read-content :
      (o : OsInode) (lens : List ℕ) (walk : ℕ)
      → o.inode ≡ f
      → AllPositive lens
      → o.offset + sum lens < 2 ^ 64
      → sum lens ≤ walk
      → (parts : List (List ℕ)) × (read walk fs o lens
          ≡ returned (
              some (
                parts,
                min (o.offset + sum lens) (read_short_dirent fs f).size - o.offset,
                record o {
                  offset =
                      o.offset
                      + (min (o.offset + sum lens) (read_short_dirent fs f).size - o.offset);
                },
              )))
        × (flatten parts
            ≡ range
                (byte_at fs.vol fs.manager cs)
                o.offset
                (min (o.offset + sum lens) (read_short_dirent fs f).size - o.offset))
  unfolding read
  read-content o lens walk same ps fits enough =
      let (parts, e, bytes) =
        read_slices-Reads lens walk o.offset 0 _ ps fits (omega (arith, fits)) enough refl in
      let n = min (o.offset + sum lens) size - o.offset in
      let counted : 0 + n ≡ n = omega arith in (parts, rw (same, e, counted) refl, bytes)

  -- `OSInode::read_all` of a file gives its bytes from the offset on to its end, and leaves the offset there, on
  -- a mounted volume; with more rounds than there are bytes, fuel of 512 for a walk, and an offset below
  -- 2 ^ 64 - 512.
  pub read_all-content :
      (o : OsInode) (fuel walk : ℕ)
      → o.inode ≡ f
      → 512 ≤ walk
      → o.offset + 512 < 2 ^ 64
      → (read_short_dirent fs f).size - o.offset < fuel
      → read_all fuel walk fs o
        ≡ returned (
            some (
              range
                  (byte_at fs.vol fs.manager cs)
                  o.offset
                  ((read_short_dirent fs f).size - o.offset),
              record o { offset = o.offset + ((read_short_dirent fs f).size - o.offset) },
            ))
  unfolding read_all
  read_all-content o fuel walk same enough fits more =
      rw (same, read_rest-content fuel walk o.offset _ enough fits more refl) refl
