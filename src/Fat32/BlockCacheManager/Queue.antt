-- ===== src/Fat32/BlockCacheManager/Queue.antt =====
-- What the operations on the queue do to the lookup of blocks.
use bitos.Base.{
  ℕ, suc, ◌≡◌, ◌≢◌, refl, ap, ◌∙◌, arith, false, Option, none, some, List, [], ◌∷◌, ◌++◌, ◌==◌,
  if◌then◌else◌, length, Bool-cases, inl, inr, ==_self,
}
use bitos.Fat32.BlockCache.{BlockCache}
use bitos.Fat32.BlockCacheManager.{Cached, read_block_cache, hold, release, drain_free}

abbrev pub or_else : Option BlockCache → Option BlockCache → Option BlockCache
or_else none o = o
or_else (some c) o = some c

-- No block stands twice in the queue.
abbrev pub Distinct : List Cached → Type 0
Distinct [] = Unit {0}
Distinct (c ∷ cs) = (read_block_cache cs c.id ≡ none) × Distinct cs

pub read_block_cache-append :
    (xs ys : List Cached) (b : ℕ)
    → read_block_cache (xs ++ ys) b ≡ or_else (read_block_cache xs b) (read_block_cache ys b)
unfolding read_block_cache
read_block_cache-append [] ys b = refl
read_block_cache-append (x ∷ xs) ys b = ground (arith, read_block_cache-append xs ys b)

pub read_block_cache-hold :
    (xs : List Cached) (id b : ℕ) → read_block_cache (hold xs id) b ≡ read_block_cache xs b
unfolding read_block_cache hold
read_block_cache-hold [] id b = refl
read_block_cache-hold (x ∷ xs) id b = ground (arith, read_block_cache-hold xs id b)

pub read_block_cache-release :
    (xs : List Cached) (id b : ℕ) → read_block_cache (release xs id) b ≡ read_block_cache xs b
unfolding read_block_cache release
read_block_cache-release [] id b = refl
read_block_cache-release (x ∷ xs) id b = ground (arith, read_block_cache-release xs id b)

pub Distinct-hold :
    (xs : List Cached) (id : ℕ)
    → Distinct xs
    → (Distinct (hold xs id)) × (length (hold xs id) ≡ length xs)
unfolding hold
Distinct-hold [] id d = (tt, refl)
Distinct-hold (x ∷ xs) id (n, d) =
    let (d', l) = Distinct-hold xs id d in
    elim (Bool-cases (x.id == id)) [
      | inl e ↦ rw e ((n, d), refl)
      | inr e ↦ rw e ((read_block_cache-hold xs id x.id ∙ n, d'), ap suc l)
    ]

pub Distinct-release :
    (xs : List Cached) (id : ℕ)
    → Distinct xs
    → (Distinct (release xs id)) × (length (release xs id) ≡ length xs)
unfolding release
Distinct-release [] id d = (tt, refl)
Distinct-release (x ∷ xs) id (n, d) =
    let (d', l) = Distinct-release xs id d in
    elim (Bool-cases (x.id == id)) [
      | inl e ↦ rw e ((n, d), refl)
      | inr e ↦ rw e ((read_block_cache-release xs id x.id ∙ n, d'), ap suc l)
    ]

pub Distinct-append :
    (xs : List Cached) (c : Cached)
    → Distinct xs
    → read_block_cache xs c.id ≡ none
    → Distinct (xs ++ c ∷ [])
unfolding read_block_cache
Distinct-append [] c d n = (refl, tt)
Distinct-append (x ∷ xs) c (m, d) n = (
  read_block_cache-append xs (c ∷ []) x.id ∙ ground (arith, m, n),
  Distinct-append xs c d (ground (arith, n)),
)

-- What `drain_free` takes out.
pub record Drained (queue : List Cached) (free : Cached) (rest : List Cached) : Type 0 where
  pub reads :
      (b : ℕ) → read_block_cache rest b ≡ (if b == free.id then none else read_block_cache queue b)
  pub was : read_block_cache queue free.id ≡ some free.block
  pub apart : Distinct rest
  pub shorter : length queue ≡ suc (length rest)
  pub unheld : free.strong_count ≡ 1

pub Drained-here :
    (c : Cached) (cs : List Cached) → Distinct (c ∷ cs) → c.strong_count ≡ 1 → Drained (c ∷ cs) c cs
unfolding read_block_cache
Drained-here c cs (n, d) one = record {
  reads = λ b. ground (arith, n);
  was = rw (==_self c.id) refl;
  apart = d;
  shorter = refl;
  unheld = one;
}

Drained-later :
    (c : Cached) {cs : List Cached} {free : Cached} {rest : List Cached}
    → read_block_cache cs c.id ≡ none
    → Drained cs free rest
    → Drained (c ∷ cs) free (c ∷ rest)
unfolding read_block_cache
Drained-later c {free} n d =
    let differ : (c.id == free.id) ≡ false = ground (arith, d.was, n) in
    record {
      reads = λ b. ground (arith, d.reads b);
      was = rw differ d.was;
      apart = (ground (arith, d.reads c.id), d.apart);
      shorter = ap suc d.shorter;
      unheld = d.unheld;
    }

-- Every cache of the queue is held outside it.
abbrev pub AllHeld : List Cached → Type 0
AllHeld [] = Unit {0}
AllHeld (c ∷ cs) = (c.strong_count ≢ 1) × AllHeld cs

abbrev pub Drains : List Cached → Option (Cached × List Cached) → Type 0
Drains queue none = AllHeld queue
Drains queue (some (free, rest)) = Drained queue free rest

Drains-later :
    (c : Cached) (cs : List Cached)
    → c.strong_count ≢ 1
    → read_block_cache cs c.id ≡ none
    → (o : Option (Cached × List Cached)) → Drains cs o
    → Drains (c ∷ cs) (elim o [ none ↦ none | some (free, rest) ↦ some (free, c ∷ rest) ])
Drains-later c cs held n none h = (held, h)
Drains-later c cs held n (some (free, rest)) h = Drained-later c n h

pub drain_free-Drains : (queue : List Cached) → Distinct queue → Drains queue (drain_free queue)
unfolding drain_free
drain_free-Drains [] d = tt
drain_free-Drains (c ∷ cs) (n, d) = elim (Bool-cases (c.strong_count == 1)) [
  | inl e ↦ rw e (Drained-here c cs (n, d) (ground (arith, e)))
  | inr e ↦ rw e (Drains-later c cs (ground (arith, e)) n (drain_free cs) (drain_free-Drains cs d))
]
