-- ===== src/Fat32/BlockCacheManager/Tests.antt =====
-- Two cached blocks, and the theorems on them.
use bitos.Base.{
  ℕ, ◌≡◌, refl, arith, true, false, none, some, List, [], ◌∷◌, ◌==◌, if◌then◌else◌, subst,
  Bool-cases, eq_of_==, inl, inr, returned, replicate,
}
use bitos.Fat32.BlockCache.{Disk, BlockCache}
use bitos.Fat32.BlockCacheManager.{
  Cached, BlockCacheManager, read_block_cache, get_block_cache, drop_all, modify,
}
use bitos.Fat32.BlockCacheManager.Coherence.{
  view, IsCopy, IsValid, Fetches, get_block_cache-Fetches,
}
use bitos.Fat32.BlockCacheManager.Writes.{spliced, drop_all-view, modify-view}

abbrev disk : Disk
disk b = replicate 512 b

-- Block 3 was modified, and block 8 was not.
abbrev third : BlockCache
third = record { cache = replicate 512 9; block_id = 3; modified = true }

abbrev eighth : BlockCache
eighth = record { cache = replicate 512 8; block_id = 8; modified = false }

abbrev manager : BlockCacheManager
manager = record {
  start_sec = 0;
  queue =
      record { id = 3; strong_count = 1; block = third }
      ∷ record { id = 8; strong_count = 1; block = eighth }
      ∷ [];
}

one_of_two :
    (t e : BlockCache) (b : ℕ) (c : BlockCache)
    → IsCopy disk 3 t
    → IsCopy disk 8 e
    → (if 3 == b then some t else if 8 == b then some e else none) ≡ some c
    → IsCopy disk b c
one_of_two t e b c ct ce at = elim (Bool-cases (3 == b)) [
  | inl h ↦
      let it : t ≡ c = ground (arith, at, h) in
      subst (λ x. IsCopy disk x c) (eq_of_== 3 b h) (subst (IsCopy disk 3) it ct)
  | inr h ↦ elim (Bool-cases (8 == b)) [
    | inl k ↦
        let it : e ≡ c = ground (arith, at, h, k) in
        subst (λ x. IsCopy disk x c) (eq_of_== 8 b k) (subst (IsCopy disk 8) it ce)
    | inr k ↦ absurd (ground (arith, at, h, k))
  ]
]

manager-IsValid : IsValid disk manager.queue
unfolding read_block_cache
manager-IsValid = record {
  distinct = (refl, (refl, tt));
  bounded = omega arith;
  copies = λ b c at. one_of_two third eighth b c (refl, λ m. cc) (refl, λ m. refl) at;
}

get_block_cache-Fetches_example : Fetches disk manager.queue 5 (get_block_cache disk manager 5)
get_block_cache-Fetches_example = get_block_cache-Fetches disk manager 5 manager-IsValid

drop_all-view_example :
    ((b : ℕ) → (drop_all disk manager).0 b ≡ view disk manager.queue b)
    × (BlockCacheManager.queue ((drop_all disk manager).1) ≡ [])
drop_all-view_example = drop_all-view disk manager manager-IsValid (refl, (refl, tt))

abbrev ones : List ℕ → List ℕ
ones bytes = replicate 4 1

modify-view_example :
    (queue' : List Cached) × (modify 4 manager.queue 8 100 ones ≡ returned queue')
    × IsValid disk queue'
    × ((b : ℕ)
        → view disk queue' b ≡ (
            if 8 == b
            then spliced 4 (view disk manager.queue 8) 100 ones
            else view disk manager.queue b))
unfolding read_block_cache
modify-view_example =
    modify-view 4 100 ones (omega arith) disk manager.queue 8 eighth manager-IsValid refl
