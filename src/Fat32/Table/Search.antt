-- ===== src/Fat32/Table/Search.antt =====
-- Where `next_free_cluster` stops.
use bitos.Base.{
  ℕ, zero, suc, ◌+◌, ◌%◌, ◌^◌, ◌≤◌, ◌<◌, ◌≡◌, ◌≢◌, ap, arith, some, ◌==◌, Bool-cases, inl, inr,
}
use bitos.Fat32.Volume.{Volume}
use bitos.Fat32.Table.{Fat, low28, seek_free, next_free_cluster}
use bitos.Fat32.Table.Entries.{IsLaidOut, entry1, low28-eq-mod, calculate_pos_fits}

module _ {fat : Fat} (laid : IsLaidOut fat) (small : fat.n_entry ≤ 2 ^ 28) (vol : Volume) where
  seek_free_finds :
      (k c r : ℕ)
      → r < fat.n_entry
      → c ≤ r
      → r < c + k
      → ((e : ℕ) → c ≤ e → e < r → entry1 fat vol e ≢ 0)
      → entry1 fat vol r ≡ 0
      → seek_free k fat vol c ≡ some r
  unfolding seek_free
  seek_free_finds zero c r room le fuel used free = absurd (omega arith)
  seek_free_finds (suc k) c r room le fuel used free = elim (Bool-cases (entry1 fat vol c == 0)) [
    | inl here ↦
        let found : c ≡ r = ground (arith, used c) in
        let cut : low28 c ≡ c = omega (arith, low28-eq-mod c) in
        rw (calculate_pos_fits laid c (omega arith), here, cut) (ap some found)
    | inr there ↦
        let next : (c + 1) % 2 ^ 32 ≡ c + 1 = omega arith in
        rw (calculate_pos_fits laid c (omega arith), there, next)
          (seek_free_finds k (c + 1) r room (ground arith) (omega arith)
            (λ e lo hi. used e (omega arith) hi) free)
  ]

  -- `next_free_cluster` finds the first cluster behind the given one whose entry is free, if there
  -- is one in the table, with as much fuel as clusters are passed. The copies of the table do not
  -- overlap, and it has at most 2 ^ 28 entries.
  pub next_free_cluster_finds :
      (k current r : ℕ)
      → r < fat.n_entry
      → current < r
      → r ≤ current + k
      → ((e : ℕ) → current < e → e < r → entry1 fat vol e ≢ 0)
      → entry1 fat vol r ≡ 0
      → next_free_cluster k fat vol current ≡ some r
  unfolding next_free_cluster
  next_free_cluster_finds k current r room lt fuel used free =
      let next : (current + 1) % 2 ^ 32 ≡ current + 1 = omega arith in
      rw next (
        seek_free_finds k (current + 1) r room (omega arith) (omega arith)
          (λ e lo hi. used e (omega arith) hi) free)
