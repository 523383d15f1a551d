-- ===== src/Task/Mmap/Unmapping.antt =====
-- What `sys_munmap` does to an address space.
use bitos.Base.{
  ℕ, ◌+◌, ◌-◌, ◌%◌, ◌^◌, ◌≤◌, ◌<◌, ◌≡◌, refl, arith, Bool, if◌then◌else◌, Outcome, returned, ◌>>=◌,
  leb_of_le, leb, ◌==◌, ==_of_ne, eq_of_==, ne_of_==, ◌≢◌, ◌⊎◌, inl, inr, Bool-cases, false,
  panicked,
}
use bitos.Base.Bits.{and_low_mask}
use bitos.Mm.Address.{floor, ceil, virt_addr_from, new_range}
use bitos.Mm.FrameAllocator.{Frames}
use bitos.Mm.PageTable.Tree.{Owner}
use bitos.Mm.PageTable.Walk.{IsSound}
use bitos.Task.Tcb.{TaskControlBlock}
use bitos.Task.Kernel.{Kernel}
use bitos.Task.Process.{failed}
use bitos.Task.Calls.{current_task}
use bitos.Task.Mmap.Rounds.{Unmaps, munmap_pages-Unmaps}
use bitos.Task.Mmap.{munmap_pages, sys_munmap}

pub bounded_end : (v : ℕ) → ceil (virt_addr_from v) ≤ 2 ^ 27
unfolding ceil virt_addr_from
bounded_end v = omega (arith, and_low_mask 39 v)

-- The pages of a range.
abbrev pub page_of : (addr : ℕ) → ℕ
page_of addr = floor (virt_addr_from addr)

abbrev pub end_of : (addr len : ℕ) → ℕ
end_of addr len = ceil (virt_addr_from ((addr + len) % 2 ^ 64))

-- How `sys_munmap` ends: an address that is not aligned, a range that ends before its first page, or pages.
abbrev pub Munmapped :
    (start : ℕ) → Kernel → TaskControlBlock → Owner → (addr len : ℕ) → Outcome (ℕ × Kernel) → Type 0
Munmapped start k t owner addr len o =
    ((addr % 4096 ≢ 0) × (o ≡ returned (failed, k)))
    ⊎ ((addr % 4096 ≡ 0) × (end_of addr len < page_of addr) × (o ≡ panicked))
    ⊎ ((addr % 4096 ≡ 0)
        × (page_of addr ≤ end_of addr len)
        × (pages : Outcome (Bool × Frames)) × (o ≡ (
            pages >>= λ (ok, frames).
            returned (if ok then 0 else failed, record k { frames = frames })))
        × Unmaps start k.frames t.memory_set.page_table owner (page_of addr)
            (end_of addr len - page_of addr) pages)

module _ (k : Kernel) (t : TaskControlBlock) (addr len : ℕ)
    (now : current_task k ≡ returned t) where
  unmaps_range :
      addr % 4096 ≡ 0
      → page_of addr ≤ end_of addr len
      → sys_munmap addr len k ≡ (
          munmap_pages (end_of addr len - page_of addr) k.frames t.memory_set (page_of addr)
          >>= λ (ok, frames). returned (if ok then 0 else failed, record k { frames = frames }))
  unfolding sys_munmap new_range
  unmaps_range aligned ordered =
      rw (aligned, now, leb_of_le (page_of addr) (end_of addr len) ordered) refl

  no_range : addr % 4096 ≡ 0 → end_of addr len < page_of addr → sys_munmap addr len k ≡ panicked
  unfolding sys_munmap new_range
  no_range aligned h =
      let e : leb (page_of addr) (end_of addr len) ≡ false = ground arith in
      rw (aligned, now, e) refl

  not_aligned : addr % 4096 ≢ 0 → sys_munmap addr len k ≡ returned (failed, k)
  unfolding sys_munmap
  not_aligned h = rw (==_of_ne (addr % 4096) 0 h) refl

  -- `sys_munmap` of a task with a sound page table, whose root is below 2 ^ 44, returns -1 and changes nothing
  -- for an address that is not aligned. Otherwise it panics if the page of the address lies behind the end, which 39 bits are kept of and which is rounded up. Else
  -- it unmaps the pages from that of the address to the end, up to the first which is not mapped: it returns 0
  -- if these are all, and -1 otherwise, with the pages before it unmapped all the same; the table stays sound, and
  -- every other page has the entry that it had.
  pub sys_munmap-Munmapped :
      {start : ℕ} {owner : Owner}
      → IsSound start k.frames t.memory_set.page_table owner
      → t.memory_set.page_table.root_ppn < 2 ^ 44
      → Munmapped start k t owner addr len (sys_munmap addr len k)
  sys_munmap-Munmapped v root = elim (Bool-cases (addr % 4096 == 0)) [
    | inr e ↦ let h = ne_of_== (addr % 4096) 0 e in inl (h, not_aligned h)
    | inl e ↦
        let aligned = eq_of_== (addr % 4096) 0 e in
        elim (Bool-cases (leb (page_of addr) (end_of addr len))) [
          | inr back ↦
              let h : end_of addr len < page_of addr = ground arith in
              inr (inl (aligned, h, no_range aligned h))
          | inl forth ↦
              let h : page_of addr ≤ end_of addr len = ground arith in
              inr (
                inr (
                  aligned,
                  h,
                  munmap_pages (end_of addr len - page_of addr) k.frames t.memory_set
                      (page_of addr),
                  unmaps_range aligned h,
                  munmap_pages-Unmaps t.memory_set (end_of addr len - page_of addr) k.frames
                      (page_of addr) v root (omega (arith, h, bounded_end ((addr + len) % 2 ^ 64))),
                ))
        ]
  ]
