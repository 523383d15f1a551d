-- ===== src/Task/Mmap/Rounds.antt =====
-- The rounds of `sys_munmap`.
use bitos.Base.{
  ℕ, zero, suc, ◌+◌, ◌-◌, ◌*◌, ◌^◌, ◌≤◌, ◌<◌, ◌≡◌, ◌≢◌, ◌⊎◌, inl, inr, refl, sym, ap, subst, ◌∙◌,
  arith, bit_and, bit_or, Bool, true, false, ◌&&◌, ltb, leb, ◌==◌, if◌then◌else◌, Bool-cases,
  Option-cases, none, some, [], Outcome, returned, ==_of_ne, eq_of_==, ne_of_==,
}
use bitos.Base.Bits.{and_low_mask, or_of_fields}
use bitos.Mm.Address.{phys_page_num_from, step}
use bitos.Mm.FrameAllocator.{Memory, Frames}
use bitos.Mm.PageTableEntry.{PageTableEntry, is_valid}
use bitos.Mm.PageTable.{PageTable, translate, find_pte, token, from_token}
use bitos.Mm.PageTable.Tree.{Owner}
use bitos.Mm.PageTable.Walk.{IsSound}
use bitos.Mm.PageTable.Found.{entry_of, set_entry}
use bitos.Mm.PageTable.Mapping.{unmap_refines, translate-entry_of}
use bitos.Mm.MemorySet
use bitos.Mm.MemorySet.{MemorySet}
use bitos.Task.Mmap.{munmap_pages}

from_token-token :
    (t : PageTable)
    → t.root_ppn < 2 ^ 44
    → from_token (token t) ≡ record { root_ppn = t.root_ppn; frames = [] }
unfolding from_token token phys_page_num_from
from_token-token t h =
    let r = t.root_ppn in
    let whole : bit_or (8 * 2 ^ 60) r ≡ 8 * 2 ^ 60 + r = or_of_fields 60 8 r (omega (arith, h)) in
    let low : bit_and (bit_or (8 * 2 ^ 60) r) (2 ^ 44 - 1) ≡ r =
      and_low_mask 44 (bit_or (8 * 2 ^ 60) r) ∙ omega (arith, whole, h) in
    let again : bit_and r (2 ^ 44 - 1) ≡ r = and_low_mask 44 r ∙ omega (arith, h) in
    ap (λ (p : ℕ). record { root_ppn = p; frames = [] })
      (ap (λ (x : ℕ). bit_and x (2 ^ 44 - 1)) low ∙ again)

pub translate-from_token :
    (mem : Memory) (t : PageTable) (vpn : ℕ)
    → t.root_ppn < 2 ^ 44
    → translate mem (from_token (token t)) vpn ≡ translate mem t vpn
unfolding translate find_pte
translate-from_token mem t vpn h =
    ap (λ (t : PageTable). translate mem t vpn) (from_token-token t h)

pub step_small : (vpn : ℕ) → vpn < 2 ^ 27 → step vpn ≡ suc vpn
unfolding step
step_small vpn h = omega arith

-- The `k` pages from `vpn` on.
abbrev pub in_run : (vpn k x : ℕ) → Bool
in_run vpn k x = leb vpn x && ltb x (vpn + k)

-- Of `n` pages from `vpn` on, those before the first that is not mapped, `k` of them, are unmapped, and the
-- loop came to its end if these are all.
abbrev pub Unmaps :
    (start : ℕ) → Frames → PageTable → Owner → (vpn n : ℕ) → Outcome (Bool × Frames) → Type 0
Unmaps start s t owner vpn n o =
    (k : ℕ) × (s' : Frames) × (o ≡ returned (k == n, s'))
    × (k ≤ n)
    × ((i : ℕ) → i < k → entry_of s.mem t (vpn + i) ≢ none)
    × (k < n → entry_of s.mem t (vpn + k) ≡ none)
    × IsSound start s' t owner
    × ((x : ℕ)
        → x < 2 ^ 27
        → entry_of s'.mem t x ≡ (if in_run vpn k x then none else entry_of s.mem t x))

-- The round that goes on.
munmap_next :
    (n : ℕ) (s s1 : Frames) (m : MemorySet) (vpn : ℕ) (e : PageTableEntry)
    (o : Outcome (Bool × Frames))
    → vpn < 2 ^ 27
    → m.page_table.root_ppn < 2 ^ 44
    → translate s.mem m.page_table vpn ≡ some e
    → is_valid e ≡ true
    → MemorySet.unmap s m vpn ≡ returned s1
    → munmap_pages n s1 m (suc vpn) ≡ o
    → munmap_pages (suc n) s m vpn ≡ o
unfolding munmap_pages MemorySet.token
munmap_next n s s1 m vpn e o small root found valid gone rest =
    rw
      (
        munmap_pages,
        translate-from_token s.mem m.page_table vpn root,
        found,
        valid,
        gone,
        step_small vpn small,
      )
      rest

-- The round that ends the loop.
munmap_stop :
    (n : ℕ) (s : Frames) (m : MemorySet) (vpn : ℕ)
    → m.page_table.root_ppn < 2 ^ 44
    → (translate s.mem m.page_table vpn ≡ none)
      ⊎ ((e : PageTableEntry) × (translate s.mem m.page_table vpn ≡ some e) × (is_valid e ≡ false))
    → munmap_pages (suc n) s m vpn ≡ returned (false, s)
unfolding munmap_pages MemorySet.token
munmap_stop n s m vpn root (inl e) =
    rw (munmap_pages, translate-from_token s.mem m.page_table vpn root, e) refl
munmap_stop n s m vpn root (inr (w, e, bad)) =
    rw (munmap_pages, translate-from_token s.mem m.page_table vpn root, e, bad) refl

module _ {start : ℕ} {s : Frames} {t : PageTable} {owner : Owner} (v : IsSound start s t owner)
    (vpn : ℕ) (small : vpn < 2 ^ 27) where
  pub invalid :
      entry_of s.mem t vpn ≡ none
      → (translate s.mem t vpn ≡ none)
        ⊎ ((e : PageTableEntry) × (translate s.mem t vpn ≡ some e) × (is_valid e ≡ false))
  invalid gone = elim (Option-cases (translate s.mem t vpn)) [
    | inl e ↦ inl e
    | inr (w, e) ↦ elim (Bool-cases (is_valid w)) [
      | inr bad ↦ inr (w, e, bad)
      | inl good ↦ absurd (cc ((translate-entry_of v vpn small w).1 (e, good), gone))
    ]
  ]

  none_unmapped :
      (n : ℕ)
      → entry_of s.mem t vpn ≡ none
      → Unmaps start s t owner vpn (suc n) (returned (false, s))
  none_unmapped n gone = (
    0,
    s,
    ap (λ (b : Bool). returned (b, s)) (ground arith),
    omega arith,
    λ i h. absurd (omega arith),
    λ h. ap (entry_of s.mem t) (let e : vpn + 0 ≡ vpn = omega arith in e) ∙ gone,
    v,
    λ x hx. ground arith,
  )

  one_more :
      (n : ℕ) (s1 : Frames) (e : PageTableEntry) (o : Outcome (Bool × Frames))
      → entry_of s.mem t vpn ≡ some e
      → ((x : ℕ) → x < 2 ^ 27 → entry_of s1.mem t x ≡ set_entry (entry_of s.mem t) vpn none x)
      → suc vpn + n ≤ 2 ^ 27
      → Unmaps start s1 t owner (suc vpn) n o
      → Unmaps start s t owner vpn (suc n) o
  one_more n s1 e o was entries room (k, s', done, some_left, mapped, stuck, sound, after) = (
    suc k,
    s',
    done ∙ ap (λ (b : Bool). returned (b, s')) (ground arith),
    omega (arith, some_left),
    λ i h. elim (Bool-cases (i == 0)) [
      | inl first ↦ λ gone. cc (
        ap (entry_of s.mem t) (let z : vpn + i ≡ vpn = omega (arith, eq_of_== i 0 first) in z),
        was,
        gone,
      )
      | inr later ↦ λ gone. mapped (i - 1) (omega (arith, ne_of_== i 0 later)) (
          same (suc vpn + (i - 1)) (omega (arith, some_left, h, ne_of_== i 0 later)) (omega arith)
          ∙ ap (entry_of s.mem t) (omega (arith, ne_of_== i 0 later))
          ∙ gone)
    ],
    λ h.
        ap (entry_of s.mem t) (let z : vpn + suc k ≡ suc vpn + k = omega arith in z)
        ∙ sym (same (suc vpn + k) (omega (arith, h)) (omega arith))
        ∙ stuck (omega (arith, h)),
    sound,
    λ x hx. after x hx ∙ ground (arith, entries x hx),
  )
    where
      same : (x : ℕ) → x < 2 ^ 27 → x ≢ vpn → entry_of s1.mem t x ≡ entry_of s.mem t x
      same x hx ne = entries x hx ∙ rw (==_of_ne x vpn ne) refl

module _ {start : ℕ} (m : MemorySet) {owner : Owner} where
  pub munmap_pages-Unmaps :
      (n : ℕ) (s : Frames) (vpn : ℕ)
      → IsSound start s m.page_table owner
      → m.page_table.root_ppn < 2 ^ 44
      → vpn + n ≤ 2 ^ 27
      → Unmaps start s m.page_table owner vpn n (munmap_pages n s m vpn)
  unfolding munmap_pages MemorySet.unmap
  munmap_pages-Unmaps zero s vpn v root room = (
    0,
    s,
    ap (λ (b : Bool). returned (b, s)) (ground arith),
    omega arith,
    λ i h. absurd (omega arith),
    λ h. absurd (omega arith),
    v,
    λ x hx. ground arith,
  )
  munmap_pages-Unmaps (suc n) s vpn v root room =
      elim (Option-cases (entry_of s.mem m.page_table vpn)) [
        | inl gone ↦
            subst (λ (o : Outcome (Bool × Frames)). Unmaps start s m.page_table owner vpn (suc n) o)
              (sym (munmap_stop n s m vpn root (invalid v vpn (omega (arith, room)) gone)))
              (none_unmapped v vpn (omega (arith, room)) n gone)
        | inr (e, was) ↦ elim (unmap_refines v vpn (omega (arith, room))) [
          | inl (_, gone) ↦ absurd (cc (was, gone))
          | inr (s1, _, freed, _, v1, entries) ↦
              let (found, valid) = (translate-entry_of v vpn (omega (arith, room)) e).0 was in
              let rest = munmap_pages-Unmaps n s1 (suc vpn) v1 root (omega (arith, room)) in
              subst
                (λ (o : Outcome (Bool × Frames)). Unmaps start s m.page_table owner vpn (suc n) o)
                (sym (
                  munmap_next n s s1 m vpn e (munmap_pages n s1 m (suc vpn)) (omega (arith, room))
                    root found valid freed refl))
                (one_more v vpn (omega (arith, room)) n s1 e (munmap_pages n s1 m (suc vpn)) was
                  entries (omega (arith, room)) rest)
        ]
      ]
