-- ===== src/Task/Life/Death.antt =====
-- A task that exits, and a child that its parent takes.
use bitos.Base.{
  ℕ, ◌+◌, ◌≤◌, ◌≡◌, ◌≢◌, refl, sym, ap, ◌∙◌, inl, inr, arith, false, some, none, List, [], ◌∷◌,
  ◌++◌, ◌==◌, ==_of_ne,
}
use bitos.Mm.MemorySet.{MemorySet}
use bitos.Task.Tcb.{TaskControlBlock, is_zombie}
use bitos.Task.Kernel.{find_task, modify_task, initproc, adopt_all, buried, account}
use bitos.Task.Wait.{count}
use bitos.Task.Life.Counts.{
  one, total, named, live, kids, orphans, stuck, count-last, total-modify_task,
  total-modify_task_same, find_task_cases, live_of_found, live_le_named, one_self, live_of_running,
  not_exited, orphans-zero, find_task-modify_task_keeps, find_task-modify_task_ne,
}
use bitos.Task.Life.Sound.{Sound}

abbrev of_initproc : TaskControlBlock → TaskControlBlock
of_initproc t = record t { parent = some initproc }

abbrev adopted : List TaskControlBlock → ℕ → List TaskControlBlock
adopted ts child =
    modify_task (modify_task ts child of_initproc) initproc
      (λ t. record t { children = t.children ++ child ∷ [] })

-- The tasks after an adoption: `initproc` has more children, and the task `c` still has its own.
record Adoption (ts ts' : List TaskControlBlock) (more : List ℕ) (c : ℕ) : Type 0 where
  pub same_named : (q : ℕ) → total (named q) ts' ≡ total (named q) ts
  pub same_live : (q : ℕ) → total (live q) ts' ≡ total (live q) ts
  pub more_kids : (q : ℕ) → total (kids q) ts' ≡ total (kids q) ts + count q more
  pub same_stuck : total stuck ts' ≡ total stuck ts
  pub same_orphans : total orphans ts' ≡ total orphans ts
  pub keeps :
      {t : TaskControlBlock}
      → find_task ts c ≡ some t
      → (t' : TaskControlBlock) × (find_task ts' c ≡ some t') × (t'.children ≡ t.children)

abbrev more_child : ℕ → TaskControlBlock → TaskControlBlock
more_child child t = record t { children = t.children ++ child ∷ [] }

module _ (ts : List TaskControlBlock) (child : ℕ) where
  same_adopted :
      (w : TaskControlBlock → ℕ)
      → ((t : TaskControlBlock) → w (of_initproc t) ≡ w t)
      → ((t : TaskControlBlock) → w (more_child child t) ≡ w t)
      → total w (adopted ts child) ≡ total w ts
  same_adopted w h h' =
      total-modify_task_same w (modify_task ts child of_initproc) initproc (more_child child) h'
      ∙ total-modify_task_same w ts child of_initproc h

  adopted_keeps :
      (c : ℕ) {t : TaskControlBlock}
      → c ≢ initproc
      → find_task ts c ≡ some t
      → (t' : TaskControlBlock) × (find_task (adopted ts child) c ≡ some t')
        × (t'.children ≡ t.children)
  adopted_keeps c ne e =
      let (t', e', same) =
        find_task-modify_task_keeps ts child c of_initproc (λ t. refl) (λ t. refl) e in
      (
        t',
        find_task-modify_task_ne (modify_task ts child of_initproc) initproc c (more_child child)
              (λ t. refl) (λ g. ne (sym g))
            ∙ e',
        same,
      )

  -- Where `initproc` is and has not exited.
  module _ (l : total (live initproc) ts ≡ 1) (n : total (named initproc) ts ≤ 1) where
    initproc_found :
        (t : TaskControlBlock) × (find_task (modify_task ts child of_initproc) initproc ≡ some t)
        × (is_zombie t ≡ false)
    unfolding is_zombie
    initproc_found =
        let ts1 = modify_task ts child of_initproc in
        let same : (w : TaskControlBlock → ℕ)
            → ((t : TaskControlBlock) → w (of_initproc t) ≡ w t)
            → total w ts1 ≡ total w ts =
          λ w h. total-modify_task_same w ts child of_initproc h in
        elim (find_task_cases ts1 initproc) [
          | inl (e, z) ↦
              absurd (omega (arith, live_le_named ts1 initproc, same (live initproc) (λ t. refl)))
          | inr (t, e, p) ↦ (
            t,
            e,
            not_exited t (
                omega (
                  arith,
                  live_of_found ts1 initproc e (omega (arith, same (named initproc) (λ t. refl))),
                  same (live initproc) (λ t. refl),
                )),
          )
        ]

    more_kids :
        (q : ℕ) → total (kids q) (adopted ts child) ≡ total (kids q) ts + count q (child ∷ [])
    unfolding count
    more_kids q =
        let (t, e, running) = initproc_found in
        omega (
          arith,
          total-modify_task (kids q) (modify_task ts child of_initproc) initproc (more_child child)
              e,
          count-last q t.children child,
          total-modify_task_same (kids q) ts child of_initproc (λ t. refl),
        )

    orphans-adopted : total orphans (adopted ts child) ≡ total orphans ts
    unfolding is_zombie
    orphans-adopted =
        let (t, e, running) = initproc_found in
        let none_before : orphans t ≡ 0 = orphans-zero t running in
        let none_after : orphans (more_child child t) ≡ 0 =
          orphans-zero (more_child child t) running in
        omega (
          arith,
          total-modify_task orphans (modify_task ts child of_initproc) initproc (more_child child)
              e,
          none_before,
          none_after,
          total-modify_task_same orphans ts child of_initproc (λ t. refl),
        )

    adopted-Adoption : (c : ℕ) → c ≢ initproc → Adoption ts (adopted ts child) (child ∷ []) c
    unfolding is_zombie
    adopted-Adoption c ne = record {
      same_named = λ q. same_adopted (named q) (λ t. refl) (λ t. refl);
      same_live = λ q. same_adopted (live q) (λ t. refl) (λ t. refl);
      more_kids = λ q. more_kids q;
      same_stuck = same_adopted stuck (λ t. refl) (λ t. refl);
      same_orphans = orphans-adopted;
      keeps = λ {t} e. adopted_keeps c ne e;
    }

module _ (c : ℕ) (ne : c ≢ initproc) where
  adopt_all-Adoption :
      (ts : List TaskControlBlock) (children : List ℕ)
      → total (live initproc) ts ≡ 1
      → total (named initproc) ts ≤ 1
      → Adoption ts (adopt_all ts children) children c
  unfolding adopt_all count
  adopt_all-Adoption ts [] l n = record {
    same_named = λ q. refl;
    same_live = λ q. refl;
    more_kids = λ q. omega arith;
    same_stuck = refl;
    same_orphans = refl;
    keeps = λ {t} e. (t, e, refl);
  }
  adopt_all-Adoption ts (child ∷ children) l n =
      let a = adopted-Adoption ts child l n c ne in
      let b =
        adopt_all-Adoption (adopted ts child) children (a.same_live initproc ∙ l)
          (omega (arith, a.same_named initproc)) in
      record {
        same_named = λ q. b.same_named q ∙ a.same_named q;
        same_live = λ q. b.same_live q ∙ a.same_live q;
        more_kids = λ q. omega (arith, b.more_kids q, a.more_kids q);
        same_stuck = b.same_stuck ∙ a.same_stuck;
        same_orphans = b.same_orphans ∙ a.same_orphans;
        keeps = λ {t} e.
            let (t1, e1, same1) = a.keeps e in
            let (t2, e2, same2) = b.keeps e1 in (t2, e2, same2 ∙ same1);
      }

  module _ (t : TaskControlBlock) (m : MemorySet) (now exit_code : ℕ) where
    live-buried : (q : ℕ) → live q (buried t m now exit_code) ≡ 0
    unfolding account is_zombie
    live-buried q = ground arith

    orphans-buried : orphans (buried t m now exit_code) ≡ 0
    unfolding account is_zombie
    orphans-buried = refl

    kids-buried : (q : ℕ) → kids q (buried t m now exit_code) ≡ 0
    unfolding account count
    kids-buried q = refl

    named-buried : (q : ℕ) → named q (buried t m now exit_code) ≡ named q t
    unfolding account
    named-buried q = refl

    stuck-buried : stuck (buried t m now exit_code) ≡ stuck t
    unfolding account
    stuck-buried = refl

  -- The current task exits.
  module _ {ts : List TaskControlBlock} {queue : List ℕ} {t : TaskControlBlock} (m : MemorySet)
      (now exit_code : ℕ) (v : Sound ts queue (some c)) (e : find_task ts c ≡ some t) where
    abbrev after : List TaskControlBlock
    after = modify_task (adopt_all ts t.children) c (λ u. buried u m now exit_code)

    adoption : Adoption ts (adopt_all ts t.children) t.children c
    adoption = adopt_all-Adoption ts t.children v.init (v.distinct initproc)

    abbrev dying : TaskControlBlock
    dying = (adoption.keeps e).0

    dying_found : find_task (adopt_all ts t.children) c ≡ some dying
    dying_found = (adoption.keeps e).1

    change :
        (w : TaskControlBlock → ℕ)
        → total w after + w dying
          ≡ total w (adopt_all ts t.children) + w (buried dying m now exit_code)
    change w =
        total-modify_task w (adopt_all ts t.children) c (λ u. buried u m now exit_code) dying_found

    pub named_after : (q : ℕ) → total (named q) after ≡ total (named q) ts
    named_after q =
        omega (arith, change (named q), adoption.same_named q, named-buried dying m now exit_code q)

    dying_running : is_zombie dying ≡ false
    dying_running =
        let once : total (named c) (adopt_all ts t.children) ≤ 1 =
          omega (arith, adoption.same_named c, v.distinct c) in
        not_exited dying (
          omega (
            arith,
            live_of_found (adopt_all ts t.children) c dying_found once,
            adoption.same_live c,
            v.runs c,
            one_self c,
          ))

    live_after : (q : ℕ) → total (live q) after + one (c == q) ≡ total (live q) ts
    live_after q = omega (
      arith,
      change (live q),
      live-buried dying m now exit_code q,
      live_of_running (adopt_all ts t.children) c q dying_found dying_running,
      adoption.same_live q,
    )

    pub buried-Sound : Sound after queue none
    buried-Sound = record {
      distinct = λ q. omega (arith, named_after q, v.distinct q);
      tree = λ q. omega (
        arith,
        change (kids q),
        kids-buried dying m now exit_code q,
        ap (count q) (adoption.keeps e).2,
        adoption.more_kids q,
        named_after q,
        v.tree q,
      );
      runs = λ q. omega (arith, live_after q, v.runs q);
      init = omega (arith, live_after initproc, v.init, ap one (==_of_ne c initproc ne));
      priorities = omega (
        arith,
        change stuck,
        stuck-buried dying m now exit_code,
        adoption.same_stuck,
        v.priorities,
      );
      leaves = omega (
        arith,
        change orphans,
        orphans-buried dying m now exit_code,
        adoption.same_orphans,
        v.leaves,
      );
    }
