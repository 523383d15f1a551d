-- ===== src/Task/Life/Counts.antt =====
-- Sums over the tasks, and how a change of one task changes them.
use bitos.Base.{
  ℕ, zero, suc, ◌+◌, ◌≤◌, ◌≡◌, ◌≢◌, refl, sym, ap, ◌∙◌, ◌⊎◌, inl, inr, arith, Bool, true, false,
  not, ◌&&◌, none, some, List, [], ◌∷◌, ◌++◌, ◌==◌, if◌then◌else◌, length, remove, get_elem?,
  Bool-cases, eq_of_==, ==_of_ne, ne_of_==, ==_self,
}
use bitos.Task.Tcb.{TaskControlBlock, is_zombie}
use bitos.Task.Kernel.{find_task, modify_task}
use bitos.Task.Wait.{count, held, delete_task}

abbrev pub one : Bool → ℕ
one b = if b then 1 else 0

abbrev pub total : (TaskControlBlock → ℕ) → List TaskControlBlock → ℕ
total w [] = 0
total w (t ∷ ts) = w t + total w ts

-- The tasks with an identifier, those that have not exited, the places of a task among all children, the
-- children of tasks that have exited, and the tasks of priority 0.
abbrev pub named : ℕ → TaskControlBlock → ℕ
named q t = one (t.pid == q)

abbrev pub live : ℕ → TaskControlBlock → ℕ
live q t = one (t.pid == q && not (is_zombie t))

abbrev pub kids : ℕ → TaskControlBlock → ℕ
kids q t = count q t.children

abbrev pub orphans : TaskControlBlock → ℕ
orphans t = if is_zombie t then length t.children else 0

abbrev pub stuck : TaskControlBlock → ℕ
stuck t = one (t.pri == 0)

some_inj {ℓ} : {A : Type ℓ} {a b : A} → some a ≡ some b → a ≡ b
some_inj {a = a} e = ap (λ o. elim o [ none ↦ a | some x ↦ x ]) e

pub held-total : (q : ℕ) (ts : List TaskControlBlock) → held ts q ≡ total (kids q) ts
unfolding held
held-total q [] = refl
held-total q (t ∷ ts) = omega (arith, held-total q ts)

pub count-append : (q : ℕ) (xs ys : List ℕ) → count q (xs ++ ys) ≡ count q xs + count q ys
unfolding count
count-append q [] ys = omega arith
count-append q (x ∷ xs) ys = omega (arith, count-append q xs ys)

pub count-last : (q : ℕ) (xs : List ℕ) (x : ℕ) → count q (xs ++ x ∷ []) ≡ count q xs + one (x == q)
unfolding count
count-last q xs x = omega (arith, count-append q xs (x ∷ []))

pub count-middle :
    (q : ℕ) (xs ys : List ℕ) (x : ℕ) → count q (xs ++ x ∷ ys) ≡ count q (xs ++ ys) + one (x == q)
unfolding count
count-middle q xs ys x = omega (arith, count-append q xs (x ∷ ys), count-append q xs ys)

pub count-remove :
    (q x : ℕ) (xs : List ℕ) (i : ℕ)
    → get_elem? xs i ≡ some x
    → count q (remove xs i) + one (x == q) ≡ count q xs
unfolding count
count-remove q x [] i e = cc
count-remove q x (y ∷ xs) zero e = omega (arith, ap (λ z. one (z == q)) (some_inj e))
count-remove q x (y ∷ xs) (suc i) e = omega (arith, count-remove q x xs i e)

-- A task is found under its identifier, if there is one.
pub find_task_cases :
    (ts : List TaskControlBlock) (q : ℕ)
    → ((find_task ts q ≡ none) × (total (named q) ts ≡ 0))
      ⊎ ((t : TaskControlBlock) × (find_task ts q ≡ some t) × (t.pid ≡ q))
unfolding find_task
find_task_cases [] q = inl (refl, refl)
find_task_cases (t ∷ ts) q = elim (Bool-cases (t.pid == q)) [
  | inl e ↦ inr (t, rw e refl, eq_of_== t.pid q e)
  | inr e ↦ rw e (elim (find_task_cases ts q) [ inl (n, z) ↦ inl (n, omega arith) | inr r ↦ inr r ])
]

pub total-modify_task :
    (w : TaskControlBlock → ℕ) (ts : List TaskControlBlock) (q : ℕ)
    (f : TaskControlBlock → TaskControlBlock) {t : TaskControlBlock}
    → find_task ts q ≡ some t
    → total w (modify_task ts q f) + w t ≡ total w ts + w (f t)
unfolding find_task modify_task
total-modify_task w [] q f e = cc
total-modify_task w (u ∷ ts) q f {t} e = elim (Bool-cases (u.pid == q)) [
  | inl h ↦
      let same : u ≡ t = some_inj (rw h at e) in
      rw h (omega (arith, ap w same, ap (λ x. w (f x)) same))
  | inr h ↦ rw h (omega (arith, total-modify_task w ts q f (rw h at e)))
]

-- A change that leaves the measure of every task.
pub total-modify_task_same :
    (w : TaskControlBlock → ℕ) (ts : List TaskControlBlock) (q : ℕ)
    (f : TaskControlBlock → TaskControlBlock)
    → ((t : TaskControlBlock) → w (f t) ≡ w t)
    → total w (modify_task ts q f) ≡ total w ts
unfolding modify_task
total-modify_task_same w [] q f h = refl
total-modify_task_same w (u ∷ ts) q f h = elim (Bool-cases (u.pid == q)) [
  | inl e ↦ rw e (omega (arith, h u))
  | inr e ↦ rw e (omega (arith, total-modify_task_same w ts q f h))
]

pub total-delete_task :
    (w : TaskControlBlock → ℕ) (ts : List TaskControlBlock) (q : ℕ) {t : TaskControlBlock}
    → find_task ts q ≡ some t
    → total w (delete_task ts q) + w t ≡ total w ts
unfolding find_task delete_task
total-delete_task w [] q e = cc
total-delete_task w (u ∷ ts) q {t} e = elim (Bool-cases (u.pid == q)) [
  | inl h ↦ rw h (omega (arith, ap w (some_inj (rw h at e))))
  | inr h ↦ rw h (omega (arith, total-delete_task w ts q (rw h at e)))
]

pub total_at_least :
    (w : TaskControlBlock → ℕ) (ts : List TaskControlBlock) (q : ℕ) {t : TaskControlBlock}
    → find_task ts q ≡ some t
    → w t ≤ total w ts
total_at_least w ts q {t} e = omega (arith, total-delete_task w ts q e)

pub find_task-modify_task_ne :
    (ts : List TaskControlBlock) (p q : ℕ) (f : TaskControlBlock → TaskControlBlock)
    → ((t : TaskControlBlock) → (f t).pid ≡ t.pid)
    → p ≢ q
    → find_task (modify_task ts p f) q ≡ find_task ts q
unfolding find_task modify_task
find_task-modify_task_ne [] p q f h ne = refl
find_task-modify_task_ne (u ∷ ts) p q f h ne = elim (Bool-cases (u.pid == p)) [
  | inl e ↦
      let other : (u.pid == q) ≡ false =
        ==_of_ne u.pid q (λ g. ne (sym (eq_of_== u.pid p e) ∙ g)) in
      let still : ((f u).pid == q) ≡ false = ap (λ x. x == q) (h u) ∙ other in
      rw (e, still, other) refl
  | inr e ↦ rw (e, find_task-modify_task_ne ts p q f h ne) refl
]

pub find_task-modify_task_self :
    (ts : List TaskControlBlock) (q : ℕ) (f : TaskControlBlock → TaskControlBlock)
    {t : TaskControlBlock}
    → ((t : TaskControlBlock) → (f t).pid ≡ t.pid)
    → find_task ts q ≡ some t
    → find_task (modify_task ts q f) q ≡ some (f t)
unfolding find_task modify_task
find_task-modify_task_self [] q f h e = cc
find_task-modify_task_self (u ∷ ts) q f h e = elim (Bool-cases (u.pid == q)) [
  | inl g ↦
      let still : ((f u).pid == q) ≡ true = ap (λ x. x == q) (h u) ∙ g in
      rw (g, still) (ap (λ x. some (f x)) (some_inj (rw g at e)))
  | inr g ↦ rw g (rw g (find_task-modify_task_self ts q f h (rw g at e)))
]

pub live_le_named : (ts : List TaskControlBlock) (q : ℕ) → total (live q) ts ≤ total (named q) ts
live_le_named [] q = omega arith
live_le_named (t ∷ ts) q = ground (arith, live_le_named ts q)

-- At most one task with an identifier: a task that is found there has exited, or is the one that has not.
pub live_of_found :
    (ts : List TaskControlBlock) (q : ℕ) {t : TaskControlBlock}
    → find_task ts q ≡ some t
    → total (named q) ts ≤ 1
    → total (live q) ts ≡ one (not (is_zombie t))
unfolding find_task
live_of_found [] q e le = cc
live_of_found (u ∷ ts) q {t} e le = elim (Bool-cases (u.pid == q)) [
  | inl g ↦
      let same : u ≡ t = some_inj (rw g at e) in
      rw g (omega (arith, rw g at le, live_le_named ts q, ap (λ x. one (not (is_zombie x))) same))
  | inr g ↦ rw g (omega (arith, live_of_found ts q (rw g at e) (omega (arith, rw g at le))))
]

-- What a change may not touch: the identifier, the children, whether the task has exited, and a priority
-- other than 0.
pub record Same (t u : TaskControlBlock) : Type 0 where
  pub pid : u.pid ≡ t.pid
  pub children : u.children ≡ t.children
  pub exited : is_zombie u ≡ is_zombie t
  pub priority : stuck u ≤ stuck t

pub named_of_Same : {t u : TaskControlBlock} (q : ℕ) → Same t u → named q u ≡ named q t
named_of_Same q s = ap (λ p. one (p == q)) s.pid

pub live_of_Same : {t u : TaskControlBlock} (q : ℕ) → Same t u → live q u ≡ live q t
live_of_Same {t} {u} q s =
    ap (λ p. one (p == q && not (is_zombie u))) s.pid ∙ ap (λ z. one (t.pid == q && not z)) s.exited

pub kids_of_Same : {t u : TaskControlBlock} (q : ℕ) → Same t u → kids q u ≡ kids q t
kids_of_Same q s = ap (count q) s.children

pub orphans_of_Same : {t u : TaskControlBlock} → Same t u → orphans u ≡ orphans t
orphans_of_Same {t} {u} s =
    ap (λ cs. if is_zombie u then length cs else 0) s.children
    ∙ ap (λ z. if z then length t.children else 0) s.exited

pub not_exited : (t : TaskControlBlock) → 1 ≤ one (not (is_zombie t)) → is_zombie t ≡ false
not_exited t h = ground arith

pub orphans-zero : (t : TaskControlBlock) → is_zombie t ≡ false → orphans t ≡ 0
orphans-zero t e = ap (λ z. if z then length t.children else 0) e

-- A task is still found after a change of any task that keeps identifiers and children.
pub find_task-modify_task_keeps :
    (ts : List TaskControlBlock) (p q : ℕ) (f : TaskControlBlock → TaskControlBlock)
    {t : TaskControlBlock}
    → ((t : TaskControlBlock) → (f t).pid ≡ t.pid)
    → ((t : TaskControlBlock) → (f t).children ≡ t.children)
    → find_task ts q ≡ some t
    → (t' : TaskControlBlock) × (find_task (modify_task ts p f) q ≡ some t')
      × (t'.children ≡ t.children)
find_task-modify_task_keeps ts p q f {t} same_pid same_children e = elim (Bool-cases (p == q)) [
  | inl g ↦ (
    f t,
    ap (λ z. find_task (modify_task ts z f) q) (eq_of_== p q g)
        ∙ find_task-modify_task_self ts q f same_pid e,
    same_children t,
  )
  | inr g ↦ (t, find_task-modify_task_ne ts p q f same_pid (ne_of_== p q g) ∙ e, refl)
]

pub find_task-pid :
    (ts : List TaskControlBlock) (q : ℕ) {t : TaskControlBlock}
    → find_task ts q ≡ some t
    → t.pid ≡ q
find_task-pid ts q {t} e = elim (find_task_cases ts q) [
  | inl (n, z) ↦ cc
  | inr (u, e', is_q) ↦ ap (λ x. x.pid) (some_inj (sym e ∙ e')) ∙ is_q
]

pub named_of_found :
    (ts : List TaskControlBlock) (q r : ℕ) {t : TaskControlBlock}
    → find_task ts q ≡ some t
    → named r t ≡ one (q == r)
named_of_found ts q r e = ap (λ p. one (p == r)) (find_task-pid ts q e)

pub live_of_running :
    (ts : List TaskControlBlock) (q r : ℕ) {t : TaskControlBlock}
    → find_task ts q ≡ some t
    → is_zombie t ≡ false
    → live r t ≡ one (q == r)
live_of_running ts q r {t} e running =
    ap (λ z. one (t.pid == r && not z)) running ∙ and_true (t.pid == r) ∙ named_of_found ts q r e
  where
    and_true : (b : Bool) → one (b && true) ≡ one b
    and_true b = ground arith

pub live_of_exited : (r : ℕ) (t : TaskControlBlock) → is_zombie t ≡ true → live r t ≡ 0
live_of_exited r t exited = ground arith

pub one_self : (q : ℕ) → one (q == q) ≡ 1
one_self q = ap one (==_self q)
