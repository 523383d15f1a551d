-- ===== src/Task/Life/Waiting.antt =====
-- What `waitpid` does in a sound state.
use bitos.Base.{
  ℕ, suc, ◌+◌, ◌-◌, ◌*◌, ◌%◌, ◌^◌, ◌<◌, ◌≡◌, refl, sym, ap, ◌∙◌, subst, ◌⊎◌, inl, inr, arith, Bool,
  true, false, not, ◌&&◌, Option, none, some, List, [], ◌∷◌, ◌++◌, ◌==◌, if◌then◌else◌, Outcome,
  returned, ◌>>=◌, unwrap, Bool-cases, length, get_elem?, get_elem?-middle,
}
use bitos.Task.Tcb.{TaskControlBlock, is_zombie}
use bitos.Task.Manager.Stride.{All}
use bitos.Task.Kernel.{Kernel, find_task, modify_task}
use bitos.Task.Process.{failed}
use bitos.Task.Wait.{
  strong_count, wanted, any_wanted, is_zombie_at, find_exited, unfinished, write_user, drop_task,
  reap, waitpid,
}
use bitos.Task.Life.Counts.{find_task-modify_task_self}
use bitos.Task.Life.Identifiers.{pid_bound}
use bitos.Task.Life.Steps.{Inv, Sound-at}
use bitos.Task.Life.Reaping.{without_child, none_left, found_after}

-- A wanted child that has exited.
abbrev pub exited : List TaskControlBlock → (pid child : ℕ) → Bool
exited ts pid child = is_zombie_at ts child && wanted pid child

-- Where the search ends: at the first such child, or behind all of them.
abbrev pub First : (ts : List TaskControlBlock) (pid : ℕ) → List ℕ → Option ℕ → Type 0
First ts pid children none = All (λ c. exited ts pid c ≡ false) children
First ts pid children (some i) =
    (before : List ℕ) × (child : ℕ) × (after : List ℕ) × (children ≡ before ++ child ∷ after)
    × (i ≡ length before)
    × All (λ c. exited ts pid c ≡ false) before
    × (exited ts pid child ≡ true)

find_exited-First :
    (ts : List TaskControlBlock) (pid : ℕ) (children : List ℕ)
    → First ts pid children (find_exited ts pid children)
unfolding find_exited
find_exited-First ts pid [] = tt
find_exited-First ts pid (c ∷ cs) = elim (Bool-cases (exited ts pid c)) [
  | inl e ↦ rw e ([], c, cs, refl, refl, tt, e)
  | inr e ↦ rw e (later e (find_exited ts pid cs) (find_exited-First ts pid cs))
]
  where
    later :
        exited ts pid c ≡ false
        → (o : Option ℕ) → First ts pid cs o
        → First ts pid (c ∷ cs) (elim o [ none ↦ none | some i ↦ some (suc i) ])
    later e none f = (e, f)
    later e (some i) (before, child, after, split, at, f, g) =
        (c ∷ before, child, after, ap (◌∷◌ c) split, ap suc at, (e, f), g)

-- What is left to do with a child that has exited: the exit code is written and the child is dropped.
abbrev pub released :
    Kernel → (task child idx exit_code_ptr : ℕ) → (c p : TaskControlBlock) → Outcome (ℕ × Kernel)
released k task child idx exit_code_ptr c p =
    let tasks1 = modify_task k.tasks task (without_child idx) in
    (if exit_code_ptr == 0
      then returned k.frames
      else write_user 4 k.frames p.memory_set exit_code_ptr (c.exit_code * 2 ^ 8 % 2 ^ 32))
    >>= λ frames.
        drop_task (record k { tasks = tasks1; frames = frames }) c >>= λ k2. returned (child, k2)

-- A wanted child `child` that has exited, the first of those among the children of `task`.
pub record Found (k : Kernel) (pid : ℕ) (p : TaskControlBlock) (idx : ℕ) : Type 0 where
  pub before : List ℕ
  pub child : ℕ
  pub after : List ℕ
  pub split : p.children ≡ before ++ child ∷ after
  pub at : idx ≡ length before
  pub none_before : All (λ c. exited k.tasks pid c ≡ false) before
  pub wants : wanted pid child ≡ true
  pub c : TaskControlBlock
  pub found : find_task k.tasks child ≡ some c
  pub gone : is_zombie c ≡ true

and_left : (a b : Bool) → a && b ≡ true → a ≡ true
and_left a b h = ground arith

and_right : (a b : Bool) → a && b ≡ true → b ≡ true
and_right a b h = ground arith

of_zombie_at :
    (ts : List TaskControlBlock) (child : ℕ)
    → is_zombie_at ts child ≡ true
    → (c : TaskControlBlock) × (find_task ts child ≡ some c) × (is_zombie c ≡ true)
unfolding is_zombie_at
of_zombie_at ts child h = of_option (find_task ts child) refl h
  where
    of_option :
        (o : Option TaskControlBlock)
        → find_task ts child ≡ o
        → elim o [ none ↦ false | some t ↦ is_zombie t ] ≡ true
        → (c : TaskControlBlock) × (find_task ts child ≡ some c) × (is_zombie c ≡ true)
    of_option none e h = cc
    of_option (some c) e h = (c, e, h)

Found-intro :
    (k : Kernel) (pid : ℕ) (p : TaskControlBlock) (idx : ℕ)
    → First k.tasks pid p.children (some idx)
    → Found k pid p idx
Found-intro k pid p idx (before, child, after, split, at, none_before, e) =
    let (c, found, gone) = of_zombie_at k.tasks child (and_left _ _ e) in
    record {
      before = before;
      child = child;
      after = after;
      split = split;
      at = at;
      none_before = none_before;
      wants = and_right _ _ e;
      c = c;
      found = found;
      gone = gone;
    }

pub Found-here :
    (k : Kernel) (pid : ℕ) (p : TaskControlBlock) (idx : ℕ) (f : Found k pid p idx)
    → get_elem? p.children idx ≡ some f.child
Found-here k pid p idx f =
    ap (get_elem? p.children) f.at
    ∙ ap (λ cs. get_elem? cs (length f.before)) f.split
    ∙ get_elem?-middle f.before f.after f.child

-- The cases of `waitpid` for the task `task`, whose control block is `p`.
abbrev pub Waited :
    Kernel → (pid exit_code_ptr task : ℕ) → TaskControlBlock → Outcome (ℕ × Kernel) → Type 0
Waited k pid exit_code_ptr task p o =
    ((any_wanted pid p.children ≡ false) × (o ≡ returned (failed, k)))
    ⊎ ((any_wanted pid p.children ≡ true)
        × All (λ c. exited k.tasks pid c ≡ false) p.children
        × (o ≡ returned (unfinished, k)))
    ⊎ ((any_wanted pid p.children ≡ true)
        × (idx : ℕ) × (f : Found k pid p idx) × (f.child < unfinished)
        × (o ≡ released k task f.child idx exit_code_ptr f.c p))

module _ {n : ℕ} {k : Kernel} (v : Inv n k) (fits : n < 2 ^ 64 - 4) {task : ℕ}
    {p : TaskControlBlock} (at : k.current ≡ some task)
    (parent : find_task k.tasks task ≡ some p) where
  module _ (pid exit_code_ptr : ℕ) where
    reap-released :
        (idx : ℕ) (f : Found k pid p idx)
        → get_elem? p.children idx ≡ some f.child
        → reap k task f.child idx exit_code_ptr ≡ released k task f.child idx exit_code_ptr f.c p
    unfolding reap
    reap-released idx f e =
        let unshared : (strong_count
                  (record k { tasks = modify_task k.tasks task (without_child idx) }) f.child
                + 1
              == 1)
            ≡ true =
          ap (λ z. z + 1 == 1)
            (none_left task f.child idx (Sound-at v at) parent e f.found f.gone k refl refl at) in
        simp (
          unshared,
          found_after task f.child idx (Sound-at v at) parent e f.found f.gone,
          find_task-modify_task_self k.tasks task (without_child idx) (λ u. refl) parent,
        )

    waited :
        (o : Option ℕ)
        → any_wanted pid p.children ≡ true
        → First k.tasks pid p.children o
        → Waited k pid exit_code_ptr task p (elim o [
          | none ↦ returned (unfinished, k)
          | some idx ↦
              unwrap (get_elem? p.children idx) >>= λ child. reap k task child idx exit_code_ptr
        ])
    waited none any f = inr (inl (any, f, refl))
    waited (some idx) any first =
        let f = Found-intro k pid p idx first in
        let here = Found-here k pid p idx f in
        inr (
          inr (
            any,
            idx,
            f,
            omega (arith, pid_bound v.tracks f.child f.found),
            ap (λ o. unwrap o >>= λ child. reap k task child idx exit_code_ptr) here
                ∙ reap-released idx f here,
          ))

    abbrev search : Outcome (ℕ × Kernel)
    search = elim (find_exited k.tasks pid p.children) [
      | none ↦ returned (unfinished, k)
      | some idx ↦
          unwrap (get_elem? p.children idx) >>= λ child. reap k task child idx exit_code_ptr
    ]

    searched :
        (b : Bool)
        → any_wanted pid p.children ≡ b
        → Waited k pid exit_code_ptr task p (if not b then returned (failed, k) else search)
    searched true any =
        waited (find_exited k.tasks pid p.children) any (find_exited-First k.tasks pid p.children)
    searched false any = inl (any, refl)

    started :
        waitpid pid exit_code_ptr k
        ≡ (if not (any_wanted pid p.children) then returned (failed, k) else search)
    unfolding waitpid
    started = simp (at, parent)

    pub waitpid-Waited : Waited k pid exit_code_ptr task p (waitpid pid exit_code_ptr k)
    waitpid-Waited =
        subst (Waited k pid exit_code_ptr task p) (sym started)
          (searched (any_wanted pid p.children) refl)
