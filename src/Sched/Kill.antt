-- ===== src/Sched/Kill.antt =====
-- `proc_kill` of kernel/proc.c: which process it finds, and what it does to it.
use gcgos.Base.{
  ℕ, zero, suc, ◌<◌, ◌≡◌, ◌⊎◌, inl, inr, refl, Bool, true, false, not, ◌&&◌, none, some, List, [],
  ◌∷◌, arith, ap, if◌then◌else◌, ◌==◌, get_elem?, set, ok, Bool-cases, Option-cases, ◌∙◌,
}
use gcgos.Kernel.{ProcState, Proc, Kernel, is_sleeping, is_unused, put_proc}
use gcgos.Sched.{kill_in, proc_kill}

-- The process is in use under this pid.
abbrev pub has_pid : ℕ → Proc → Bool
has_pid pid p = p.pid == pid && not (is_unused p.state)

-- A killed process, which no longer sleeps.
abbrev pub kill : Proc → Proc
kill p = record p {
  killed = true;
  state = if is_sleeping p.state then ProcState.runnable else p.state;
}

-- The first process of the list in use under the pid, with its index.
record First (pid : ℕ) (ps : List Proc) (ps' : List Proc) : Type 0 where
  index : ℕ
  target : Proc
  found : get_elem? ps index ≡ some target
  match : has_pid pid target ≡ true
  first : (j : ℕ) {q : Proc} → j < index → get_elem? ps j ≡ some q → has_pid pid q ≡ false
  result : ps' ≡ set ps index (kill target)

First-cons :
    (pid : ℕ) (p : Proc) (ps qs : List Proc) {ps' : List Proc}
    → has_pid pid p ≡ false
    → ps' ≡ p ∷ qs
    → First pid ps qs
    → First pid (p ∷ ps) ps'
First-cons pid p ps qs {ps'} miss e f = record {
  index = suc f.index;
  target = f.target;
  found = f.found;
  match = f.match;
  first = before;
  result = e ∙ ap (λ l. p ∷ l) f.result;
}
  where
    before :
        (j : ℕ) {q : Proc} → j < suc f.index → get_elem? (p ∷ ps) j ≡ some q → has_pid pid q ≡ false
    before zero h g = ground arith
    before (suc j) h g = f.first j (omega arith) g

kill_in-First :
    (pid : ℕ) (ps : List Proc) {ps' : List Proc} → kill_in pid ps ≡ some ps' → First pid ps ps'
unfolding kill_in
kill_in-First pid [] h = cc
kill_in-First pid (p ∷ ps) {ps'} h = elim (Bool-cases (has_pid pid p)) [
  | inl hit ↦ record {
    index = 0;
    target = p;
    found = refl;
    match = hit;
    first = λ j lt e. absurd (omega arith);
    result = ground arith;
  }
  | inr miss ↦ elim (Option-cases (kill_in pid ps)) [
    | inl e ↦ absurd (ground arith)
    | inr (qs, e) ↦ First-cons pid p ps qs miss (ground arith) (kill_in-First pid ps e)
  ]
]

kill_in-none :
    (pid : ℕ) (ps : List Proc)
    → kill_in pid ps ≡ none
    → (j : ℕ) {q : Proc} → get_elem? ps j ≡ some q
    → has_pid pid q ≡ false
unfolding kill_in
kill_in-none pid [] h j e = cc
kill_in-none pid (p ∷ ps) h zero e = ground arith
kill_in-none pid (p ∷ ps) h (suc j) e = kill_in-none pid ps (ground arith) j e

-- `kill(pid)` returns 0 exactly when some process in use has the pid. Then the first such process
-- is marked and, if it slept, made RUNNABLE; the others, and the rest of the kernel, stay as they
-- are. Otherwise it returns -1 and changes nothing.
pub proc_kill_cases :
    (pid : ℕ) (k : Kernel)
    → ((proc_kill pid k ≡ ok false k)
        × ((j : ℕ) (q : Proc) → get_elem? k.procs j ≡ some q → has_pid pid q ≡ false))
      ⊎ ((i : ℕ) × (p : Proc) × (get_elem? k.procs i ≡ some p)
          × (has_pid pid p ≡ true)
          × ((j : ℕ) (q : Proc) → j < i → get_elem? k.procs j ≡ some q → has_pid pid q ≡ false)
          × (proc_kill pid k ≡ ok true (put_proc i (kill p) k)))
unfolding proc_kill
proc_kill_cases pid k = elim (Option-cases (kill_in pid k.procs)) [
  | inl e ↦ inl (ground arith, λ j q h. kill_in-none pid k.procs e j h)
  | inr (ps, e) ↦
      let f = kill_in-First pid k.procs e in
      inr
        (f.index, f.target, f.found, f.match, λ j q lt h. f.first j lt h, ground (arith, f.result))
]
