-- ===== src/Sched/Dispatch.antt =====
-- The pass of `scheduler` over the table (kernel/proc.c): first come, first served by index.
use Prim.Native.Nat.add
use gcgos.Base.{
  ℕ, zero, suc, ◌+◌, ◌-◌, sym, ◌≤◌, ◌<◌, ◌≡◌, ◌⊎◌, inl, inr, refl, true, false, none, some, List,
  [], ◌∷◌, arith, ap, get_elem?, set, ok, Bool-cases, Option-cases, ◌∙◌,
}
use gcgos.Kernel.{ProcState, Proc, Kernel, is_runnable}
use gcgos.Sched.{next_runnable, drop_procs, dispatch}

get_elem?-drop_procs :
    (i m : ℕ) (ps : List Proc) → get_elem? (drop_procs i ps) m ≡ get_elem? ps (i + m)
unfolding drop_procs
get_elem?-drop_procs zero m ps = ap (get_elem? ps) (omega arith)
get_elem?-drop_procs (suc i) m [] = refl
get_elem?-drop_procs (suc i) m (p ∷ ps) = get_elem?-drop_procs i m ps ∙ rw (add.suc i m) refl

entry_from :
    (i m : ℕ) (ps : List Proc) {q : Proc}
    → i ≤ m
    → get_elem? ps m ≡ some q
    → get_elem? (drop_procs i ps) (m - i) ≡ some q
entry_from i m ps le h = get_elem?-drop_procs i (m - i) ps ∙ ap (get_elem? ps) (omega arith) ∙ h

-- The first runnable process of the list, when `i` is the index of its head.
record Next (i : ℕ) (ps : List Proc) (j : ℕ) : Type 0 where
  offset : ℕ
  place : j ≡ i + offset
  target : Proc
  found : get_elem? ps offset ≡ some target
  ready : is_runnable target.state ≡ true
  first : (m : ℕ) {q : Proc} → m < offset → get_elem? ps m ≡ some q → is_runnable q.state ≡ false

Next-cons :
    (i : ℕ) (p : Proc) (ps : List Proc) {j : ℕ}
    → is_runnable p.state ≡ false
    → Next (i + 1) ps j
    → Next i (p ∷ ps) j
Next-cons i p ps miss f = record {
  offset = suc f.offset;
  place = omega (arith, f.place);
  target = f.target;
  found = f.found;
  ready = f.ready;
  first = before;
}
  where
    before :
        (m : ℕ) {q : Proc}
        → m < suc f.offset
        → get_elem? (p ∷ ps) m ≡ some q
        → is_runnable q.state ≡ false
    before zero h g = ground arith
    before (suc m) h g = f.first m (omega arith) g

next_runnable-Next : (i : ℕ) (ps : List Proc) {j : ℕ} → next_runnable i ps ≡ some j → Next i ps j
unfolding next_runnable
next_runnable-Next i [] h = cc
next_runnable-Next i (p ∷ ps) h = elim (Bool-cases (is_runnable p.state)) [
  | inl hit ↦ record {
    offset = 0;
    place = ground arith;
    target = p;
    found = refl;
    ready = hit;
    first = λ m lt e. absurd (omega arith);
  }
  | inr miss ↦ Next-cons i p ps miss (next_runnable-Next (i + 1) ps (ground arith))
]

next_runnable-none :
    (i : ℕ) (ps : List Proc)
    → next_runnable i ps ≡ none
    → (m : ℕ) {q : Proc} → get_elem? ps m ≡ some q
    → is_runnable q.state ≡ false
unfolding next_runnable
next_runnable-none i [] h m e = cc
next_runnable-none i (p ∷ ps) h zero e = ground arith
next_runnable-none i (p ∷ ps) h (suc m) e = next_runnable-none (i + 1) ps (ground arith) m e

-- What the scheduler does from position `i` of its loop.
pub record Dispatched (i : ℕ) (k : Kernel) (j : ℕ) : Type 0 where
  pub target : Proc
  pub from : i ≤ j
  pub found : get_elem? k.procs j ≡ some target
  pub ready : is_runnable target.state ≡ true
  pub skipped :
      (m : ℕ) (q : Proc)
      → i ≤ m
      → m < j
      → get_elem? k.procs m ≡ some q
      → is_runnable q.state ≡ false
  pub result :
      dispatch i k
      ≡ ok (some j) (record k {
        procs = set k.procs j (record target { state = ProcState.running });
        current = some j;
      })

Next-Dispatched :
    (i : ℕ) (k : Kernel) {j : ℕ}
    → next_runnable i (drop_procs i k.procs) ≡ some j
    → Next i (drop_procs i k.procs) j
    → Dispatched i k j
unfolding dispatch
Next-Dispatched i k {j} e f = record {
  target = f.target;
  from = omega (arith, f.place);
  found = here;
  ready = f.ready;
  skipped = λ m q le lt h. f.first (m - i) (omega (arith, f.place)) (entry_from i m k.procs le h);
  result = ground (arith, here);
}
  where
    here : get_elem? k.procs j ≡ some f.target
    here = ap (get_elem? k.procs) f.place ∙ sym (get_elem?-drop_procs i f.offset k.procs) ∙ f.found

-- From position `i` the scheduler switches to the first RUNNABLE process at or behind `i`, which is
-- then RUNNING and the CPU's, with everything else as it was; it ends its pass, changing nothing,
-- exactly when no process at or behind `i` is RUNNABLE.
pub dispatch_cases :
    (i : ℕ) (k : Kernel)
    → ((dispatch i k ≡ ok none k)
        × ((m : ℕ) (q : Proc) → i ≤ m → get_elem? k.procs m ≡ some q → is_runnable q.state ≡ false))
      ⊎ ((j : ℕ) × Dispatched i k j)
unfolding dispatch
dispatch_cases i k = elim (Option-cases (next_runnable i (drop_procs i k.procs))) [
  | inl e ↦
      inl (ground arith, λ m q le h. next_runnable-none i _ e (m - i) (entry_from i m k.procs le h))
  | inr (j, e) ↦ inr (j, Next-Dispatched i k e (next_runnable-Next i _ e))
]

next_runnable-here :
    (i n : ℕ) (ps : List Proc) (q : Proc)
    → get_elem? ps i ≡ some q
    → is_runnable q.state ≡ true
    → next_runnable n (drop_procs i ps) ≡ some n
unfolding next_runnable drop_procs
next_runnable-here zero n [] q at ready = cc
next_runnable-here zero n (p ∷ ps) q at ready = ground arith
next_runnable-here (suc i) n [] q at ready = cc
next_runnable-here (suc i) n (p ∷ ps) q at ready = next_runnable-here i n ps q at ready

-- A process that is RUNNABLE is switched to when its turn comes.
pub dispatch_ready :
    (i : ℕ) (k : Kernel) (q : Proc)
    → get_elem? k.procs i ≡ some q
    → is_runnable q.state ≡ true
    → dispatch i k
      ≡ ok (some i) (record k {
        procs = set k.procs i (record q { state = ProcState.running });
        current = some i;
      })
unfolding dispatch
dispatch_ready i k q at ready = ground (arith, at, next_runnable-here i i k.procs q at ready)
