-- ===== src/Sched/Pass.antt =====
-- One pass of `scheduler` (kernel/proc.c) reaches every process that waits for the CPU.
use gcgos.Base.{
  ℕ, zero, suc, ◌+◌, ◌≤◌, ◌<◌, ◌≡◌, ◌≢◌, ◌⊎◌, ◌∙◌, inl, inr, refl, sym, true, false, none, some,
  List, [], ◌∷◌, arith, get_elem?, length, length-set, get_elem?-set_ne, get_elem?-set_self,
  lt_of_get_elem?, ok, switched, Op, Bool-cases, ◌==◌, ltb,
}
use gcgos.Kernel.{ProcState, Proc, Kernel, is_runnable, put_proc}
use gcgos.Sched.{dispatch, swtch, undispatch, scheduler_pass, yield}
use gcgos.Sched.Dispatch.{Dispatched, dispatch_cases}

-- Process `m` is RUNNABLE.
abbrev pub Ready : Kernel → ℕ → Type 0
Ready k m = (q : Proc) × (get_elem? k.procs m ≡ some q) × (is_runnable q.state ≡ true)

-- What a run of process `j` does to the table until it calls `sched`: the table keeps its length,
-- and no other process stops being RUNNABLE.
pub record Turn (j : ℕ) (k : Kernel) (m : Op Kernel (Unit {0})) : Type 0 where
  pub after : Kernel
  pub run : m k ≡ switched after
  pub size : length after.procs ≡ length k.procs
  pub others : (n : ℕ) → n ≢ j → Ready k n → Ready after n

-- The list goes up from `i`.
abbrev pub Increasing : ℕ → List ℕ → Type 0
Increasing i [] = Unit
Increasing i (j ∷ js) = (i ≤ j) × Increasing (j + 1) js

-- `n` stands in the list.
abbrev pub Among : ℕ → List ℕ → Type 0
Among n [] = ⊥
Among n (j ∷ js) = (n ≡ j) ⊎ Among n js

-- What is left of a pass from position `i`.
pub record Passed (fuel i : ℕ) (run : ℕ → Op Kernel (Unit {0})) (k : Kernel) : Type 0 where
  pub order : List ℕ
  pub after : Kernel
  pub ends : scheduler_pass fuel i run k ≡ ok order after
  pub rising : Increasing i order
  pub reached : (n : ℕ) → i ≤ n → Ready k n → Among n order

dispatched : (i : ℕ) (k : Kernel) {j : ℕ} → Dispatched i k j → Kernel
dispatched i k {j} d =
    put_proc j (record d.target { state = ProcState.running }) (record k { current = some j })

Ready-dispatched :
    (i : ℕ) (k : Kernel) {j : ℕ} (d : Dispatched i k j) (n : ℕ)
    → n ≢ j
    → Ready k n
    → Ready (dispatched i k d) n
unfolding dispatched
Ready-dispatched i k {j} d n ne (q, h, r) =
    (q, get_elem?-set_ne k.procs j n _ (λ e. ne (sym e)) ∙ h, r)

module _ (run : ℕ → Op Kernel (Unit {0}))
    (turn : (j : ℕ) (k : Kernel) (p : Proc)
      → k.current ≡ some j
      → get_elem? k.procs j ≡ some p
      → p.state ≡ ProcState.running
      → Turn j k (run j)) where
  turn_of : (i : ℕ) (k : Kernel) {j : ℕ} (d : Dispatched i k j) → Turn j (dispatched i k d) (run j)
  unfolding dispatched
  turn_of i k {j} d =
      turn j _ (record d.target { state = ProcState.running }) refl
        (get_elem?-set_self k.procs j _ (lt_of_get_elem? k.procs j d.found)) refl

  back : {j : ℕ} {k : Kernel} → Turn j k (run j) → Kernel
  back t = record t.after { current = none }

  Passed-turn :
      (fuel i : ℕ) (k : Kernel) {j : ℕ} (d : Dispatched i k j)
      → Passed fuel (j + 1) run (back (turn_of i k d))
      → Passed (suc fuel) i run k
  unfolding scheduler_pass swtch undispatch dispatched back turn_of
  Passed-turn fuel i k {j} d p = record {
    order = j ∷ p.order;
    after = p.after;
    ends = ground (arith, d.result, (turn_of i k d).run, p.ends);
    rising = (d.from, p.rising);
    reached = λ n le r. elim (Bool-cases (n == j)) [
      | inl e ↦ inl (ground arith)
      | inr far ↦ inr (p.reached n (behind n le r far) (still n r far))
    ];
  }
    where
      behind : (n : ℕ) → i ≤ n → Ready k n → (n == j) ≡ false → j + 1 ≤ n
      behind n le (q, h, r) far = elim (Bool-cases (ltb n j)) [
        | inl before ↦
            let idle = d.skipped n q le (ground arith) h in absurd (ground (arith, r, idle))
        | inr e ↦ ground arith
      ]

      still : (n : ℕ) → Ready k n → (n == j) ≡ false → Ready (back (turn_of i k d)) n
      still n r far =
          let ne : n ≢ j = λ e. absurd (ground arith) in
          (turn_of i k d).others n ne (Ready-dispatched i k d n ne r)

  Passed-end :
      (fuel i : ℕ) (k : Kernel)
      → dispatch i k ≡ ok none k
      → ((m : ℕ) (q : Proc) → i ≤ m → get_elem? k.procs m ≡ some q → is_runnable q.state ≡ false)
      → Passed (suc fuel) i run k
  unfolding scheduler_pass
  Passed-end fuel i k e idle = record {
    order = [];
    after = k;
    ends = rw e refl;
    rising = tt;
    reached = λ n le (q, h, r). let no = idle n q le h in absurd (ground (arith, r, no));
  }

  size_back :
      (i : ℕ) (k : Kernel) {j : ℕ} (d : Dispatched i k j)
      → length (back (turn_of i k d)).procs ≡ length k.procs
  unfolding back dispatched
  size_back i k d = (turn_of i k d).size ∙ length-set k.procs _ _

  pass : (fuel i : ℕ) (k : Kernel) → length k.procs < i + fuel → Passed fuel i run k
  unfolding scheduler_pass
  pass zero i k enough = record {
    order = [];
    after = k;
    ends = refl;
    rising = tt;
    reached = λ n le (q, h, r). absurd (omega (arith, lt_of_get_elem? k.procs n h));
  }
  pass (suc fuel) i k enough = elim (dispatch_cases i k) [
    | inl (e, idle) ↦ Passed-end fuel i k e idle
    | inr (j, d) ↦
        Passed-turn fuel i k d (pass fuel (j + 1) _ (omega (arith, size_back i k d, d.from)))
  ]

  -- One pass of `scheduler` over the table, where every process that it switches to runs until it
  -- calls `sched`, keeps the table's length and takes no other process out of RUNNABLE: the pass
  -- ends, and switches at most once to each process, in the order of the table, and to every process that is
  -- RUNNABLE when the pass begins.
  pub scheduler_pass-Ready :
      (k : Kernel)
      → (order : List ℕ) × (after : Kernel) × (scheduler_pass (length k.procs + 1) 0 run k
          ≡ ok order after)
        × Increasing 0 order
        × ((n : ℕ) → Ready k n → Among n order)
  scheduler_pass-Ready k =
      let p = pass (length k.procs + 1) 0 k (omega arith) in
      (p.order, p.after, p.ends, p.rising, λ n r. p.reached n (omega arith) r)

-- `yield` is such a run.
pub yield-Turn :
    (j : ℕ) (k : Kernel) (p : Proc)
    → k.current ≡ some j
    → get_elem? k.procs j ≡ some p
    → Turn j k yield
unfolding yield
yield-Turn j k p c h = record {
  after = put_proc j (record p { state = ProcState.runnable }) k;
  run = ground (arith, c, h);
  size = length-set k.procs j _;
  others = λ n ne (q, e, r). (q, get_elem?-set_ne k.procs j n _ (λ x. ne (sym x)) ∙ e, r);
}
