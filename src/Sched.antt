-- ===== src/Sched.antt =====
-- kernel/proc.c: the process table, sleeping and waking, killing, and the choice of the scheduler.
-- `printf`, the interrupt flags and `swtch` (assembly) are left out: a call of `sched` ends the run
-- in `switched`, and `resume` is what `sleep` does when its process runs again.
pub mod Wakeup
pub mod Kill
pub mod Dispatch
pub mod Pass
pub mod Tests
use gcgos.Base.{
  ℕ, zero, suc, ◌+◌, ◌*◌, ◌-◌, ◌^◌, ◌<◌, ◌&&◌, not, Bool, true, false, Option, none, some, List, [],
  ◌∷◌, map, if◌then◌else◌, ◌==◌, Op, ok, switched, panicked, spinning, undefined, pure, modify,
  gets, ◌>>=◌, ◌>>◌, get_elem?, set,
}
use gcgos.Kmem.{pg_size}
use gcgos.Kernel.{
  ProcState, runnable, sleeping, running, Chan, nothing, Proc, Kernel, chan_eq, is_runnable,
  is_sleeping, is_unused, proc_at, put_proc, myproc,
}

-- include/memlayout.h; KSTACK is for the index of a process.
abbrev pub max_va : ℕ
max_va = 2 ^ 38

abbrev pub trampoline_va : ℕ
trampoline_va = max_va - 2 * pg_size

abbrev pub trapframe_va : ℕ
trapframe_va = trampoline_va - pg_size

abbrev pub kstack_of : ℕ → ℕ
kstack_of i = trampoline_va - (i + 1) * 2 * pg_size

-- The loop of `procinit`, from the process at index `i` on.
unfoldable pub init_from : ℕ → List Proc → List Proc
init_from i [] = []
init_from i (p ∷ ps) =
    record p { state = ProcState.unused; kstack = kstack_of i } ∷ init_from (i + 1) ps

unfoldable pub procinit : Op Kernel (Unit {0})
procinit = modify λ k. record k { procs = init_from 0 k.procs }

-- `allocpid`
unfoldable pub allocpid : Op Kernel ℕ
allocpid k = ok k.nextpid (record k { nextpid = k.nextpid + 1 })

-- The body of the loop of `wakeup`, for one process.
unfoldable pub wake : Chan → Proc → Proc
wake c p =
    if is_sleeping p.state && chan_eq p.chan c then record p { state = ProcState.runnable } else p

unfoldable pub wakeup : Chan → Op Kernel (Unit {0})
wakeup c = modify λ k. record k { procs = map (wake c) k.procs }

-- `sleep`, up to `sched`.
unfoldable pub sleep : {A : Type 0} → Chan → Op Kernel A
unfolding myproc
sleep c = do
  i ← myproc
  p ← proc_at i
  modify (put_proc i (record p { chan = c; state = ProcState.sleeping }))
  switched

-- The rest of `sleep`.
unfoldable pub resume : Op Kernel (Unit {0})
unfolding myproc
resume = do i ← myproc; p ← proc_at i; modify (put_proc i (record p { chan = Chan.nothing }))

unfoldable pub yield : {A : Type 0} → Op Kernel A
unfolding myproc
yield = do
  i ← myproc
  p ← proc_at i
  modify (put_proc i (record p { state = ProcState.runnable }))
  switched

-- The loop of `proc_kill` over the table, `none` where no process has the pid.
kill_in : ℕ → List Proc → Option (List Proc)
kill_in pid [] = none
kill_in pid (p ∷ ps) =
    let rest = kill_in pid ps in
    if p.pid == pid && not (is_unused p.state)
    then some (
        record p {
          killed = true;
          state = if is_sleeping p.state then ProcState.runnable else p.state;
        }
        ∷ ps)
    else elim rest [ none ↦ none | some ps' ↦ some (p ∷ ps') ]

-- `proc_kill`: true for the result 0, false for -1.
unfoldable pub proc_kill : ℕ → Op Kernel Bool
unfolding kill_in
proc_kill pid k = elim (kill_in pid k.procs) [
  | none ↦ ok false k
  | some ps ↦ ok true (record k { procs = ps })
]

-- The rest of one pass of `scheduler` over the table: the index of the next RUNNABLE process, when
-- `i` is that of the first process of the list.
next_runnable : ℕ → List Proc → Option ℕ
next_runnable i [] = none
next_runnable i (p ∷ ps) =
    let rest = next_runnable (i + 1) ps in if is_runnable p.state then some i else rest

drop_procs : ℕ → List Proc → List Proc
drop_procs zero ps = ps
drop_procs (suc n) [] = []
drop_procs (suc n) (p ∷ ps) = drop_procs n ps

-- `scheduler` from the loop's position `i`: `some j` when it switches to process `j`, and `none` at
-- the end of the pass.
unfoldable pub dispatch : ℕ → Op Kernel (Option ℕ)
unfolding next_runnable drop_procs
dispatch i k = elim (next_runnable i (drop_procs i k.procs)) [
  | none ↦ ok none k
  | some j ↦
      (do
        p ← proc_at j
        modify (put_proc j (record p { state = ProcState.running }))
        modify (λ k. record k { current = some j })
        pure (some j))
        k
]

-- Back from `swtch`: the CPU runs no process.
unfoldable pub undispatch : Op Kernel (Unit {0})
undispatch = modify λ k. record k { current = none }

-- `swtch` into a process, whose run is `m`, and back to the scheduler by its `sched`; a kernel thread
-- has nothing to return to.
unfoldable pub swtch : Op Kernel (Unit {0}) → Op Kernel (Unit {0})
swtch m k = elim (m k) [
  | ok _ after ↦ undefined
  | switched after ↦ ok tt after
  | panicked p ↦ panicked p
  | spinning ↦ spinning
  | undefined ↦ undefined
]

-- One pass of `scheduler` over the table, from position `i`: the processes it switches to, in order.
-- What process `j` does until it calls `sched` is `run j`. The fuel is a bound for the switches.
unfoldable pub scheduler_pass : (fuel i : ℕ) → (ℕ → Op Kernel (Unit {0})) → Op Kernel (List ℕ)
unfolding dispatch swtch undispatch
scheduler_pass zero i run = pure []
scheduler_pass (suc fuel) i run = do
  found ← dispatch i
  elim found [
    | none ↦ pure []
    | some j ↦ (do swtch (run j); undispatch; js ← scheduler_pass fuel (j + 1) run; pure (j ∷ js))
  ]
