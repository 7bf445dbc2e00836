-- ===== src/Process/Finish.antt =====
-- `proc_exit` and `proc_wait` of kernel/proc.c.
use gcgos.Base.{
  ℕ, zero, suc, ◌+◌, ◌-◌, ◌^◌, ◌&&◌, Option, none, some, List, [], ◌∷◌, map, if◌then◌else◌, ◌==◌,
  leb, get_elem?, set, Op, switched, pure, modify, gets, fault, ◌>>=◌, ◌>>◌,
}
use gcgos.Kmem.{kfree}
use gcgos.Kernel.{
  ProcState, proc_slot, Proc, Kernel, is_zombie, on_kmem, proc_at, put_proc, myproc, nofile,
}
use gcgos.Sched.{sleep, wakeup}
use gcgos.Fd.Io.{fd_close}

-- A round of the loop of `proc_exit` over the descriptors.
unfoldable pub close_one : (fd i : ℕ) → Option (Option ℕ) → Op Kernel (Unit {0})
close_one fd i none = fault
close_one fd i (some none) = pure tt
close_one fd i (some (some f)) = do
  fd_close f
  p ← proc_at i
  modify (put_proc i (record p { fds = set p.fds fd none }))

-- The loop, from `fd` with `left` rounds to go.
unfoldable pub close_fds : (left fd i : ℕ) → Op Kernel (Unit {0})
unfolding close_one
close_fds zero fd i = pure tt
close_fds (suc left) fd i = do
  p ← proc_at i
  close_one fd i (get_elem? p.fds fd)
  close_fds left (fd + 1) i

-- `wakeup(p)` for each process `p` with the pid, from the one at index `j` on.
unfoldable pub wake_parents : (ppid j : ℕ) → List Proc → Op Kernel (Unit {0})
wake_parents ppid j [] = pure tt
wake_parents ppid j (p ∷ ps) = do
  if p.pid == ppid then wakeup (proc_slot j) else pure tt
  wake_parents ppid (j + 1) ps

-- `if (p->ppid == cp->pid) p->pid = 1`, for each process.
unfoldable pub abandon : ℕ → Proc → Proc
abandon pid p = if p.ppid == pid then record p { pid = 1 } else p

-- `proc_exit`. `junk` is what C finds in `fd`, which the loop starts from without setting it: an
-- int modulo 2^32, whose negative values are indices outside the array.
unfoldable pub proc_exit : (junk : ℕ) → Op Kernel (Unit {0})
unfolding myproc wake_parents
proc_exit junk = do
  i ← myproc
  cp ← proc_at i
  modify (put_proc i (record cp { state = ProcState.zombie }))
  if leb (2 ^ 31) junk then fault else close_fds (nofile - junk) junk i
  ps ← gets (λ k. k.procs)
  wake_parents cp.ppid 0 ps
  modify (λ k. record k { procs = map (abandon cp.pid) k.procs })
  switched

-- The loop of `proc_wait` over the table: the first child that is a zombie.
unfoldable pub first_zombie : (pid j : ℕ) → List Proc → Option ℕ
first_zombie pid j [] = none
first_zombie pid j (p ∷ ps) =
    let rest = first_zombie pid (j + 1) ps in
    if is_zombie p.state && p.ppid == pid then some j else rest

-- What `proc_wait` does with the zombie found. The pages of the trapframe and of the top table go
-- back, and the result is `pid`, which is never set.
unfoldable pub collect : (junk i : ℕ) → Option ℕ → Op Kernel ℕ
collect junk i none = sleep (proc_slot i)
collect junk i (some j) = do
  p ← proc_at j
  on_kmem (kfree p.tf)
  on_kmem (kfree p.pagetable)
  modify (put_proc j (record p { state = ProcState.unused }))
  pure junk

-- A round of `proc_wait`. With a table that is not empty `havekids` is always set, so that without
-- a zombie the process sleeps on itself.
unfoldable pub proc_wait : (junk : ℕ) → Op Kernel ℕ
unfolding myproc first_zombie collect
proc_wait junk = do
  i ← myproc
  cp ← proc_at i
  ps ← gets (λ k. k.procs)
  elim ps [ [] ↦ pure (2 ^ 32 - 1) | p ∷ rest ↦ collect junk i (first_zombie cp.pid 0 (p ∷ rest)) ]
