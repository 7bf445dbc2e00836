-- ===== src/Trap/Forkret.antt =====
-- The first return to user mode of a new process (`forkret` of kernel/proc.c).
use gcgos.Base.{
  ℕ, ◌+◌, ◌/◌, ◌%◌, ◌^◌, ◌≡◌, ◌≢◌, refl, ap, ◌∙◌, false, arith, some, ok, get_elem?, write_at,
}
use gcgos.Kmem.{Kmem, pg_size, pg_round_up}
use gcgos.Kernel.{Proc, Kernel, myproc}
use gcgos.Sched.{trampoline_va}
use gcgos.Process.Create.{allocproc, copy_mappings}
use gcgos.Process.Fork.{Open, runnable_child, sys_fork-child}
use gcgos.Syscall.Table.{Locals, sys_fork}
use gcgos.Trap.{Machine, Regs, Vectors, forkret, prepare_return}
use gcgos.Trap.Laws.{prepared, left}

forkret_lem :
    (v : Vectors) (trampoline userret : ℕ) (m : Machine) (i : ℕ) (p : Proc)
    → m.kernel.current ≡ some i
    → get_elem? m.kernel.procs i ≡ some p
    → forkret v trampoline userret false m
      ≡ ok (false, (trampoline_va + userret) % 2 ^ 64, p.pagetable) (left v p m)
unfolding forkret prepare_return myproc
forkret_lem v trampoline userret m i p cur at = ground arith

-- The process that `fork` has made, when it is first dispatched: where `fork` by process `i` succeeds as in
-- `sys_fork-child` with slot `j`, and the scheduler has made `j` the current process, `forkret`
-- jumps to `userret` in the trampoline with the new process's page table; the program counter and the
-- stack pointer are those of the caller of `fork`, and the general registers are the caller's
-- except that x0 is 0.
pub forkret-sys_fork :
    (l : Locals) (k k1 : Kernel) (i j : ℕ) (p np : Proc) (m : Kmem)
    → allocproc l.trampoline k ≡ ok (some j) k1
    → get_elem? k1.procs i ≡ some p
    → get_elem? k1.procs j ≡ some np
    → Open p.fds k1.files
    → copy_mappings (pg_round_up p.sz / pg_size + 1) p.pagetable np.pagetable 0 k1.kmem ≡ ok tt m
    → k.current ≡ some i
    → (k' : Kernel) × (sys_fork l k ≡ ok np.pid k')
      × ((v : Vectors) (userret : ℕ) (r : Regs)
          → (m' : Machine) × (forkret v l.trampoline userret false
                (record { kernel = record k' { current = some j }; regs = r })
              ≡ ok (false, (trampoline_va + userret) % 2 ^ 64, np.pagetable) m')
            × (m'.regs.elr_el1 ≡ (k1.frames p.tf).elr_el1)
            × (m'.regs.sp_el0 ≡ (k1.frames p.tf).sp_el0)
            × ((m'.kernel.frames np.tf).x 0 ≡ 0)
            × ((n : ℕ) → n ≢ 0 → (m'.kernel.frames np.tf).x n ≡ (k1.frames p.tf).x n))
forkret-sys_fork l k k1 i j p np m slot at_i at_j all pages cur =
    let (k', run, at, others, frame, rest, counts, mem) =
      sys_fork-child l k k1 i j p np m slot at_i at_j all pages cur in
    let c = runnable_child l k k1 i j p np m slot at_i at_j all pages in
    (
      k',
      run,
      λ v userret r.
          let start : Machine = record { kernel = record k' { current = some j }; regs = r } in
          let last = write_at k'.frames np.tf (prepared c r (k'.frames np.tf)) in
          (
            left v c start,
            forkret_lem v l.trampoline userret start j c refl at,
            ap (λ f. f.elr_el1) frame,
            ap (λ f. f.sp_el0) frame,
            ap (λ f. f.x 0) last ∙ ap (λ f. f.x 0) frame ∙ refl,
            λ n ne. ap (λ f. f.x n) last ∙ ap (λ f. f.x n) frame ∙ ground arith,
          ),
    )
