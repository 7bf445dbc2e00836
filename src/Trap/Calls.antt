-- ===== src/Trap/Calls.antt =====
-- A system call, from the trap to the return (kernel/trap.c and kernel/syscall.c).
use gcgos.Base.{
  write_at, ℕ, ◌/◌, ◌%◌, ◌^◌, ◌≡◌, ◌≢◌, ◌∙◌, refl, ap, arith, some, ok, write, get_elem?,
}
use gcgos.Kernel.{Proc, Kernel, myproc}
use gcgos.Syscall.Args.{sign_extend}
use gcgos.Syscall.Table.{Locals, dispatch_call, return_value, syscall}
use gcgos.Trap.{Machine, Vectors, handle, usertrap}
use gcgos.Trap.Laws.{saved, entered, enter_kernel_lem, left, prepared, leave_kernel_lem}

-- The kernel after a call has stored its value.
abbrev answered : (ret : ℕ) → Proc → Kernel → Kernel
answered ret p k =
    let f = k.frames p.tf in
    record k { frames = write k.frames p.tf (record f { x = write f.x 0 (sign_extend ret) }) }

module _ (l : Locals) (k k2 : Kernel) (i n ret : ℕ) (p p2 : Proc) (cur : k.current ≡ some i)
    (at : get_elem? k.procs i ≡ some p) (number : (k.frames p.tf).x 8 % 2 ^ 32 ≡ n)
    (run : dispatch_call l n k ≡ ok ret k2) (at2 : get_elem? k2.procs i ≡ some p2) where
  pub syscall_lem : syscall l k ≡ ok tt (answered ret p2 k2)
  unfolding syscall return_value myproc
  syscall_lem = ground (arith, run)

handle_call :
    (l : Locals) (m : Machine) (k' : Kernel)
    → m.regs.esr_el1 / 2 ^ 26 % 64 ≡ 21
    → syscall l m.kernel ≡ ok tt k'
    → handle l 8 m ≡ ok tt (record m { kernel = k' })
unfolding handle
handle_call l m k' svc run = ground (arith, run)

-- A system call: where the call of x8, made with the program counter and the stack pointer saved in
-- the frame, returns `ret` with process `i` still the current one, `usertrap` returns the page table
-- that the process has then; x0 of the process's frame is `ret`, sign-extended, and the other
-- general registers, the program counter and the stack pointer are those that the call has left in
-- the frame.
pub usertrap_call :
    (v : Vectors) (l : Locals) (m : Machine) (i n ret : ℕ) (p p2 : Proc) (k2 : Kernel)
    → m.kernel.current ≡ some i
    → get_elem? m.kernel.procs i ≡ some p
    → m.regs.esr_el1 / 2 ^ 26 % 64 ≡ 21
    → (m.kernel.frames p.tf).x 8 % 2 ^ 32 ≡ n
    → dispatch_call l n (entered v p m).kernel ≡ ok ret k2
    → k2.current ≡ some i
    → get_elem? k2.procs i ≡ some p2
    → (m' : Machine) × (usertrap v l 8 m ≡ ok p2.pagetable m')
      × ((m'.kernel.frames p2.tf).x 0 ≡ sign_extend ret)
      × ((r : ℕ) → r ≢ 0 → (m'.kernel.frames p2.tf).x r ≡ (k2.frames p2.tf).x r)
      × (m'.regs.elr_el1 ≡ (k2.frames p2.tf).elr_el1)
      × (m'.regs.sp_el0 ≡ (k2.frames p2.tf).sp_el0)
      × (m'.kernel.procs ≡ k2.procs)
unfolding usertrap
usertrap_call v l m i n ret p p2 k2 cur at svc number run cur2 at2 =
    let m1 = entered v p m in
    let k3 = answered ret p2 k2 in
    let m2 : Machine = record m1 { kernel = k3 } in
    let frame = write_at m.kernel.frames p.tf (saved m.regs (m.kernel.frames p.tf)) in
    let called : syscall l m1.kernel ≡ ok tt k3 =
      syscall_lem l m1.kernel k2 i n ret p p2 cur at (ap (λ f. f.x 8 % 2 ^ 32) frame ∙ number) run
        at2 in
    let f = k2.frames p2.tf in
    let stored : k3.frames p2.tf ≡ record f { x = write f.x 0 (sign_extend ret) } =
      write_at k2.frames p2.tf _ in
    let last : (left v p2 m2).kernel.frames p2.tf ≡ prepared p2 m2.regs (k3.frames p2.tf) =
      write_at k3.frames p2.tf _ in
    (
      left v p2 m2,
      ground (
        arith,
        enter_kernel_lem v m i p cur at,
        handle_call l m1 k3 svc called,
        leave_kernel_lem v m2 i p2 cur2 at2,
      ),
      ap (λ f. f.x 0) last ∙ ap (λ f. f.x 0) stored,
      λ r ne. ap (λ f. f.x r) last ∙ ap (λ f. f.x r) stored ∙ ground arith,
      ap (λ f. f.elr_el1) stored,
      ap (λ f. f.sp_el0) stored,
      refl,
    )
