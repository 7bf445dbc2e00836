-- ===== src/Trap.antt =====
-- kernel/trap.c and kernel/timer.c over the registers that they use, on one CPU. `uservec` and
-- `kernelvec` are addresses that the linker gives; `printf`, and what only prints, is left out.
pub mod Laws
pub mod Calls
pub mod Forkret
pub mod Tests
use gcgos.Base.{
  ℕ, ◌+◌, ◌*◌, ◌/◌, ◌%◌, ◌^◌, Bool, true, false, List, [], ◌∷◌, if◌then◌else◌, ◌==◌, write, Op,
  Panic, pure, gets, modify, stop, zoom, ◌>>=◌, ◌>>◌,
}
use gcgos.Kmem.{pg_size}
use gcgos.Kernel.{Trapframe, Kernel, myproc, proc_at}
use gcgos.Sched.{trampoline_va, yield}
use gcgos.Exec.Load.{kexec}
use gcgos.Console.{pl011_uart_intr}
use gcgos.Syscall.Table.{Locals, syscall}

abbrev pub pl011_irq : ℕ
pl011_irq = 121 + 32

abbrev pub timer_irq : ℕ
timer_irq = 30

-- The system registers of the code, GICC_IAR, the writes of GICC_EOIR, newest first, the characters
-- that wait at the UART, and whether interrupts are masked.
pub record Regs : Type 0 where
  pub ttbr0_el1 : ℕ
  pub elr_el1 : ℕ
  pub sp_el0 : ℕ
  pub spsr_el1 : ℕ
  pub esr_el1 : ℕ
  pub vbar_el1 : ℕ
  pub cntpct_el0 : ℕ
  pub cntp_cval_el0 : ℕ
  pub cntp_ctl_el0 : ℕ
  pub iar : ℕ
  pub eoir : List ℕ
  pub fifo : List ℕ
  pub masked : Bool

pub record Machine : Type 0 where
  pub kernel : Kernel
  pub regs : Regs

-- The addresses of the vectors: `kernelvec`, and `uservec - trampoline`.
pub record Vectors : Type 0 where
  pub kernelvec : ℕ
  pub uservec : ℕ

abbrev pub on_kernel : {A : Type 0} → Op Kernel A → Op Machine A
on_kernel = zoom (λ m. m.kernel) (λ m k. record m { kernel = k })

abbrev pub set_regs : (Regs → Regs) → Op Machine (Unit {0})
set_regs f = modify λ m. record m { regs = f m.regs }

-- A change of the trapframe at an address, which may read the registers.
abbrev pub set_frame : ℕ → (Regs → Trapframe → Trapframe) → Op Machine (Unit {0})
set_frame tf f = modify λ m. record m {
  kernel = record m.kernel { frames = write m.kernel.frames tf (f m.regs (m.kernel.frames tf)) };
}

abbrev pub eoi : ℕ → Op Machine (Unit {0})
eoi id = set_regs λ r. record r { eoir = id ∷ r.eoir }

-- `w_cntp_cval_el0(r_cntpct_el0() + interval)`
abbrev pub set_timer : ℕ → Op Machine (Unit {0})
set_timer interval = set_regs λ r. record r { cntp_cval_el0 = (r.cntpct_el0 + interval) % 2 ^ 64 }

unfoldable pub prepare_return : Vectors → Op Machine (Unit {0})
unfolding myproc
prepare_return v = do
  i ← on_kernel myproc
  p ← on_kernel (proc_at i)
  set_frame p.tf
      λ r f. record f { kernel_ttbr = r.ttbr0_el1; kernel_sp = (p.kstack + pg_size) % 2 ^ 64 }
  f ← gets (λ m. m.kernel.frames p.tf)
  set_regs λ r. record r {
    vbar_el1 = (trampoline_va + v.uservec) % 2 ^ 64;
    spsr_el1 = 5 * 2 ^ 6;
    sp_el0 = f.sp_el0;
    elr_el1 = f.elr_el1;
  }

unfoldable pub trapinithart : Vectors → (kernel_pagetable : ℕ) → Op Machine (Unit {0})
trapinithart v kernel_pagetable =
    set_regs λ r. record r { ttbr0_el1 = kernel_pagetable; vbar_el1 = v.kernelvec; masked = false }

-- The UART's interrupt.
unfoldable pub uart_trap : ℕ → Op Machine (Unit {0})
uart_trap id = do
  rs ← gets (λ m. m.regs.fifo)
  on_kernel (pl011_uart_intr rs)
  set_regs λ r. record r { fifo = [] }
  eoi id

unfoldable pub kerneltrap : (type : ℕ) → Op Machine (Unit {0})
unfolding uart_trap
kerneltrap type =
    if type == 4
    then stop Panic.kerneltrap_sync
    else if type == 5
    then (do
      id ← gets (λ m. m.regs.iar % 1024)
      if id == pl011_irq
          then uart_trap id
          else if id == timer_irq
          then (do set_timer 100000000; eoi id)
          else stop Panic.kerneltrap_irq)
    else stop Panic.kerneltrap_irq

-- The start of `usertrap`: the user's registers go into the trapframe.
unfoldable pub enter_kernel : Vectors → Op Machine (Unit {0})
unfolding myproc
enter_kernel v = do
  set_regs λ r. record r { vbar_el1 = v.kernelvec }
  i ← on_kernel myproc
  p ← on_kernel (proc_at i)
  set_frame p.tf λ r f. record f { elr_el1 = r.elr_el1; sp_el0 = r.sp_el0 }

-- What `usertrap` does for the type of the trap.
unfoldable pub handle : Locals → (type : ℕ) → Op Machine (Unit {0})
unfolding uart_trap
handle l type =
    if type == 8
    then (do
      ec ← gets (λ m. m.regs.esr_el1 / 2 ^ 26 % 64)
      if ec == 21 then on_kernel (syscall l) else pure tt)
    else if type == 9
    then (do
      id ← gets (λ m. m.regs.iar % 1024)
      if id == pl011_irq
          then uart_trap id
          else if id == timer_irq
          then (do set_timer 100000000; eoi id; on_kernel yield)
          else stop Panic.usertrap_irq)
    else pure tt

-- The end of `usertrap`, where a process goes on that `yield` has put aside.
unfoldable pub leave_kernel : Vectors → Op Machine ℕ
unfolding prepare_return myproc
leave_kernel v = do
  prepare_return v
  i ← on_kernel myproc
  p ← on_kernel (proc_at i)
  pure p.pagetable

unfoldable pub usertrap : Vectors → Locals → (type : ℕ) → Op Machine ℕ
unfolding enter_kernel handle leave_kernel
usertrap v l type = do enter_kernel v; handle l type; leave_kernel v

-- "init"
abbrev init_name : List ℕ
init_name = b'i' ∷ b'n' ∷ b'i' ∷ b't' ∷ []

-- `forkret` of kernel/proc.c, where a new process begins: `first` is its static variable, and
-- `userret` stands for `userret - trampoline`. The result is the new `first`, and the address that it
-- jumps to with its argument. Where `kexec` sleeps, the run ends.
unfoldable pub forkret :
    Vectors → (trampoline userret : ℕ) → (first : Bool) → Op Machine (Bool × ℕ × ℕ)
unfolding myproc
forkret v trampoline userret first = do
  i ← on_kernel myproc
  if first
      then (on_kernel (kexec trampoline init_name (init_name ∷ [])) >>= λ _. pure tt)
      else pure tt
  prepare_return v
  p ← on_kernel (proc_at i)
  pure (false, (trampoline_va + userret) % 2 ^ 64, p.pagetable)

-- kernel/timer.c
unfoldable pub timerinit : Op Machine (Unit {0})
timerinit = do set_timer 30000000; set_regs λ r. record r { cntp_ctl_el0 = 1 }
