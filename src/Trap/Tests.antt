-- ===== src/Trap/Tests.antt =====
-- The theorems about kernel/trap.c on the small kernel.
use gcgos.Base.{
  ℕ, ◌+◌, ◌%◌, ◌^◌, ◌*◌, ◌≡◌, ◌≢◌, refl, write, false, some, [], ◌∷◌, arith, ok, switched,
  get_elem?, inr,
}
use gcgos.Kernel.{ProcState, Proc, Kernel, myproc}
use gcgos.Samples.{sample, sample_frame, zeros, first_process}
use gcgos.Console.{consputc}
use gcgos.Syscall.Args.{argraw}
use gcgos.Syscall.Table.{Locals, dispatch_call, sys_cons_putc}
use gcgos.Sched.{trampoline_va}
use gcgos.Syscall.Table.{sys_fork}
use gcgos.Process.Tests.{
  forkable, parent, new_process, filled_pages, allocated, allocated_lem, new_process_at, parent_at,
  filled_pages_lem, descriptors_below,
}
use gcgos.Trap.Forkret.{forkret-sys_fork}
use gcgos.Trap.{forkret, Regs, Machine, Vectors, timer_irq, leave_kernel, usertrap}
use gcgos.Trap.Calls.{usertrap_call}
use gcgos.Trap.Laws.{entered, usertrap_resumes, usertrap_timer}

abbrev vectors : Vectors
vectors = record { kernelvec = 134217728; uservec = 8 }

abbrev locals : Locals
locals = record { trampoline = 0; forkret = 0; name = 4096; buf = 8192; junk_fd = 0; junk_pid = 0 }

-- A data abort at 64, or the timer's interrupt.
abbrev machine : Machine
machine = record {
  kernel = sample;
  regs = record {
    ttbr0_el1 = 0;
    elr_el1 = 64;
    sp_el0 = 8192;
    spsr_el1 = 0;
    esr_el1 = 2415919104;
    vbar_el1 = 0;
    cntpct_el0 = 7;
    cntp_cval_el0 = 0;
    cntp_ctl_el0 = 1;
    iar = 30;
    eoir = [];
    fifo = [];
    masked = false;
  };
}

usertrap_resumes_example :
    (m' : Machine) × (usertrap vectors locals 8 machine ≡ ok 0 m')
    × (m'.regs.elr_el1 ≡ 64)
    × (m'.regs.sp_el0 ≡ 8192)
    × (m'.kernel.procs ≡ sample.procs)
    × ((m'.kernel.frames 0).x ≡ (sample.frames 0).x)
usertrap_resumes_example =
    usertrap_resumes vectors locals 8 machine 0 first_process refl refl (inr (omega arith))
      (omega arith)

usertrap_timer_example :
    (m1 : Machine) × (usertrap vectors locals 9 machine ≡ switched m1)
    × (m1.regs.eoir ≡ timer_irq ∷ [])
    × (m1.regs.cntp_cval_el0 ≡ (7 + 100000000) % 2 ^ 64)
    × (get_elem? m1.kernel.procs 0 ≡ some (record first_process { state = ProcState.runnable }))
    × ((m2 : Machine) (p2 : Proc)
        → m2.kernel.current ≡ some 0
        → get_elem? m2.kernel.procs 0 ≡ some p2
        → m2.kernel.frames p2.tf ≡ m1.kernel.frames 0
        → (m3 : Machine) × (leave_kernel vectors m2 ≡ ok p2.pagetable m3)
          × (m3.regs.elr_el1 ≡ 64)
          × (m3.regs.sp_el0 ≡ 8192)
          × (m3.regs.spsr_el1 ≡ 0x140)
          × ((m3.kernel.frames p2.tf).x ≡ (sample.frames 0).x))
usertrap_timer_example = usertrap_timer vectors locals machine 0 first_process refl refl refl

-- A program that calls `cons_putc('a')`.
abbrev calling : Machine
calling = record machine {
  kernel = record sample { frames = λ _. record sample_frame { x = write (write zeros 8 4) 0 97 } };
  regs = record machine.regs { esr_el1 = 21 * 2 ^ 26 };
}

abbrev after_putc : Kernel
after_putc = consputc 97 (entered vectors first_process calling).kernel

putc_run : dispatch_call locals 4 (entered vectors first_process calling).kernel ≡ ok 0 after_putc
unfolding dispatch_call sys_cons_putc argraw myproc
putc_run = refl

usertrap_call_example :
    (m' : Machine) × (usertrap vectors locals 8 calling ≡ ok 0 m')
    × ((m'.kernel.frames 0).x 0 ≡ 0)
    × ((r : ℕ) → r ≢ 0 → (m'.kernel.frames 0).x r ≡ (after_putc.frames 0).x r)
    × (m'.regs.elr_el1 ≡ (after_putc.frames 0).elr_el1)
    × (m'.regs.sp_el0 ≡ (after_putc.frames 0).sp_el0)
    × (m'.kernel.procs ≡ after_putc.procs)
unfolding consputc
usertrap_call_example =
    usertrap_call vectors locals calling 0 4 0 first_process first_process after_putc refl refl refl
      refl putc_run refl refl

abbrev fork_locals : Locals
fork_locals = record locals { trampoline = 8192; forkret = 16384 }

forkret-sys_fork_example :
    (k' : Kernel) × (sys_fork fork_locals forkable ≡ ok 3 k')
    × ((v : Vectors) (userret : ℕ) (r : Regs)
        → (m' : Machine) × (forkret v 8192 userret false
              (record { kernel = record k' { current = some 1 }; regs = r })
            ≡ ok (false, (trampoline_va + userret) % 2 ^ 64, new_process.pagetable) m')
          × (m'.regs.elr_el1 ≡ (allocated.frames 0).elr_el1)
          × (m'.regs.sp_el0 ≡ (allocated.frames 0).sp_el0)
          × ((m'.kernel.frames new_process.tf).x 0 ≡ 0)
          × ((n : ℕ) → n ≢ 0 → (m'.kernel.frames new_process.tf).x n ≡ (allocated.frames 0).x n))
forkret-sys_fork_example =
    forkret-sys_fork fork_locals forkable allocated 0 1 parent new_process filled_pages
      allocated_lem parent_at new_process_at (descriptors_below, tt) filled_pages_lem refl
