-- ===== src/Trap/Laws.antt =====
-- How a user program goes on after a trap (kernel/trap.c).
use gcgos.Base.{
  write_at, ℕ, ◌+◌, ◌*◌, ◌/◌, ◌%◌, ◌^◌, ◌≡◌, ◌≢◌, ◌⊎◌, refl, ap, ◌∙◌, arith, some, ◌∷◌, write, ok,
  switched, get_elem?, set, get_elem?-set_self, lt_of_get_elem?,
}
use gcgos.Kmem.{pg_size}
use gcgos.Kernel.{ProcState, Proc, Trapframe, myproc}
use gcgos.Sched.{trampoline_va, yield}
use gcgos.Syscall.Table.{Locals}
use gcgos.Trap.{
  Regs, Machine, Vectors, timer_irq, enter_kernel, handle, prepare_return, leave_kernel, usertrap,
}

-- The frame after `enter_kernel`.
abbrev pub saved : Regs → Trapframe → Trapframe
saved r f = record f { elr_el1 = r.elr_el1; sp_el0 = r.sp_el0 }

abbrev pub entered : Vectors → Proc → Machine → Machine
entered v p m = record {
  kernel = record m.kernel {
    frames = write m.kernel.frames p.tf (saved m.regs (m.kernel.frames p.tf));
  };
  regs = record m.regs { vbar_el1 = v.kernelvec };
}

pub enter_kernel_lem :
    (v : Vectors) (m : Machine) (i : ℕ) (p : Proc)
    → m.kernel.current ≡ some i
    → get_elem? m.kernel.procs i ≡ some p
    → enter_kernel v m ≡ ok tt (entered v p m)
unfolding enter_kernel myproc
enter_kernel_lem v m i p cur at = ground arith

-- The frame for the next trap.
abbrev pub prepared : Proc → Regs → Trapframe → Trapframe
prepared p r f = record f { kernel_ttbr = r.ttbr0_el1; kernel_sp = (p.kstack + pg_size) % 2 ^ 64 }

abbrev pub left : Vectors → Proc → Machine → Machine
left v p m = record {
  kernel = record m.kernel {
    frames = write m.kernel.frames p.tf (prepared p m.regs (m.kernel.frames p.tf));
  };
  regs = record m.regs {
    vbar_el1 = (trampoline_va + v.uservec) % 2 ^ 64;
    spsr_el1 = 5 * 2 ^ 6;
    sp_el0 = (m.kernel.frames p.tf).sp_el0;
    elr_el1 = (m.kernel.frames p.tf).elr_el1;
  };
}

pub leave_kernel_lem :
    (v : Vectors) (m : Machine) (i : ℕ) (p : Proc)
    → m.kernel.current ≡ some i
    → get_elem? m.kernel.procs i ≡ some p
    → leave_kernel v m ≡ ok p.pagetable (left v p m)
unfolding leave_kernel prepare_return myproc
leave_kernel_lem v m i p cur at = ground arith

handle_nothing :
    (l : Locals) (type : ℕ) (m : Machine)
    → (type ≢ 8) ⊎ (m.regs.esr_el1 / 2 ^ 26 % 64 ≢ 21)
    → type ≢ 9
    → handle l type m ≡ ok tt m
unfolding handle
handle_nothing l type m no_call no_irq = ground arith

-- A trap from user mode that is neither an interrupt (type 9) nor a system call (type 8 with the
-- exception class 21), a data abort for one, is forgotten: `usertrap` returns the page table of the
-- current process and changes neither the process table nor, in the process's frame, the general
-- registers; and the user's program counter and stack pointer are what they were, so that the program
-- goes on at the instruction that trapped.
pub usertrap_resumes :
    (v : Vectors) (l : Locals) (type : ℕ) (m : Machine) (i : ℕ) (p : Proc)
    → m.kernel.current ≡ some i
    → get_elem? m.kernel.procs i ≡ some p
    → (type ≢ 8) ⊎ (m.regs.esr_el1 / 2 ^ 26 % 64 ≢ 21)
    → type ≢ 9
    → (m' : Machine) × (usertrap v l type m ≡ ok p.pagetable m')
      × (m'.regs.elr_el1 ≡ m.regs.elr_el1)
      × (m'.regs.sp_el0 ≡ m.regs.sp_el0)
      × (m'.kernel.procs ≡ m.kernel.procs)
      × ((m'.kernel.frames p.tf).x ≡ (m.kernel.frames p.tf).x)
unfolding usertrap
usertrap_resumes v l type m i p cur at no_call no_irq =
    let m1 = entered v p m in
    let frame : m1.kernel.frames p.tf ≡ saved m.regs (m.kernel.frames p.tf) =
      write_at m.kernel.frames p.tf _ in
    let last : (left v p m1).kernel.frames p.tf ≡ prepared p m1.regs (m1.kernel.frames p.tf) =
      write_at m1.kernel.frames p.tf _ in
    (
      left v p m1,
      ground (
        arith,
        enter_kernel_lem v m i p cur at,
        handle_nothing l type m1 no_call no_irq,
        leave_kernel_lem v m1 i p cur at,
      ),
      ap (λ f. f.elr_el1) frame,
      ap (λ f. f.sp_el0) frame,
      refl,
      ap (λ f. f.x) last ∙ ap (λ f. f.x) frame,
    )

-- The machine after a timer interrupt of process `i`.
abbrev preempted : Vectors → ℕ → Proc → Machine → Machine
preempted v i p m = record {
  kernel = record (entered v p m).kernel {
    procs = set m.kernel.procs i (record p { state = ProcState.runnable });
  };
  regs = record m.regs {
    vbar_el1 = v.kernelvec;
    cntp_cval_el0 = (m.regs.cntpct_el0 + 100000000) % 2 ^ 64;
    eoir = m.regs.iar % 1024 ∷ m.regs.eoir;
  };
}

handle_timer :
    (v : Vectors) (l : Locals) (m : Machine) (i : ℕ) (p : Proc)
    → m.kernel.current ≡ some i
    → get_elem? m.kernel.procs i ≡ some p
    → m.regs.iar % 1024 ≡ timer_irq
    → handle l 9 (entered v p m) ≡ switched (preempted v i p m)
unfolding handle yield myproc
handle_timer v l m i p cur at irq = ground arith

-- A timer interrupt from user mode acknowledges the interrupt, sets the timer anew, leaves the current
-- process RUNNABLE and comes to the scheduler. And whenever `usertrap` then goes on for the process,
-- with its frame as it was left, it returns the page table, and the user's program counter, stack
-- pointer and general registers are those at the interrupt; SPSR_EL1, with the condition flags, is the
-- constant 0x140, whatever it was.
pub usertrap_timer :
    (v : Vectors) (l : Locals) (m : Machine) (i : ℕ) (p : Proc)
    → m.kernel.current ≡ some i
    → get_elem? m.kernel.procs i ≡ some p
    → m.regs.iar % 1024 ≡ timer_irq
    → (m1 : Machine) × (usertrap v l 9 m ≡ switched m1)
      × (m1.regs.eoir ≡ timer_irq ∷ m.regs.eoir)
      × (m1.regs.cntp_cval_el0 ≡ (m.regs.cntpct_el0 + 100000000) % 2 ^ 64)
      × (get_elem? m1.kernel.procs i ≡ some (record p { state = ProcState.runnable }))
      × ((m2 : Machine) (p2 : Proc)
          → m2.kernel.current ≡ some i
          → get_elem? m2.kernel.procs i ≡ some p2
          → m2.kernel.frames p2.tf ≡ m1.kernel.frames p.tf
          → (m3 : Machine) × (leave_kernel v m2 ≡ ok p2.pagetable m3)
            × (m3.regs.elr_el1 ≡ m.regs.elr_el1)
            × (m3.regs.sp_el0 ≡ m.regs.sp_el0)
            × (m3.regs.spsr_el1 ≡ 0x140)
            × ((m3.kernel.frames p2.tf).x ≡ (m.kernel.frames p.tf).x))
unfolding usertrap
usertrap_timer v l m i p cur at irq =
    let frame : (entered v p m).kernel.frames p.tf ≡ saved m.regs (m.kernel.frames p.tf) =
      write_at m.kernel.frames p.tf _ in
    (
      preempted v i p m,
      ground (arith, enter_kernel_lem v m i p cur at, handle_timer v l m i p cur at irq),
      ap (λ id. id ∷ m.regs.eoir) irq,
      refl,
      get_elem?-set_self m.kernel.procs i _ (lt_of_get_elem? m.kernel.procs i at),
      λ m2 p2 cur2 at2 kept.
          let same = kept ∙ frame in
          (
            left v p2 m2,
            leave_kernel_lem v m2 i p2 cur2 at2,
            ap (λ f. f.elr_el1) same,
            ap (λ f. f.sp_el0) same,
            refl,
            ap (λ f. f.x)
                  (write_at m2.kernel.frames p2.tf (prepared p2 m2.regs (m2.kernel.frames p2.tf)))
                ∙ ap (λ f. f.x) same,
          ),
    )
