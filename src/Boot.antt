-- ===== src/Boot.antt =====
-- `kernel_main` (kernel/main.c): the parts of the kernel are set up in its order. What `scheduler`
-- does behind it is in Sched. `trapinit` does nothing.
use gcgos.Base.{
  ℕ, zero, suc, Bool, true, Option, some, if◌then◌else◌, Op, pure, modify, gets, spinning, zoom,
  ◌>>=◌, ◌>>◌,
}
use gcgos.Kmem.{kinit}
use gcgos.Kernel.{Kernel, on_kmem}
use gcgos.Sched.{procinit}
use gcgos.Console.{consoleinit}
use gcgos.Process.Create.{userinit}
use gcgos.Process.KernelTable.{kvmmake, kvminithart}
use gcgos.Trap.{Machine, Vectors, on_kernel, trapinithart, timerinit}
use gcgos.Sd.{Controller, Sd}
use gcgos.Sd.Init.{sd_init}
use gcgos.Devices.{Device, Board}
use gcgos.Devices.Gic.{gic_init}
use gcgos.Devices.Uart.{pl011_uart_init, pl011_uart_ie}

-- What the linker gives, and the fuel for the loop of `sd_init`.
pub record Linked : Type 0 where
  pub etext : ℕ
  pub trampoline : ℕ
  pub forkret : ℕ
  pub vectors : Vectors
  pub fuel : ℕ

module _ (d : Device) (c : Controller) where
  -- The machine with its devices, `kernel_pagetable`, the values given to `enable_mmu`, and `started`.
  pub record Computer : Type 0 where
    pub machine : Machine
    pub io : d.State
    pub sd : Sd c.State
    pub kernel_pagetable : ℕ
    pub mmu : Option (ℕ × ℕ × ℕ × ℕ)
    pub started : Bool

  abbrev on_machine : {A : Type 0} → Op Machine A → Op Computer A
  on_machine = zoom (λ s. s.machine) (λ s m. record s { machine = m })

  abbrev on_core : {A : Type 0} → Op Kernel A → Op Computer A
  on_core m = on_machine (on_kernel m)

  abbrev on_card : {A : Type 0} → Op (Sd c.State) A → Op Computer A
  on_card = zoom (λ s. s.sd) (λ s x. record s { sd = x })

  abbrev on_board : {A : Type 0} → Op (Board d) A → Op Computer A
  on_board =
      zoom (λ s. record { io = s.io; masked = s.machine.regs.masked })
        λ s b. record s {
          io = b.io;
          machine = record s.machine { regs = record s.machine.regs { masked = b.masked } };
        }

  -- `kvminit`, and `kvminithart` on this CPU.
  unfoldable pub kvminit : Linked → Op Computer (Unit {0})
  kvminit l = do
    table ← on_core (on_kmem (kvmmake l.etext l.trampoline))
    modify (λ s. record s { kernel_pagetable = table })

  unfoldable pub enable_paging : Op Computer (Unit {0})
  enable_paging = modify (λ s. record s { mmu = some (kvminithart s.kernel_pagetable) })

  -- The branch of CPU 0.
  unfoldable pub boot_first : Linked → Op Computer (Unit {0})
  boot_first l = do
    on_board (pl011_uart_init d)
    on_core consoleinit
    on_core (on_kmem kinit) >>= λ _. pure tt
    kvminit l
    enable_paging
    on_core procinit
    table ← gets (λ s. s.kernel_pagetable)
    on_machine (trapinithart l.vectors table)
    on_board (gic_init d)
    on_board (pl011_uart_ie d)
    on_machine timerinit
    on_card (sd_init c l.fuel) >>= λ _. pure tt
    on_core (userinit l.trampoline l.forkret)
    modify (λ s. record s { started = true })

  -- The branch of the other CPUs, on the registers of this one.
  unfoldable pub boot_other : Linked → Op Computer (Unit {0})
  boot_other l = do
    started ← gets (λ s. s.started)
    if started then pure tt else λ s. spinning
    enable_paging
    table ← gets (λ s. s.kernel_pagetable)
    on_machine (trapinithart l.vectors table)
    on_board (gic_init d)
    on_machine timerinit

  -- `kernel_main` up to `scheduler`.
  unfoldable pub kernel_main : (cpuid : ℕ) → Linked → Op Computer (Unit {0})
  kernel_main zero l = boot_first l
  kernel_main (suc cpuid) l = boot_other l
