-- ===== src/Devices/Gic.antt =====
-- kernel/gicv2.c.
use gcgos.Base.{ℕ, ◌+◌, ◌*◌, ◌/◌, ◌%◌, ◌^◌, false, Op, pure, modify, ◌>>=◌, ◌>>◌}
use gcgos.Trap.{pl011_irq, timer_irq}
use gcgos.Devices.{Device, Board, read_reg, write_reg, clear_byte, or_one}

abbrev pub gicd : ℕ
gicd = 0xFF841000

abbrev pub gicc : ℕ
gicc = 0xFF842000

-- The registers of the distributor and of the CPU interface, arrays by their index.
abbrev pub gicd_ctlr : ℕ
gicd_ctlr = gicd

abbrev pub gicd_typer : ℕ
gicd_typer = gicd + 0x4

abbrev pub gicd_iidr : ℕ
gicd_iidr = gicd + 0x8

abbrev pub isenabler : ℕ → ℕ
isenabler i = gicd + 0x100 + 4 * i

abbrev pub ispendr : ℕ → ℕ
ispendr i = gicd + 0x200 + 4 * i

abbrev pub ipriorityr : ℕ → ℕ
ipriorityr i = gicd + 0x400 + 4 * i

abbrev pub itargetsr : ℕ → ℕ
itargetsr i = gicd + 0x800 + 4 * i

abbrev pub gicd_sgir : ℕ
gicd_sgir = gicd + 0xF00

abbrev pub gicc_ctlr : ℕ
gicc_ctlr = gicc

abbrev pub gicc_pmr : ℕ
gicc_pmr = gicc + 0x4

module _ (d : Device) where
  -- `x = f(x)` for a register.
  unfoldable pub change_reg : (reg : ℕ) → (ℕ → ℕ) → Op (Board d) (Unit {0})
  change_reg reg f = do w ← read_reg d reg; write_reg d reg (f w)

  -- The writes for one interrupt: its bit of ISENABLER; its priority, 0; and its target, CPU 0.
  unfoldable pub enable_irq : (irq : ℕ) → Op (Board d) (Unit {0})
  enable_irq irq = write_reg d (isenabler (irq / 32)) (2 ^ (irq % 32))

  unfoldable pub clear_priority : (irq : ℕ) → Op (Board d) (Unit {0})
  clear_priority irq = change_reg (ipriorityr (irq / 4)) (clear_byte (irq % 4))

  unfoldable pub set_target : (irq : ℕ) → Op (Board d) (Unit {0})
  set_target irq = do
    change_reg (itargetsr (irq / 4)) (clear_byte (irq % 4))
    change_reg (itargetsr (irq / 4)) (or_one (irq % 4))

  unfoldable pub intr_on : Op (Board d) (Unit {0})
  intr_on = modify (λ b. record b { masked = false })

  unfoldable pub gic_init : Op (Board d) (Unit {0})
  gic_init = do
    write_reg d gicd_ctlr 0
    read_reg d gicd_typer >>= λ _. pure tt
    enable_irq pl011_irq
    enable_irq timer_irq
    clear_priority pl011_irq
    clear_priority timer_irq
    set_target pl011_irq
    set_target timer_irq
    write_reg d gicc_ctlr 1
    write_reg d gicd_ctlr 1
    write_reg d gicc_pmr 0xFF
    read_reg d gicd_ctlr >>= λ _. pure tt
    read_reg d gicc_ctlr >>= λ _. pure tt
    intr_on

  -- The reads are for its `printf`.
  unfoldable pub write_gicd_sgir : Op (Board d) (Unit {0})
  write_gicd_sgir = do
    write_reg d gicd_ctlr 1
    write_reg d (isenabler 0) 0xFFFF
    write_reg d gicc_ctlr 1
    write_reg d gicc_pmr 0xF0
    intr_on
    read_reg d gicd_typer >>= λ _. pure tt
    read_reg d gicd_iidr >>= λ _. pure tt
    read_reg d (ispendr 0) >>= λ _. pure tt
    write_reg d gicd_sgir (1 * 2 ^ 16)
