-- ===== src/Devices.antt =====
-- The set-up of the interrupt controller (kernel/gicv2.c), of the UART (kernel/pl011_uart.c) and the
-- mini UART (kernel/mini_uart.c): reads and writes of device registers. What a register does is a
-- parameter; registers are their physical addresses, by the layouts of include/gicv2.h and uart.h.
pub mod Layout
pub mod Gic
pub mod Uart
pub mod Routing
pub mod Tests
use gcgos.Base.{ℕ, ◌+◌, ◌*◌, ◌-◌, ◌/◌, ◌%◌, ◌^◌, Bool, Op, ok, modify, if◌then◌else◌, ◌==◌}

-- The devices behind the registers: what a read gives and does, and what a write does.
pub record Device : Type 1 where
  pub State : Type 0
  pub read : (reg : ℕ) → State → ℕ × State
  pub write : (reg v : ℕ) → State → State

-- With them, whether the CPU's interrupts are masked.
pub record Board (d : Device) : Type 0 where
  pub io : d.State
  pub masked : Bool

module _ (d : Device) where
  unfoldable pub read_reg : ℕ → Op (Board d) ℕ
  read_reg reg b = let (v, io) = d.read reg b.io in ok v (record b { io = io })

  unfoldable pub write_reg : (reg v : ℕ) → Op (Board d) (Unit {0})
  write_reg reg v = modify (λ b. record b { io = d.write reg v b.io })

-- Byte `n` of a word; the word with the byte cleared, `w & ~((uint32)0xFF << 8 * n)`; and
-- `w | (uint32)1 << 8 * n`.
abbrev pub byte_of : (n w : ℕ) → ℕ
byte_of n w = w / 256 ^ n % 256

abbrev pub clear_byte : (n w : ℕ) → ℕ
clear_byte n w = w - byte_of n w * 256 ^ n

abbrev pub or_one : (n w : ℕ) → ℕ
or_one n w = if byte_of n w % 2 == 0 then w + 256 ^ n else w
