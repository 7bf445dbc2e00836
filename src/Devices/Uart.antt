-- ===== src/Devices/Uart.antt =====
-- The set-up of the UART in kernel/pl011_uart.c, and kernel/mini_uart.c.
use Prim.Native.Nat.{bit_or}
use gcgos.Base.{
  ℕ, zero, suc, ◌+◌, ◌*◌, ◌/◌, ◌%◌, ◌^◌, List, [], ◌∷◌, ◌-◌, if◌then◌else◌, ◌==◌, Op, spinning,
  pure, ◌>>=◌, ◌>>◌,
}
use gcgos.Devices.{Device, Board, read_reg, write_reg}
use gcgos.Devices.Gic.{change_reg}

abbrev pub gpio : ℕ
gpio = 0xFE200000

abbrev pub pl011 : ℕ
pl011 = 0xFE201000

abbrev pub aux : ℕ
aux = 0xFE215000

-- GPFSEL[1], and GPIO_PUP_PDN_CNTRL_REG[0] where the struct has it.
abbrev pub gpfsel1 : ℕ
gpfsel1 = gpio + 0x4

abbrev pub pup_pdn0 : ℕ
pup_pdn0 = gpio + 0x6C

-- `(w & ~0x3f000) | 0x12000`, and `(w & ~0xF0000000) | 0x50000000`, in two assignments each.
abbrev pub select_clear : ℕ → ℕ
select_clear w = w / 2 ^ 18 * 2 ^ 18 + w % 2 ^ 12

abbrev pub pull_clear : ℕ → ℕ
pull_clear w = w % 2 ^ 28

module _ (d : Device) where
  unfoldable pub pins : Op (Board d) (Unit {0})
  pins = do
    change_reg d gpfsel1 select_clear
    change_reg d gpfsel1 (λ w. bit_or w 0x12000)
    change_reg d pup_pdn0 pull_clear
    change_reg d pup_pdn0 (λ w. bit_or w 0x50000000)

  unfoldable pub pl011_uart_init : Op (Board d) (Unit {0})
  pl011_uart_init = do
    pins
    write_reg d (pl011 + 0x30) 0  -- CR
    write_reg d (pl011 + 0x44) 0x7FF  -- ICR
    write_reg d (pl011 + 0x24) 2  -- IBRD
    write_reg d (pl011 + 0x28) 0xB  -- FBRD
    write_reg d (pl011 + 0x2C) (7 * 2 ^ 4)  -- LCRH
    write_reg d (pl011 + 0x30) 0x301  -- CR

  -- The reads of IFLS and RIS are for its `printf`.
  unfoldable pub pl011_uart_ie : Op (Board d) (Unit {0})
  pl011_uart_ie = do
    change_reg d (pl011 + 0x38) (λ w. bit_or w 0x10)
    read_reg d (pl011 + 0x34) >>= λ _. pure tt
    read_reg d (pl011 + 0x3C) >>= λ _. pure tt

  unfoldable pub mini_uart_init : Op (Board d) (Unit {0})
  mini_uart_init = do
    pins
    write_reg d (aux + 0x4) 1
    write_reg d (aux + 0x44) 0
    write_reg d (aux + 0x60) 0
    write_reg d (aux + 0x4C) 3
    write_reg d (aux + 0x50) 0
    write_reg d (aux + 0x48) 0xC6
    write_reg d (aux + 0x68) 541
    write_reg d (aux + 0x60) 3

  -- The loop that waits has no bound of its own.
  unfoldable pub mini_uart_send_char : (fuel c : ℕ) → Op (Board d) (Unit {0})
  mini_uart_send_char zero c = λ b. spinning
  mini_uart_send_char (suc fuel) c = do
    lsr ← read_reg d (aux + 0x54)
    if lsr / 32 % 2 == 0 then mini_uart_send_char fuel c else write_reg d (aux + 0x40) c

  unfoldable pub mini_uart_send_text : (fuel : ℕ) → List ℕ → Op (Board d) (Unit {0})
  mini_uart_send_text fuel [] = pure tt
  mini_uart_send_text fuel (c ∷ s) = do
    if c == 10 then mini_uart_send_char fuel 13 else pure tt
    mini_uart_send_char fuel c
    mini_uart_send_text fuel s

  unfoldable pub mini_uart_recev : Op (Board d) ℕ
  mini_uart_recev = do
    lsr ← read_reg d (aux + 0x54)
    if lsr % 2 == 0 then pure (2 ^ 32 - 1) else read_reg d (aux + 0x40)
