-- ===== src/Sd.antt =====
-- kernel/sdhci.c, the driver of the SD card's host controller. The controller is a parameter: a state
-- that reading a register, writing one and the passing of time change. Registers are 32 bits wide,
-- and an int is its bit pattern. `printf` is left out.
pub mod Command
pub mod Block
pub mod Init
pub mod Clock
pub mod Returns
pub mod Transfers
pub mod Laws
pub mod Tests
use Prim.Native.Nat.{bit_and}
use gcgos.Base.{
  ℕ, zero, suc, ◌-◌, ◌^◌, not, ◌||◌, Bool, true, false, if◌then◌else◌, ◌==◌, Op, ok, pure, gets,
  modify, ◌>>=◌, ◌>>◌,
}

-- The registers of `struct sdchireg` that the driver uses.
pub data Reg : Type 0 where
  blksizecnt arg1 cmdtm resp0 resp1 resp2 resp3 reg_data status control0 control1 : Reg
  interrupt int_mask int_en slotisr_ver : Reg

-- The host controller with its card, and what `wait_msec` and `wait_cycles` do to it.
pub record Controller : Type 1 where
  pub State : Type 0
  pub read : Reg → State → ℕ × State
  pub write : Reg → ℕ → State → State
  pub wait : ℕ → State → State
  pub cycles : ℕ → State → State

-- The controller's state and the driver's variables.
pub record Sd (State : Type 0) : Type 0 where
  pub dev : State
  pub scr0 : ℕ
  pub scr1 : ℕ
  pub rca : ℕ
  pub err : ℕ
  pub hv : ℕ

-- `r & mask`, as a test.
abbrev pub any : (mask r : ℕ) → Bool
any mask r = not (bit_and r mask == 0)

abbrev pub sr_dat_inhibit : ℕ
sr_dat_inhibit = 0x2

abbrev pub sr_cmd_inhibit : ℕ
sr_cmd_inhibit = 0x1

abbrev pub int_error_mask : ℕ
int_error_mask = 0x017E8000

abbrev pub int_data_timeout : ℕ
int_data_timeout = 0x00100000

abbrev pub int_cmd_timeout : ℕ
int_cmd_timeout = 0x00010000

abbrev pub sd_ok : ℕ
sd_ok = 0

abbrev pub sd_timeout : ℕ
sd_timeout = 2 ^ 32 - 1

abbrev pub sd_error : ℕ
sd_error = 2 ^ 32 - 2

module _ (c : Controller) where
  abbrev pub SdOp : Type 0 → Type 0
  SdOp = Op (Sd c.State)

  abbrev pub load : Reg → SdOp ℕ
  load r s = let (v, d) = c.read r s.dev in ok v (record s { dev = d })

  abbrev pub store : Reg → ℕ → SdOp (Unit {0})
  store r v = modify λ s. record s { dev = c.write r v s.dev }

  abbrev pub wait_msec : ℕ → SdOp (Unit {0})
  wait_msec n = modify λ s. record s { dev = c.wait n s.dev }

  abbrev pub wait_cycles : ℕ → SdOp (Unit {0})
  wait_cycles n = modify λ s. record s { dev = c.cycles n s.dev }

  abbrev pub set_err : ℕ → SdOp (Unit {0})
  set_err e = modify λ s. record s { err = e }

  -- The test of the loop of `sd_status`, up to `cnt--`.
  unfoldable pub is_busy : (mask : ℕ) → SdOp Bool
  is_busy mask = do
    s ← load status
    if any mask s then (do i ← load interrupt; pure (not (any int_error_mask i))) else pure false

  -- The loop of `sd_status`: whether it ends with `cnt <= 0`.
  unfoldable pub status_loop : (cnt mask : ℕ) → SdOp Bool
  unfolding is_busy
  status_loop zero mask = do _ ← is_busy mask; pure true
  status_loop (suc cnt) mask = do
    busy ← is_busy mask
    if busy then (do wait_msec 1; status_loop cnt mask) else pure false

  unfoldable pub sd_status : (mask : ℕ) → SdOp ℕ
  sd_status mask = do
    expired ← status_loop 500000 mask
    if expired
        then pure sd_error
        else (do i ← load interrupt; pure (if any int_error_mask i then sd_error else sd_ok))

  -- The loop of `sd_int`: whether it ends with `cnt <= 0`.
  unfoldable pub int_loop : (cnt mask : ℕ) → SdOp Bool
  int_loop zero mask = do _ ← load interrupt; pure true
  int_loop (suc cnt) mask = do
    i ← load interrupt
    if any mask i || any int_error_mask i then pure false else (do wait_msec 1; int_loop cnt mask)

  unfoldable pub sd_int : (mask : ℕ) → SdOp ℕ
  sd_int mask = do
    expired ← int_loop 1000000 mask
    r ← load interrupt
    if expired || any int_cmd_timeout r || any int_data_timeout r
        then (do store interrupt r; pure sd_timeout)
        else if any int_error_mask r
        then (do store interrupt r; pure sd_error)
        else (do store interrupt mask; pure 0)
