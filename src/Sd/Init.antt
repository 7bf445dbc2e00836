-- ===== src/Sd/Init.antt =====
-- `sd_init` of kernel/sdhci.c. The loop that reads the card's SCR has no bound in the source, since
-- nothing counts `cnt` down: it runs on fuel, and `spinning` is its end without fuel.
use Prim.Native.Nat.{bit_and, bit_or}
use gcgos.Base.{
  ℕ, zero, suc, ◌+◌, ◌-◌, ◌/◌, ◌%◌, ◌^◌, not, ◌&&◌, ◌||◌, Bool, true, false, if◌then◌else◌, ◌==◌,
  Option, none, some, spinning, pure, gets, modify, ◌>>=◌, ◌>>◌,
}
use gcgos.Sd.{
  Controller, SdOp, load, store, wait_msec, wait_cycles, sd_status, sd_int, any, sr_dat_inhibit,
  sd_ok, sd_timeout, sd_error, blksizecnt, reg_data, status, control0, control1, int_mask, int_en,
  slotisr_ver,
}
use gcgos.Sd.Command.{
  sd_cmd, cmd_go_idle, cmd_all_send_cid, cmd_send_rel_addr, cmd_card_select, cmd_send_if_cond,
  cmd_set_bus_width, cmd_send_op_cond, cmd_send_scr,
}
use gcgos.Sd.Clock.{poll, sd_clk}
use gcgos.Sd.Block.{scr_supp_ccs, int_read_rdy}

abbrev pub sr_read_available : ℕ
sr_read_available = 0x800

abbrev pub scr_sd_bus_width_4 : ℕ
scr_sd_bus_width_4 = 0x400

abbrev pub c0_hctl_dwitdh : ℕ
c0_hctl_dwitdh = 0x2

abbrev pub c1_srst_hc : ℕ
c1_srst_hc = 0x01000000

abbrev pub c1_tounit_max : ℕ
c1_tounit_max = 0x000e0000

abbrev pub c1_clk_intlen : ℕ
c1_clk_intlen = 0x1

abbrev pub acmd41_voltage : ℕ
acmd41_voltage = 0x00ff8000

abbrev pub acmd41_cmd_complete : ℕ
acmd41_cmd_complete = 0x80000000

abbrev pub acmd41_cmd_ccs : ℕ
acmd41_cmd_ccs = 0x40000000

abbrev pub acmd41_arg_hc : ℕ
acmd41_arg_hc = 0x51ff8000

module _ (c : Controller) where
  -- `if (sd_err) return sd_err;` before the rest.
  abbrev pub or_err : SdOp c ℕ → SdOp c ℕ
  or_err rest = do e ← gets (λ s. s.err); if e == sd_ok then rest else pure e

  -- The loop of CMD_SEND_OP_COND, and the test behind it: nothing when the loop returns `sd_err`, else
  -- the last answer and whether it came too late.
  unfoldable pub op_cond : (cnt r : ℕ) → SdOp c (Option (ℕ × Bool))
  op_cond zero r = pure (some (r, true))
  op_cond (suc cnt) r = if any acmd41_cmd_complete r then pure (some (r, false)) else (do
    wait_cycles c 400
    r ← sd_cmd c cmd_send_op_cond acmd41_arg_hc
    e ← gets (λ s. s.err)
    if not (e == sd_timeout) && not (e == sd_ok) then pure none else op_cond cnt r)

  -- The loop that reads the SCR, with `r` words read.
  unfoldable pub scr_loop : (fuel r : ℕ) → SdOp c (Unit {0})
  scr_loop zero r = if r == 2 then pure tt else (λ _. spinning)
  scr_loop (suc fuel) r = if r == 2 then pure tt else (do
    v ← load c status
    if any sr_read_available v
        then (do
          w ← load c reg_data
          modify λ s. if r == 0 then record s { scr0 = w } else record s { scr1 = w }
          scr_loop fuel (suc r))
        else (do wait_msec c 1; scr_loop fuel r))

  -- `sd_init` behind the SCR.
  unfoldable pub finish_init : (ccs : ℕ) → SdOp c ℕ
  finish_init ccs = do
    scr ← gets (λ s. s.scr0)
    rca ← gets (λ s. s.rca)
    if any scr_sd_bus_width_4 scr
        then (do sd_cmd c cmd_set_bus_width (bit_or rca 2) >>= λ _. pure tt)
        else pure tt
    e ← gets (λ s. s.err)
    if any scr_sd_bus_width_4 scr && not (e == sd_ok) then pure e else (do
      if any scr_sd_bus_width_4 scr
          then (do v ← load c control0; store c control0 (bit_or v c0_hctl_dwitdh))
          else pure tt
      modify λ s. record s { scr0 = bit_or (s.scr0 - s.scr0 % 2) ccs }
      pure sd_ok)

  -- `sd_init` behind CMD_SEND_OP_COND.
  unfoldable pub select_card : (fuel ccs : ℕ) → SdOp c ℕ
  unfolding scr_loop finish_init
  select_card fuel ccs = do
    _ ← sd_cmd c cmd_all_send_cid 0
    rca ← sd_cmd c cmd_send_rel_addr 0
    modify λ s. record s { rca = rca }
    or_err (do
      r ← sd_clk c 25000000
      if not (r == 0) then pure r else (do
        _ ← sd_cmd c cmd_card_select rca
        or_err (do
          busy ← sd_status c sr_dat_inhibit
          if not (busy == 0) then pure sd_timeout else (do
            store c blksizecnt (2 ^ 16 + 8)
            _ ← sd_cmd c cmd_send_scr 0
            or_err (do
              late ← sd_int c int_read_rdy
              if not (late == 0)
                  then pure sd_timeout
                  else (do scr_loop fuel 0; finish_init ccs))))))

  unfoldable pub sd_init : (fuel : ℕ) → SdOp c ℕ
  unfolding op_cond select_card
  sd_init fuel = do
    v ← load c slotisr_ver
    modify λ s. record s { hv = bit_and v 0x00ff0000 / 2 ^ 16 }
    store c control0 0
    v ← load c control1
    store c control1 (bit_or v c1_srst_hc)
    wait_msec c 10
    late ← poll c control1 (λ v. not (any c1_srst_hc v)) 10 10000
    if late then pure sd_error else (do
      v ← load c control1
      store c control1 (bit_or v (c1_clk_intlen + c1_tounit_max))
      wait_msec c 10
      r ← sd_clk c 400000
      if not (r == 0) then pure r else (do
        store c int_en 0xffffffff
        store c int_mask 0xffffffff
        modify λ s. record s { scr0 = 0; scr1 = 0; rca = 0; err = 0 }
        _ ← sd_cmd c cmd_go_idle 0
        or_err (do
          _ ← sd_cmd c cmd_send_if_cond 0x1AA
          or_err (do
            answer ← op_cond 6 0
            elim answer [
              | none ↦ gets (λ s. s.err)
              | some (r, late) ↦
                  if not (any acmd41_cmd_complete r) || late
                  then pure sd_timeout
                  else if not (any acmd41_voltage r)
                  then pure sd_error
                  else select_card fuel (if any acmd41_cmd_ccs r then scr_supp_ccs else 0)
            ]))))
