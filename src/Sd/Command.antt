-- ===== src/Sd/Command.antt =====
-- `sd_cmd` of kernel/sdhci.c.
use Prim.Native.Nat.{bit_and, bit_or}
use gcgos.Base.{
  ℕ, ◌+◌, ◌*◌, ◌/◌, ◌%◌, ◌^◌, not, ◌&&◌, ◌||◌, if◌then◌else◌, ◌==◌, pure, gets, ◌>>=◌, ◌>>◌,
}
use gcgos.Sd.{
  Controller, SdOp, load, store, wait_msec, set_err, sd_status, sd_int, sr_cmd_inhibit, sd_ok,
  sd_timeout, sd_error, arg1, cmdtm, resp0, resp1, resp2, resp3, interrupt,
}

abbrev pub cmd_need_app : ℕ
cmd_need_app = 0x80000000

abbrev pub cmd_rspns_48 : ℕ
cmd_rspns_48 = 0x00020000

abbrev pub cmd_errors_mask : ℕ
cmd_errors_mask = 0xfff9c004

abbrev pub cmd_rca_mask : ℕ
cmd_rca_mask = 0xffff0000

abbrev pub cmd_go_idle : ℕ
cmd_go_idle = 0

abbrev pub cmd_all_send_cid : ℕ
cmd_all_send_cid = 0x02010000

abbrev pub cmd_send_rel_addr : ℕ
cmd_send_rel_addr = 0x03020000

abbrev pub cmd_card_select : ℕ
cmd_card_select = 0x07030000

abbrev pub cmd_send_if_cond : ℕ
cmd_send_if_cond = 0x08020000

abbrev pub cmd_app_cmd : ℕ
cmd_app_cmd = 0x37000000

abbrev pub cmd_set_bus_width : ℕ
cmd_set_bus_width = 0x06020000 + cmd_need_app

abbrev pub cmd_send_op_cond : ℕ
cmd_send_op_cond = 0x29020000 + cmd_need_app

abbrev pub cmd_send_scr : ℕ
cmd_send_scr = 0x33220010 + cmd_need_app

abbrev pub int_cmd_done : ℕ
int_cmd_done = 0x1

abbrev pub sr_app_cmd : ℕ
sr_app_cmd = 0x20

-- The status bits that CMD_SEND_REL_ADDR packs into its answer, at their usual places.
abbrev pub rel_addr_errors : ℕ → ℕ
rel_addr_errors r =
    bit_and
      (bit_or
        (bit_or (bit_or (bit_and r 0x1fff) (bit_and r 0x2000 * 2 ^ 6)) (bit_and r 0x4000 * 2 ^ 8))
        (bit_and r 0x8000 * 2 ^ 8))
      cmd_errors_mask

module _ (c : Controller) where
  -- The last part of `sd_cmd`, with `r` the first response.
  unfoldable pub response : (code arg r : ℕ) → SdOp c ℕ
  response code arg r =
      if code == cmd_go_idle || code == cmd_app_cmd
      then pure 0
      else if code == cmd_app_cmd + cmd_rspns_48
      then pure (bit_and r sr_app_cmd)
      else if code == cmd_send_op_cond
      then pure r
      else if code == cmd_send_if_cond
      then pure (if r == arg then sd_ok else sd_error)
      else if code == cmd_all_send_cid
      then (do
        r3 ← load c resp3
        r2 ← load c resp2
        r1 ← load c resp1
        pure (bit_or (bit_or (bit_or r r3) r2) r1))
      else if code == cmd_send_rel_addr
      then (do set_err c (rel_addr_errors r); pure (bit_and r cmd_rca_mask))
      else pure (bit_and r cmd_errors_mask)

  -- The wait behind a command.
  unfoldable pub pause : (code : ℕ) → SdOp c (Unit {0})
  pause code =
      if code == cmd_send_op_cond
      then wait_msec c 1000
      else if code == cmd_send_if_cond || code == cmd_app_cmd
      then wait_msec c 100
      else pure tt

  -- `sd_cmd` behind the handling of CMD_NEED_APP.
  unfoldable pub send : (code arg : ℕ) → SdOp c ℕ
  unfolding pause response
  send code arg = do
    busy ← sd_status c sr_cmd_inhibit
    if not (busy == 0) then (do set_err c sd_timeout; pure 0) else (do
      i ← load c interrupt
      store c interrupt i
      store c arg1 arg
      store c cmdtm code
      pause code
      r ← sd_int c int_cmd_done
      if not (r == 0) then (do set_err c r; pure 0) else (do r ← load c resp0; response code arg r))

  -- `sd_cmd`. The recursive call is for a code without CMD_NEED_APP, so that it comes to `send`.
  unfoldable pub sd_cmd : (code arg : ℕ) → SdOp c ℕ
  unfolding send
  sd_cmd code arg = do
    set_err c sd_ok
    if code / 2 ^ 31 % 2 == 1
        then (do
          rca ← gets (λ s. s.rca)
          r ← send (if rca == 0 then cmd_app_cmd else cmd_app_cmd + cmd_rspns_48) rca
          if not (rca == 0) && r == 0
              then (do set_err c sd_error; pure 0)
              else send (code % 2 ^ 31) arg)
        else send code arg
