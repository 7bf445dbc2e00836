-- ===== src/Sd/Block.antt =====
-- `sd_readblock` and `sd_writeblock` of kernel/sdhci.c. A buffer is the list of its 32-bit words: what
-- is read is appended to the words that came before, and what is written is taken from the front.
use gcgos.Base.{
  ℕ, zero, suc, ◌+◌, ◌*◌, ◌%◌, ◌^◌, not, ◌&&◌, Bool, true, false, if◌then◌else◌, ◌==◌, List, [],
  ◌∷◌, ◌++◌, pure, gets, ◌>>=◌, ◌>>◌,
}
use gcgos.Sd.{
  Controller, SdOp, load, store, set_err, sd_status, sd_int, any, sr_dat_inhibit, sd_ok, sd_timeout,
  blksizecnt, reg_data,
}
use gcgos.Sd.Command.{sd_cmd}

abbrev pub cmd_stop_trans : ℕ
cmd_stop_trans = 0x0C030000

abbrev pub cmd_read_single : ℕ
cmd_read_single = 0x11220010

abbrev pub cmd_read_multi : ℕ
cmd_read_multi = 0x12220032

abbrev pub cmd_set_blockcnt : ℕ
cmd_set_blockcnt = 0x17020000

abbrev pub cmd_write_single : ℕ
cmd_write_single = 0x18220000

abbrev pub cmd_write_multi : ℕ
cmd_write_multi = 0x19220022

abbrev pub sr_write_available : ℕ
sr_write_available = 0x400

abbrev pub int_read_rdy : ℕ
int_read_rdy = 0x20

abbrev pub int_write_rdy : ℕ
int_write_rdy = 0x10

abbrev pub int_data_done : ℕ
int_data_done = 0x2

abbrev pub scr_supp_ccs : ℕ
scr_supp_ccs = 0x1

abbrev pub scr_supp_set_blkcnt : ℕ
scr_supp_set_blkcnt = 0x02000000

-- `if (num < 1) num = 1;`
abbrev pub at_least_one : ℕ → ℕ
at_least_one num = if num == 0 then 1 else num

-- The return value behind the last command.
abbrev pub outcome : (err num : ℕ) → ℕ
outcome err num = if not (err == sd_ok) then 0 else num * 512 % 2 ^ 32

-- The first `n` words of a buffer for the controller; there are always as many.
abbrev pub head_word : List ℕ → ℕ
head_word [] = 0
head_word (w ∷ _) = w

abbrev pub words_behind : List ℕ → List ℕ
words_behind [] = []
words_behind (_ ∷ ws) = ws

module _ (c : Controller) where
  -- `sd_cmd(code, arg); if (sd_err) return 0;`: whether to go on.
  unfoldable pub command : (code arg : ℕ) → SdOp c Bool
  command code arg = do _ ← sd_cmd c code arg; e ← gets (λ s. s.err); pure (e == sd_ok)

  -- `if ((r = sd_int(mask))) { sd_err = r; return 0; }`: whether to go on.
  unfoldable pub await : (mask : ℕ) → SdOp c Bool
  await mask = do
    r ← sd_int c mask
    if not (r == 0) then (do set_err c r; pure false) else pure true

  -- The announcement of the transfer, before the loop.
  unfoldable pub announce : (single multi lba num : ℕ) → SdOp c Bool
  unfolding command
  announce single multi lba num = do
    scr ← gets (λ s. s.scr0)
    if any scr_supp_ccs scr
        then (do
          go ←
              if not (num == 1) && any scr_supp_set_blkcnt scr
              then command cmd_set_blockcnt num
              else pure true
          if go
              then (do
                store c blksizecnt (num * 2 ^ 16 % 2 ^ 32 + 512)
                command (if num == 1 then single else multi) lba)
              else pure false)
        else (do store c blksizecnt (2 ^ 16 + 512); pure true)

  -- What a turn of the loop does before the words of its block go over.
  unfoldable pub block_ready : (single mask lba i : ℕ) → SdOp c Bool
  unfolding command await
  block_ready single mask lba i = do
    scr ← gets (λ s. s.scr0)
    go ← if not (any scr_supp_ccs scr) then command single ((lba + i) * 512 % 2 ^ 32) else pure true
    if go then await mask else pure false

  -- `buf[d] = sdchi->DATA`, `n` times.
  unfoldable pub read_words : (n : ℕ) → SdOp c (List ℕ)
  read_words zero = pure []
  read_words (suc n) = do w ← load c reg_data; ws ← read_words n; pure (w ∷ ws)

  -- The loop of `sd_readblock` for the last `left` blocks, the first of which is block `i`: whether it
  -- comes to its end, and the words read.
  unfoldable pub read_blocks : (lba i left : ℕ) → SdOp c (Bool × List ℕ)
  unfolding block_ready
  read_blocks lba i zero = pure (true, [])
  read_blocks lba i (suc left) = do
    go ← block_ready cmd_read_single int_read_rdy lba i
    if go
        then (do
          ws ← read_words 128
          (done, rest) ← read_blocks lba (suc i) left
          pure (done, ws ++ rest))
        else pure (false, [])

  -- The end of a transfer.
  unfoldable pub end_transfer : (num : ℕ) → SdOp c ℕ
  end_transfer num = do
    scr ← gets (λ s. s.scr0)
    if not (num == 1) && not (any scr_supp_set_blkcnt scr) && any scr_supp_ccs scr
        then (do sd_cmd c cmd_stop_trans 0 >>= λ _. pure tt)
        else pure tt
    e ← gets (λ s. s.err)
    pure (outcome e num)

  -- `sd_readblock`: its return value, and the words that it puts into the buffer.
  unfoldable pub sd_readblock : (lba num : ℕ) → SdOp c (ℕ × List ℕ)
  unfolding announce read_blocks end_transfer
  sd_readblock lba num0 = do
    num ← pure (at_least_one num0)
    busy ← sd_status c sr_dat_inhibit
    if not (busy == 0) then (do set_err c sd_timeout; pure (0, [])) else (do
      go ← announce cmd_read_single cmd_read_multi lba num
      if not go then pure (0, []) else (do
        (done, ws) ← read_blocks lba 0 num
        if not done then pure (0, ws) else (do r ← end_transfer num; pure (r, ws))))

  -- `sdchi->DATA = buf[d]`, `n` times: the words that are left.
  unfoldable pub write_words : (n : ℕ) (buf : List ℕ) → SdOp c (List ℕ)
  write_words zero buf = pure buf
  write_words (suc n) buf = do store c reg_data (head_word buf); write_words n (words_behind buf)

  unfoldable pub write_blocks : (lba i left : ℕ) (buf : List ℕ) → SdOp c Bool
  unfolding block_ready
  write_blocks lba i zero buf = pure true
  write_blocks lba i (suc left) buf = do
    go ← block_ready cmd_write_single int_write_rdy lba i
    if go then (do rest ← write_words 128 buf; write_blocks lba (suc i) left rest) else pure false

  unfoldable pub sd_writeblock : (buf : List ℕ) (lba num : ℕ) → SdOp c ℕ
  unfolding announce write_blocks end_transfer await
  sd_writeblock buf lba num0 = do
    num ← pure (at_least_one num0)
    busy ← sd_status c (sr_dat_inhibit + sr_write_available)
    if not (busy == 0) then (do set_err c sd_timeout; pure 0) else (do
      go ← announce cmd_write_single cmd_write_multi lba num
      if not go then pure 0 else (do
        done ← write_blocks lba 0 num buf
        if not done
            then pure 0
            else (do over ← await int_data_done; if not over then pure 0 else end_transfer num)))
