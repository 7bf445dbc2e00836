-- ===== src/Sd/Clock.antt =====
-- `sd_clk` of kernel/sdhci.c.
use Prim.Native.Nat.{bit_and, bit_or}
use gcgos.Base.{
  ℕ, zero, suc, ◌+◌, ◌-◌, ◌*◌, ◌/◌, ◌%◌, ◌^◌, not, Bool, true, false, if◌then◌else◌, ◌==◌, ltb,
  pure, gets, ◌>>=◌, ◌>>◌,
}
use gcgos.Sd.{
  Controller, Reg, SdOp, load, store, wait_msec, any, sr_dat_inhibit, sr_cmd_inhibit, sd_ok,
  sd_error, status, control1,
}

abbrev pub c1_clk_en : ℕ
c1_clk_en = 0x4

abbrev pub c1_clk_stable : ℕ
c1_clk_stable = 0x2

abbrev pub host_spec_v2 : ℕ
host_spec_v2 = 1

-- `if (!(x & m)) { x <<= k; s -= k; }` for the mask `m` of the upper `k` bits.
unfoldable pub shift_up : (k : ℕ) → ℕ × ℕ → ℕ × ℕ
shift_up k (x, s) = if ltb x (2 ^ (32 - k)) then (x * 2 ^ k, s - k) else (x, s)

-- `s` behind the five tests for a 32-bit `x` that is not 0.
unfoldable pub bit_length : (x : ℕ) → ℕ
unfolding shift_up
bit_length x =
    let (_, s) = shift_up 1 (shift_up 2 (shift_up 4 (shift_up 8 (shift_up 16 (x, 32))))) in s

-- `s` for the divisor `c`, before the host's version is looked at.
unfoldable pub shift_for : (c : ℕ) → ℕ
unfolding bit_length
shift_for c =
    let x = (c + (2 ^ 32 - 1)) % 2 ^ 32 in
    if x == 0 then 0 else (let s = bit_length x - 1 in if ltb 7 s then 7 else s)

-- The bits of `CONTROL1` for the divisor `d`.
unfoldable pub divisor_bits : (hv d : ℕ) → ℕ
divisor_bits hv d =
    bit_or (bit_and d 0xff * 2 ^ 8) (if ltb host_spec_v2 hv then bit_and d 0x300 / 2 ^ 2 else 0)

unfoldable pub divisor : (hv c : ℕ) → ℕ
unfolding shift_for
divisor hv c =
    let d = if ltb host_spec_v2 hv then c else 2 ^ shift_for c in if ltb 2 d then d else 2

module _ (c : Controller) where
  -- `while (!done(register) && cnt--) wait_msec(n);`: whether it ends with `cnt <= 0`.
  unfoldable pub poll : (r : Reg) (done : ℕ → Bool) (n cnt : ℕ) → SdOp c Bool
  poll r done n zero = do _ ← load c r; pure true
  poll r done n (suc cnt) = do
    v ← load c r
    if done v then pure false else (do wait_msec c n; poll r done n cnt)

  unfoldable pub sd_clk : (f : ℕ) → SdOp c ℕ
  unfolding divisor divisor_bits poll
  sd_clk f = do
    c0 ← pure (41666666 / f)
    late ← poll status (λ v. not (any (sr_cmd_inhibit + sr_dat_inhibit) v)) 1 100000
    if late then pure sd_error else (do
      v ← load c control1
      store c control1 (bit_and v (2 ^ 32 - 1 - c1_clk_en))
      wait_msec c 10
      hv ← gets (λ s. s.hv)
      v ← load c control1
      store c control1 (bit_or (bit_and v 0xffff003f) (divisor_bits hv (divisor hv c0)))
      wait_msec c 10
      v ← load c control1
      store c control1 (bit_or v c1_clk_en)
      wait_msec c 10
      unstable ← poll control1 (any c1_clk_stable) 10 10000
      pure (if unstable then sd_error else sd_ok))
