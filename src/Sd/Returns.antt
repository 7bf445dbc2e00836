-- ===== src/Sd/Returns.antt =====
-- The driver's waits and commands come to an end for every controller.
use gcgos.Base.{ℕ, zero, suc, Returns, Ends-if, Ends-then, Ends-call, returns}
use gcgos.Sd.{Controller, Sd, is_busy, status_loop, sd_status, int_loop, sd_int, any, status}
use gcgos.Sd.Command.{response, pause, send, sd_cmd}

module _ (c : Controller) where
  is_busy-Returns : (mask : ℕ) (s : Sd c.State) → Returns (is_busy c mask s)
  unfolding is_busy
  is_busy-Returns mask s =
      Ends-if (any mask (c.read status s.dev).0) _ _ _ (λ _. returns) (λ _. returns)

  status_loop-Returns : (n mask : ℕ) (s : Sd c.State) → Returns (status_loop c n mask s)
  unfolding status_loop
  status_loop-Returns zero mask s = Ends-then _ (is_busy-Returns mask s) (λ _ _ _. returns)
  status_loop-Returns (suc n) mask s =
      Ends-then _ (is_busy-Returns mask s)
        (λ b s' _. Ends-if b _ _ _ (λ _. status_loop-Returns n mask _) (λ _. returns))

  pub sd_status-Returns : (mask : ℕ) (s : Sd c.State) → Returns (sd_status c mask s)
  unfolding sd_status
  sd_status-Returns mask s = search (Ends-if, returns, Ends-call, status_loop-Returns 500000 mask)

  int_loop-Returns : (n mask : ℕ) (s : Sd c.State) → Returns (int_loop c n mask s)
  unfolding int_loop
  int_loop-Returns zero mask s = returns
  int_loop-Returns (suc n) mask s = search (Ends-if, returns, int_loop-Returns n)

  pub sd_int-Returns : (mask : ℕ) (s : Sd c.State) → Returns (sd_int c mask s)
  unfolding sd_int
  sd_int-Returns mask s = search (Ends-if, returns, Ends-call, int_loop-Returns 1000000 mask)

  pause-Returns : (code : ℕ) (s : Sd c.State) → Returns (pause c code s)
  unfolding pause
  pause-Returns code s = search (Ends-if, returns)

  response-Returns : (code arg r : ℕ) (s : Sd c.State) → Returns (response c code arg r s)
  unfolding response
  response-Returns code arg r s = search (Ends-if, returns) depth 12

  send-Returns : (code arg : ℕ) (s : Sd c.State) → Returns (send c code arg s)
  unfolding send
  send-Returns code arg s =
      search
        (
          Ends-if, returns, Ends-call, sd_status-Returns, pause-Returns, sd_int-Returns,
          response-Returns,
        )
        depth 12

  pub sd_cmd-Returns : (code arg : ℕ) (s : Sd c.State) → Returns (sd_cmd c code arg s)
  unfolding sd_cmd
  sd_cmd-Returns code arg s = search (Ends-if, returns, Ends-call, send-Returns) depth 12
