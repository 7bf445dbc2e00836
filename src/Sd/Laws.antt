-- ===== src/Sd/Laws.antt =====
-- How `sd_init` of kernel/sdhci.c waits for the card's SCR.
use gcgos.Base.{ℕ, zero, suc, false, ◌≡◌, refl, spinning}
use gcgos.Sd.{Controller, Sd, any, status}
use gcgos.Sd.Init.{scr_loop, sr_read_available}

module _ (c : Controller) where
  -- The loop of `sd_init` that waits for the SCR gives up after no number of turns, though the source
  -- gives it a count of 100000: when the status register never shows SR_READ_AVAILABLE, whatever the
  -- state, the loop has not ended after `fuel` turns, for every `fuel`.
  scr_loop_endless :
      (fuel : ℕ) (s : Sd c.State)
      → ((d : c.State) → let (v, _) = c.read status d in any sr_read_available v ≡ false)
      → scr_loop c fuel 0 s ≡ spinning
  unfolding scr_loop
  scr_loop_endless zero s silent = refl
  scr_loop_endless (suc fuel) s silent = rw (silent s.dev) (scr_loop_endless fuel _ silent)
