-- ===== src/Sd/Tests.antt =====
-- The theorems about kernel/sdhci.c for a small controller.
use gcgos.Base.{ℕ, ◌+◌, [], ◌∷◌, Ends}
use gcgos.Sd.{Controller, Reg, Sd, reg_data, interrupt}
use gcgos.Sd.Block.{sd_readblock, sd_writeblock}
use gcgos.Sd.Transfers.{Delivered, Settled, sd_readblock-Delivered, sd_writeblock-Settled}

-- A controller that shows every awaited interrupt at once and reads as ever larger words.
abbrev read_register : Reg → ℕ → ℕ × ℕ
read_register reg_data d = (d, d + 1)
read_register interrupt d = (0x33, d)
read_register _ d = (0, d)

abbrev pub counter : Controller
counter = record {
  State = ℕ;
  read = read_register;
  write = λ _ _ d. d;
  wait = λ _ d. d;
  cycles = λ _ d. d;
}

abbrev pub idle : Sd ℕ
idle = record { dev = 0; scr0 = 1; scr1 = 0; rca = 0; err = 0; hv = 0 }

sd_readblock-Delivered_example : Ends (Delivered counter 2) (sd_readblock counter 5 2 idle)
sd_readblock-Delivered_example = sd_readblock-Delivered counter 5 2 idle

sd_writeblock-Settled_example : Ends (Settled counter 1) (sd_writeblock counter (7 ∷ []) 5 0 idle)
sd_writeblock-Settled_example = sd_writeblock-Settled counter (7 ∷ []) 5 0 idle
