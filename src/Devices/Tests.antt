-- ===== src/Devices/Tests.antt =====
-- The interrupt controller's set-up on registers that all hold what is written.
use gcgos.Base.{ℕ, ◌≡◌, ◌+◌, refl, ◌%◌, true, false, ok, write, write_at, write_ne}
use gcgos.Samples.{zeros}
use gcgos.Trap.{pl011_irq, timer_irq}
use gcgos.Devices.{Device, Board}
use gcgos.Devices.Layout.{offset_of, gicd_regs, gicc_regs, gpio_struct, aux_mu_reg, pl011_reg}
use gcgos.Devices.Uart.{gpio, gpfsel1, pup_pdn0}
use gcgos.Devices.Gic.{
  gicd, gicc, gicd_typer, gicd_iidr, isenabler, ispendr, gicd_sgir, gicc_pmr, ipriorityr, itargetsr,
  gic_init,
}
use gcgos.Devices.Routing.{Settings, ByteSet, gic_init-ByteSet}

abbrev pub plain_device : Device
plain_device = record {
  State = ℕ → ℕ;
  read = λ reg s. (s reg, s);
  write = λ reg v s. write s reg v;
}

abbrev plain_settings : Settings plain_device
plain_settings = record {
  is_setting = λ reg. true;
  value = λ reg s. s reg;
  read_value = λ reg s on. refl;
  read_keeps = λ reg other s on. refl;
  write_value = λ reg v s on. write_at s reg v;
  write_keeps = λ reg other v s on ne. write_ne s other reg v ne;
}

abbrev board : Board plain_device
board = record { io = zeros; masked = true }

gic_init-ByteSet_example :
    (b' : Board plain_device) × (gic_init plain_device board ≡ ok tt b')
    × (b'.masked ≡ false)
    × ByteSet (pl011_irq % 4) 0 0 (b'.io (ipriorityr 38))
    × ByteSet (pl011_irq % 4) 1 0 (b'.io (itargetsr 38))
    × ByteSet (timer_irq % 4) 0 0 (b'.io (ipriorityr 7))
gic_init-ByteSet_example = gic_init-ByteSet plain_device plain_settings board refl refl refl

-- The addresses are those of the structures' fields.
gicd_offsets :
    (gicd_typer ≡ gicd + offset_of "GICD_TYPER" gicd_regs)
    × (gicd_iidr ≡ gicd + offset_of "GICD_IIDR" gicd_regs)
    × (isenabler 0 ≡ gicd + offset_of "GICD_ISENABLER" gicd_regs)
    × (ispendr 0 ≡ gicd + offset_of "GICD_ISPENDR" gicd_regs)
    × (ipriorityr 0 ≡ gicd + offset_of "GICD_IPRIORITYR" gicd_regs)
    × (itargetsr 0 ≡ gicd + offset_of "GICD_ITARGETSR" gicd_regs)
    × (gicd_sgir ≡ gicd + offset_of "GICD_SGIR" gicd_regs)
    × (gicc_pmr ≡ gicc + offset_of "GICC_PMR" gicc_regs)
unfolding offset_of
gicd_offsets = (refl, refl, refl, refl, refl, refl, refl, refl)

uart_offsets :
    (gpfsel1 ≡ gpio + offset_of "GPFSEL" gpio_struct + 4)
    × (pup_pdn0 ≡ gpio + offset_of "GPIO_PUP_PDN_CNTRL_REG" gpio_struct)
    × (0x44 ≡ offset_of "ICR" pl011_reg)
    × (0x30 ≡ offset_of "CR" pl011_reg)
    × (0x2C ≡ offset_of "LCRH" pl011_reg)
    × (0x38 ≡ offset_of "IMSC" pl011_reg)
    × (0x40 ≡ offset_of "AUX_MU_IO_REG" aux_mu_reg)
    × (0x54 ≡ offset_of "AUX_MU_LSR_REG" aux_mu_reg)
    × (0x68 ≡ offset_of "AUX_MU_BAUD_REG" aux_mu_reg)
unfolding offset_of
uart_offsets = (refl, refl, refl, refl, refl, refl, refl, refl, refl)
