-- ===== src/Devices/Layout.antt =====
-- The register structures of include/gicv2.h and uart.h: their fields in order, each with its number
-- of words of 4 bytes.
use Prim.Native.String.{String}
use text.Mathlib.Text.{◌==◌}
use gcgos.Base.{ℕ, ◌+◌, ◌*◌, List, [], ◌∷◌, if◌then◌else◌}

abbrev pub Layout : Type 0
Layout = List (String × ℕ)

-- Where a field begins, in bytes.
unfoldable pub offset_of : String → Layout → ℕ
offset_of name [] = 0
offset_of name ((field, words) ∷ fields) =
    let rest = offset_of name fields in if field == name then 0 else 4 * words + rest

-- `struct gicd_regs`
abbrev pub gicd_regs : Layout
gicd_regs =
    ("GICD_CTLR", 1)
    ∷ ("GICD_TYPER", 1)
    ∷ ("GICD_IIDR", 1)
    ∷ ("Reserve0", 29)
    ∷ ("GICD_IGROUPR", 15)
    ∷ ("Reserve1", 17)
    ∷ ("GICD_ISENABLER", 15)
    ∷ ("Reserve2", 17)
    ∷ ("GICD_ICENABLER", 15)
    ∷ ("Reserve3", 17)
    ∷ ("GICD_ISPENDR", 15)
    ∷ ("Reserve4", 17)
    ∷ ("GICD_ICPENDR", 15)
    ∷ ("Reserve5", 17)
    ∷ ("GICD_ISACTIVER", 15)
    ∷ ("Reserve6", 17)
    ∷ ("GICD_ICACTIVER", 15)
    ∷ ("Reserve7", 17)
    ∷ ("GICD_IPRIORITYR", 127)
    ∷ ("Reserve8", 129)
    ∷ ("GICD_ITARGETSR", 127)
    ∷ ("Reserve9", 129)
    ∷ ("GICD_ICFGR", 31)
    ∷ ("Reserve10", 33)
    ∷ ("GICD_PPISR", 1)
    ∷ ("GICD_SPISR", 14)
    ∷ ("Reserve11", 113)
    ∷ ("GICD_SGIR", 1)
    ∷ ("Reserve12", 3)
    ∷ ("GICD_CPENDSGIR", 4)
    ∷ ("GICD_SPENDSGIR", 4)
    ∷ ("Reserve13", 40)
    ∷ ("GICD_PIDR4", 1)
    ∷ ("GICD_PIDR5", 1)
    ∷ ("GICD_PIDR6", 1)
    ∷ ("GICD_PIDR7", 1)
    ∷ ("GICD_PIDR0", 1)
    ∷ ("GICD_PIDR1", 1)
    ∷ ("GICD_PIDR2", 1)
    ∷ ("GICD_PIDR3", 1)
    ∷ ("GICD_CIDR0", 1)
    ∷ ("GICD_CIDR1", 1)
    ∷ ("GICD_CIDR2", 1)
    ∷ ("GICD_CIDR3", 1)
    ∷ []

-- `struct gicc_regs`
abbrev pub gicc_regs : Layout
gicc_regs =
    ("GICC_CTLR", 1)
    ∷ ("GICC_PMR", 1)
    ∷ ("GICC_BPR", 1)
    ∷ ("GICC_IAR", 1)
    ∷ ("GICC_EOIR", 1)
    ∷ ("GICC_RPR", 1)
    ∷ ("GICC_HPPIR", 1)
    ∷ ("GICC_ABPR", 1)
    ∷ ("GICC_AIAR", 1)
    ∷ ("GICC_AEOIR", 1)
    ∷ ("GICC_AHPPIR", 1)
    ∷ ("Reserve1", 41)
    ∷ ("GICC_APR0", 1)
    ∷ ("Reserve2", 3)
    ∷ ("GICC_NSAPR0", 1)
    ∷ ("Rserve3", 6)
    ∷ ("GICC_IIDR", 1)
    ∷ ("Rserve4", 960)
    ∷ ("GICC_DIR", 1)
    ∷ []

-- `struct gpio_struct`
abbrev pub gpio_struct : Layout
gpio_struct =
    ("GPFSEL", 7)
    ∷ ("GPSET", 2)
    ∷ ("GPCLR", 2)
    ∷ ("GPLEV", 2)
    ∷ ("GPEDS", 2)
    ∷ ("GPREN", 2)
    ∷ ("GPFEN", 2)
    ∷ ("GPHEN", 2)
    ∷ ("GPLEN", 2)
    ∷ ("GPAREN", 2)
    ∷ ("GPAFEN", 2)
    ∷ ("GPIO_PUP_PDN_CNTRL_REG", 3)
    ∷ []

-- `struct aux_mu_reg`
abbrev pub aux_mu_reg : Layout
aux_mu_reg =
    ("AUX_IRQ", 1)
    ∷ ("AUX_ENABLES", 1)
    ∷ ("Reserve", 14)
    ∷ ("AUX_MU_IO_REG", 1)
    ∷ ("AUX_MU_IER_REG", 1)
    ∷ ("AUX_MU_IIR_REG", 1)
    ∷ ("AUX_MU_LCR_REG", 1)
    ∷ ("AUX_MU_MCR_REG", 1)
    ∷ ("AUX_MU_LSR_REG", 1)
    ∷ ("AUX_MU_MSR_REG", 1)
    ∷ ("AUX_MU_SCRATCH", 1)
    ∷ ("AUX_MU_CNTL_REG", 1)
    ∷ ("AUX_MU_STAT_REG", 1)
    ∷ ("AUX_MU_BAUD_REG", 1)
    ∷ []

-- `struct pl011_reg`
abbrev pub pl011_reg : Layout
pl011_reg =
    ("DR", 1)
    ∷ ("RSRECR", 5)
    ∷ ("FR", 1)
    ∷ ("Reserv1", 1)
    ∷ ("ILPR", 1)
    ∷ ("IBRD", 1)
    ∷ ("FBRD", 1)
    ∷ ("LCRH", 1)
    ∷ ("CR", 1)
    ∷ ("IFLS", 1)
    ∷ ("IMSC", 1)
    ∷ ("RIS", 1)
    ∷ ("MIS", 1)
    ∷ ("ICR", 1)
    ∷ ("DMACR", 1)
    ∷ ("Rserve2", 15)
    ∷ ("ITCR", 1)
    ∷ ("ITIP", 1)
    ∷ ("ITOP", 1)
    ∷ ("TDR", 1)
    ∷ []
