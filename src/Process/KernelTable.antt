-- ===== src/Process/KernelTable.antt =====
-- `kvmmake` and `kvminithart` of kernel/vm.c. The linker gives `etext` and `trampoline`; `enable_mmu` is
-- assembly, and takes the values given here.
use gcgos.Base.{ℕ, ◌+◌, ◌-◌, ◌*◌, ◌^◌, Op, pure, ◌>>=◌, ◌>>◌}
use gcgos.Kmem.{Kmem, kalloc, kern_base, phys_top, pg_size}
use gcgos.Vm.{kvmmap, pte_normal, pte_ap_rw_el1}
use gcgos.Sched.{trampoline_va}
use gcgos.Process.Create.{proc_mapstacks}

abbrev pte_device : ℕ
pte_device = 0

abbrev pte_ap_ro_el1 : ℕ
pte_ap_ro_el1 = 2 * 2 ^ 6

abbrev pte_ap_ro : ℕ
pte_ap_ro = 3 * 2 ^ 6

abbrev pte_xn : ℕ
pte_xn = 2 ^ 53 + 2 ^ 54

abbrev pl011_base : ℕ
pl011_base = 0xFE201000

abbrev sdcard : ℕ
sdcard = 0xFE300000

abbrev gicd_base : ℕ
gicd_base = 0xFF840000 + 0x1000

-- `kvmmake`, whose value `kvminit` stores in `kernel_pagetable`.
unfoldable pub kvmmake : (etext trampoline : ℕ) → Op Kmem ℕ
kvmmake etext trampoline = do
  table ← kalloc
  kvmmap table gicd_base gicd_base (4 * pg_size) (pte_device + pte_xn + pte_ap_rw_el1)
  kvmmap table pl011_base pl011_base pg_size (pte_device + pte_xn + pte_ap_rw_el1)
  kvmmap table sdcard sdcard pg_size (pte_device + pte_xn + pte_ap_rw_el1)
  kvmmap table kern_base kern_base (etext - kern_base) (pte_normal + pte_ap_ro_el1)
  kvmmap table etext etext (phys_top - etext) (pte_normal + pte_xn)
  kvmmap table trampoline_va trampoline (2 * pg_size) (pte_normal + pte_ap_ro)
  proc_mapstacks table
  pure table

-- The TCR. `TCR_TG1(0b10)` is an int whose sign bit is set, so that the upper half is all ones in the
-- 64-bit value.
abbrev tcr : ℕ
tcr = 2 ^ 64 - 2 ^ 32 + 2 * 2 ^ 30 + 25 * 2 ^ 16 + 25

abbrev mair : ℕ
mair = 0xFF * 2 ^ 8

-- The four values that `kvminithart` gives to `enable_mmu`.
unfoldable pub kvminithart : (kernel_pagetable : ℕ) → ℕ × ℕ × ℕ × ℕ
kvminithart kernel_pagetable = (kernel_pagetable, 0, tcr, mair)
