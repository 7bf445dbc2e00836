-- ===== src/Vm.antt =====
-- kernel/vm.c over the memory of `Kmem`: three levels of tables of 512 words, each in a page. The
-- pages of `kalloc` are not cleared. A table at address 0 is memory like any other, also where 0 is the
-- NULL of an `uvmcreat` that has failed. `kvmmake`, which calls kernel/proc.c, stands in
-- Process/KernelTable.
pub mod Bits
pub mod Walk
pub mod Fresh
pub mod Tests
use Prim.Native.Nat.{bit_or}
use gcgos.Base.{
  ℕ, zero, suc, ◌+◌, ◌-◌, ◌*◌, ◌/◌, ◌%◌, ◌^◌, Bool, true, false, not, Option, none, some,
  if◌then◌else◌, ◌==◌, leb, write, Op, pure, modify, gets, stop, fault, Panic, ◌>>=◌, ◌>>◌,
}
use gcgos.Kmem.{Kmem, kalloc, pg_size}

-- include/arm.h
abbrev pub max_va : ℕ
max_va = 2 ^ 38

abbrev pub pte_valid : ℕ
pte_valid = 1

abbrev pub pte_table : ℕ
pte_table = 2

abbrev pub pte_v : ℕ
pte_v = 3

abbrev pub pte_af : ℕ
pte_af = 1024

abbrev pub pte_normal : ℕ
pte_normal = 4

abbrev pub pte_ap_rw_el1 : ℕ
pte_ap_rw_el1 = 0

abbrev pub pte_ap_rw : ℕ
pte_ap_rw = 64

-- PX, PA2PTE, PTE2PA and PTE_FLAGS
abbrev pub px : (level va : ℕ) → ℕ
px level va = va / 2 ^ (12 + 9 * level) % 512

abbrev pub pa_to_pte : ℕ → ℕ
pa_to_pte pa = pa / 4096 * 4096

abbrev pub pte_to_pa : ℕ → ℕ
pte_to_pa pte = pte / 4096 % 2 ^ 36 * 4096

abbrev pub pte_flags : ℕ → ℕ
pte_flags pte = pte % 1024

-- `(*pte & PTE_VALID) && (*pte & PTE_TABLE)`
abbrev pub is_table : ℕ → Bool
is_table pte = pte % 4 == 3

-- `*pte & PTE_V`, of two bits
abbrev pub is_valid : ℕ → Bool
is_valid pte = not (pte % 4 == 0)

-- A table made for the word at `at`, or `none` where `kalloc` gives NULL.
new_table : (at : ℕ) → Op Kmem (Option ℕ)
new_table at = do
  t ← kalloc
  if t == 0
      then pure none
      else (modify (λ k. record k { word = write k.word at (pa_to_pte t + pte_valid + pte_table) })
          >> pure (some t))

-- The table that the word at `at` points to, whatever its address, or a new one; `none` where `walk`
-- gives up.
unfoldable pub next_table : (at : ℕ) → (alloc : Bool) → Op Kmem (Option ℕ)
unfolding new_table
next_table at alloc = do
  pte ← gets (λ k. k.word at)
  if is_table pte then pure (some (pte_to_pa pte)) else if alloc then new_table at else pure none

-- The loop of `walk`, from the given level down to 0; the result 0 is NULL.
unfoldable pub walk_from : (level table va : ℕ) → (alloc : Bool) → Op Kmem ℕ
unfolding next_table
walk_from zero table va alloc = pure (table + 8 * px 0 va)
walk_from (suc level) table va alloc = do
  t ← next_table (table + 8 * px (suc level) va) alloc
  elim t [ none ↦ pure 0 | some t ↦ walk_from level t va alloc ]

unfoldable pub walk : (table va : ℕ) → (alloc : Bool) → Op Kmem ℕ
unfolding walk_from
walk table va alloc = if leb max_va va then stop Panic.walk else walk_from 2 table va alloc

-- `*pte = PA2PTE(pa) | perm | PTE_AF | PTE_V`
abbrev pub leaf : (pa perm : ℕ) → ℕ
leaf pa perm = bit_or (bit_or (bit_or (pa_to_pte pa) perm) pte_af) pte_v

-- One round of the loop of `mappages`: true when the page is mapped, false when `walk` gives NULL.
unfoldable pub map_page : (table a pa perm : ℕ) → Op Kmem Bool
map_page table a pa perm = do
  at ← walk table a true
  pte ← gets (λ k. k.word at)
  if at == 0
      then pure false
      else if is_valid pte
      then stop Panic.mappages_remap
      else (modify (λ k. record k { word = write k.word at (leaf pa perm) }) >> pure true)

-- The loop of `mappages`, with `left` pages behind the one at `a`.
map_from : (left table a pa perm : ℕ) → Op Kmem Bool
unfolding map_page
map_from zero table a pa perm = map_page table a pa perm
map_from (suc left) table a pa perm = do
  done ← map_page table a pa perm
  if done then map_from left table (a + pg_size) (pa + pg_size) perm else pure false

-- `mappages`: true for the result 0, false for -1.
unfoldable pub mappages : (table va pa size perm : ℕ) → Op Kmem Bool
unfolding map_from
mappages table va pa size perm =
    if not (va % pg_size == 0)
    then stop Panic.mappages_va
    else if not (size % pg_size == 0)
    then stop Panic.mappages_size
    else if size == 0
    then stop Panic.mappages_zero
    else map_from (size / pg_size - 1) table va pa perm

unfoldable pub kvmmap : (table va pa sz perm : ℕ) → Op Kmem (Unit {0})
unfolding mappages
kvmmap table va pa sz perm = do
  done ← mappages table va pa sz perm
  if done then pure tt else stop Panic.kvmmap

-- `walkaddr`, which reads through the pointer that `walk` gives.
unfoldable pub walkaddr : (table va : ℕ) → Op Kmem ℕ
unfolding walk
walkaddr table va = do
  at ← walk table va false
  if at == 0 then fault else gets (λ k. pte_to_pa (k.word at))

-- `uvmcreat`
unfoldable pub uvmcreat : Op Kmem ℕ
uvmcreat = kalloc
