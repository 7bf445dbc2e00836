-- ===== src/Exec/Entry.antt =====
-- `get_entry` of kernel/elf.c, which nothing in the kernel calls: a program that the linker has put into
-- the kernel, at `start` in memory, is copied into one page for the first process.
use gcgos.Base.{
  ℕ, zero, suc, ◌+◌, ◌-◌, ◌*◌, ◌%◌, ◌^◌, not, Option, none, some, if◌then◌else◌, ◌==◌, write, get16,
  get32, load8, Bytes, Op, pure, modify, gets, stop, fault, Panic, ◌>>=◌, ◌>>◌,
}
use gcgos.Kmem.{kalloc, pg_size}
use gcgos.Vm.{mappages, pte_ap_rw}
use gcgos.Kernel.{Kernel, on_kmem, proc_at}
use gcgos.Exec.Load.{elf_magic, elf_entry, elf_phoff, elf_phnum, ph_off, ph_vaddr, ph_filesz}

abbrev elf_phentsize : Bytes → ℕ
elf_phentsize m = get16 m 54

-- The bytes of the image.
abbrev image_at : (start : ℕ) → (ℕ → ℕ) → Bytes
image_at start w o = load8 w (start + o)

-- Eight bytes as a uint64, at any address.
abbrev load64 : (ℕ → ℕ) → ℕ → ℕ
load64 w a = get32 (λ o. load8 w (a + o)) 0 + 2 ^ 32 * get32 (λ o. load8 w (a + o)) 4

-- `pa[ph->vaddr + s] = ucd[s]`, from `s` with `left` to go. Both are arrays of uint64, although the
-- bounds count bytes; `filesz` is taken to be below 2^31, the range of `s`.
unfoldable pub copy_words : (left s vaddr pa ucd : ℕ) → (ℕ → ℕ) → ℕ → ℕ
copy_words zero s vaddr pa ucd w = w
copy_words (suc left) s vaddr pa ucd w =
    copy_words left (s + 1) vaddr pa ucd
      (write w ((pa + 8 * (vaddr + s)) % 2 ^ 64) (load64 w ((ucd + 8 * s) % 2 ^ 64)))

-- The loop over the program headers, at `i` with `left` to go. The segment's place in the image has
-- `i * phentsize` added to its offset, and its type is not looked at. A header is read from memory as
-- the copies before it have left it; the bounds of the two loops are taken once.
unfoldable pub copy_segments : (left i start pa : ℕ) → (ℕ → ℕ) → ℕ → ℕ
copy_segments zero i start pa w = w
copy_segments (suc left) i start pa w =
    let m = image_at start w in
    let ph = elf_phoff m + 56 * i in
    let ucd = start + i * elf_phentsize m + ph_off m ph in
    copy_segments left (i + 1) start pa (copy_words (ph_filesz m ph) 0 (ph_vaddr m ph) pa ucd w)

-- The end of `get_entry`, for `initproc`; the result is -1 as a uint64.
unfoldable pub enter_image : (start pa : ℕ) → Option ℕ → Op Kernel ℕ
enter_image start pa none = fault
enter_image start pa (some i) = do
  entry ← gets (λ k. elf_entry (image_at start k.kmem.word))
  p ← proc_at i
  on_kmem (mappages p.pagetable entry pa pg_size pte_ap_rw) >>= λ _. pure tt
  modify (λ k. record k {
    frames = write k.frames p.tf (record (k.frames p.tf) { elr_el1 = entry; sp_el0 = pg_size });
  })
  pure (2 ^ 64 - 1)

-- `get_entry`. Without a free page the copy goes through NULL.
unfoldable pub get_entry : (start : ℕ) → Op Kernel ℕ
unfolding copy_segments enter_image
get_entry start = do
  m ← gets (λ k. image_at start k.kmem.word)
  if not (get32 m 0 == elf_magic) then stop Panic.get_entry else pure tt
  pa ← on_kmem kalloc
  if pa == 0
      then fault
      else modify (λ k. record k {
        kmem = record k.kmem { word = copy_segments (elf_phnum m) 0 start pa k.kmem.word };
      })
  init ← gets (λ k. k.initproc)
  enter_image start pa init
