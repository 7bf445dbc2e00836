-- ===== src/Exec/Load.antt =====
-- `kexec`: the program's segments and the process that runs it.
use gcgos.Base.{
  ℕ, zero, suc, ◌+◌, ◌-◌, ◌*◌, ◌/◌, ◌^◌, not, Option, none, some, List, if◌then◌else◌, ◌==◌, ltb,
  length, write, get16, get32, Bytes, Op, pure, modify, gets, stop, Panic, ◌>>=◌, ◌>>◌,
}
use gcgos.Kmem.{kalloc, pg_size, pg_round_up}
use gcgos.Vm.{mappages, pte_ap_rw}
use gcgos.Kernel.{ProcState, Trapframe, Kernel, on_kmem, proc_at, put_proc, inode_at, myproc}
use gcgos.Fs.Bio.{buf_at, bread, brelse}
use gcgos.Fs.Layout.{ndirect}
use gcgos.Fs.Rw.{copy_out}
use gcgos.Fs.Dirs.{namei}
use gcgos.Process.Create.{proc_pagetable}
use gcgos.Exec.Stack.{build_stack}

-- include/elf.h
abbrev pub get64 : Bytes → ℕ → ℕ
get64 m o = get32 m o + 2 ^ 32 * get32 m (o + 4)

abbrev pub elf_magic : ℕ
elf_magic = 0x464c457f

abbrev pub elf_prog_load : ℕ
elf_prog_load = 1

abbrev pub elf_entry : Bytes → ℕ
elf_entry m = get64 m 24

abbrev pub elf_phoff : Bytes → ℕ
elf_phoff m = get64 m 32

abbrev pub elf_phnum : Bytes → ℕ
elf_phnum m = get16 m 56

-- `struct proghdr` at offset `o`
abbrev pub ph_type : Bytes → ℕ → ℕ
ph_type m o = get32 m o

abbrev pub ph_off : Bytes → ℕ → ℕ
ph_off m o = get64 m (o + 8)

abbrev pub ph_vaddr : Bytes → ℕ → ℕ
ph_vaddr m o = get64 m (o + 16)

abbrev pub ph_filesz : Bytes → ℕ → ℕ
ph_filesz m o = get64 m (o + 32)

-- The buffers with the file's sector `i`: `data_buf` and `sec_buf`.
file_sector : (dp i : ℕ) → Op Kernel (ℕ × ℕ)
file_sector dp i = do
  ip ← inode_at dp
  if ltb i ndirect then (do b ← bread (ip.addrs i); pure (b, b)) else (do
    b ← bread (ip.addrs ndirect)
    m ← buf_at b
    if get32 m.bytes (4 * (i - ndirect)) == 0
        then stop Panic.kexec
        else (do c ← bread (get32 m.bytes (4 * (i - ndirect))); pure (b, c)))

-- The loop over the sectors of a segment, from sector `i` with `left` to go.
load_sectors : (left dp i j pa : ℕ) → Op Kernel (Unit {0})
unfolding file_sector
load_sectors zero dp i j pa = pure tt
load_sectors (suc left) dp i j pa = do
  (b, c) ← file_sector dp i
  m ← buf_at c
  modify (λ k. record k {
    kmem = record k.kmem { word = copy_out 512 0 (pa + j * 512) m.bytes k.kmem.word };
  })
  brelse b
  brelse c
  load_sectors left dp (i + 1) (j + 1) pa

-- A segment of type LOAD at offset `o` of the header's sector: one page, mapped at its address.
load_segment : (dp table o : ℕ) → Bytes → Op Kernel (Unit {0})
unfolding load_sectors
load_segment dp table o m = do
  pa ← on_kmem kalloc
  load_sectors ((ph_off m o + ph_filesz m o) / 512 + 1 - ph_off m o / 512) dp (ph_off m o / 512) 0
      pa
  on_kmem (mappages table (ph_vaddr m o) pa pg_size pte_ap_rw) >>= λ _. pure tt

-- The loop over the program headers, from offset `o` with `left` to go; the result is `sz`.
load_segments : (left dp table o sz : ℕ) → Bytes → Op Kernel ℕ
unfolding load_segment
load_segments zero dp table o sz m = pure sz
load_segments (suc left) dp table o sz m =
    if ph_type m o == elf_prog_load
    then (load_segment dp table o m >> load_segments left dp table (o + 56) (ph_vaddr m o) m)
    else load_segments left dp table (o + 56) sz m

-- The registers of the program's first run.
abbrev pub start_frame : (argc sp entry : ℕ) → Trapframe → Trapframe
start_frame argc sp entry f = record f {
  sp_el0 = sp;
  x = write (write f.x 0 argc) 1 sp;
  elr_el1 = entry;
}

-- `kexec` with the inode found. The header's buffer is kept to the end, and the header with it.
exec_inode : (trampoline : ℕ) → List (List ℕ) → Option ℕ → Op Kernel ℕ
unfolding load_segments myproc
exec_inode trampoline args none = stop Panic.kexec
exec_inode trampoline args (some dp) = do
  ip ← inode_at dp
  b ← bread (ip.addrs 0)
  m ← buf_at b
  if not (get32 m.bytes 0 == elf_magic) then stop Panic.kexec else pure tt
  (table, tf) ← on_kmem (proc_pagetable trampoline)
  sz ← load_segments (elf_phnum m.bytes) dp table (elf_phoff m.bytes) 0 m.bytes
  let top = pg_round_up sz + pg_size
  sp ← on_kmem kalloc
  w ← gets (λ k. k.kmem.word)
  let stack = build_stack sp top args w
  modify (λ k. record k { kmem = record k.kmem { word = stack.word } })
  on_kmem (mappages table top sp pg_size pte_ap_rw) >>= λ _. pure tt
  i ← myproc
  p ← proc_at i
  modify
      (put_proc i (record p { pagetable = table; tf = tf; sz = top; state = ProcState.runnable }))
  modify (λ k. record k {
    frames =
        write k.frames tf
          (start_frame (length args) stack.align_sz (elf_entry m.bytes) (k.frames tf));
  })
  brelse b
  pure 0

-- `kexec`
unfoldable pub kexec : (trampoline : ℕ) → (path : List ℕ) → (args : List (List ℕ)) → Op Kernel ℕ
unfolding exec_inode
kexec trampoline path args = do dp ← namei path; exec_inode trampoline args dp
