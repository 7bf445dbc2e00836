-- ===== src/Syscall/Table.antt =====
-- The system calls on processes, and `syscall` itself (kernel/syscall.c). The locals of a call lie
-- at addresses that `Locals` gives, with the linker's symbols and what C finds in unset variables.
use gcgos.Base.{
  ℕ, zero, suc, ◌+◌, ◌%◌, ◌^◌, Option, none, some, List, [], ◌∷◌, if◌then◌else◌, ◌==◌, write,
  store8, Op, pure, modify, gets, stop, fault, Panic, ◌>>=◌, ◌>>◌,
}
use gcgos.Kmem.{kalloc}
use gcgos.Kernel.{ProcState, Kernel, on_kmem, proc_at, put_proc, myproc}
use gcgos.Sched.{proc_kill}
use gcgos.Console.{consputc, rounds}
use gcgos.Process.Create.{copyproc}
use gcgos.Process.Finish.{proc_exit, proc_wait}
use gcgos.Exec.Load.{kexec}
use gcgos.Syscall.Args.{argraw, sign_extend, argaddr, fetchaddr, text_at, argname}
use gcgos.Syscall.Files.{sys_pipe, sys_write, sys_read, sys_close, sys_open, sys_mknod, sys_unlink}

pub record Locals : Type 0 where
  pub trampoline : ℕ
  pub forkret : ℕ
  pub name : ℕ  -- the arrays of DIRSIZ bytes
  pub buf : ℕ  -- `buf` and `args`, of 512 bytes, and `buf` of `sys_cons_puts`, of 256
  pub junk_fd : ℕ
  pub junk_pid : ℕ

unfoldable pub sys_fork : Locals → Op Kernel ℕ
unfolding myproc
sys_fork l = do
  i ← myproc
  j ← copyproc l.trampoline l.forkret i
  np ← proc_at j
  modify (put_proc j (record np { state = ProcState.runnable }))
  pure np.pid

unfoldable pub sys_exit : Locals → Op Kernel ℕ
sys_exit l = do proc_exit l.junk_fd; pure 0

unfoldable pub sys_wait : Locals → Op Kernel ℕ
sys_wait l = proc_wait l.junk_pid

unfoldable pub sys_cons_putc : Op Kernel ℕ
sys_cons_putc = do c ← argraw 0; modify (consputc c); pure 0

unfoldable pub sys_kill : Op Kernel ℕ
sys_kill = do pid ← argraw 0; proc_kill pid >>= λ _. pure 0

unfoldable pub sys_panic : Op Kernel ℕ
sys_panic = pure 0

-- `buf[x] = 0`
clear_bytes : (left a : ℕ) → (ℕ → ℕ) → ℕ → ℕ
clear_bytes zero a w = w
clear_bytes (suc left) a w = clear_bytes left (a + 1) (store8 w a 0)

-- `printf("%s", buf)`
put_text : Option (List ℕ) → Op Kernel (Unit {0})
put_text none = fault
put_text (some []) = pure tt
put_text (some (c ∷ s)) = modify (consputc c) >> put_text (some s)

unfoldable pub sys_cons_puts : Locals → Op Kernel ℕ
unfolding clear_bytes put_text
sys_cons_puts l = do
  modify (λ k. record k { kmem = record k.kmem { word = clear_bytes 256 l.buf k.kmem.word } })
  n ← argraw 1
  argaddr 0 l.buf 256 (rounds n)
  s ← gets (λ k. text_at 256 l.buf k.kmem.word)
  put_text s
  pure 0

-- The loop of `sys_exec` over the user's pointers: `argv[i]` with `left` entries of `argv` to go.
fetch_args : (left a : ℕ) → Op Kernel (List ℕ)
fetch_args zero a = fault
fetch_args (suc left) a = do
  uva ← gets (λ k. k.kmem.word a)
  if uva == 0 then pure [] else (do
    page ← on_kmem kalloc
    fetchaddr uva page 4096
    rest ← fetch_args left (a + 8)
    pure (page ∷ rest))

-- The strings that `kexec` reads from the pages; a page with no NUL is read behind its end.
texts : List ℕ → (ℕ → ℕ) → Option (List (List ℕ))
texts [] w = some []
texts (p ∷ ps) w =
    let rest = texts ps w in
    elim (text_at 4096 p w) [
      | none ↦ none
      | some s ↦ elim rest [ none ↦ none | some ss ↦ some (s ∷ ss) ]
    ]

exec_texts : Locals → (name : List ℕ) → Option (List (List ℕ)) → Op Kernel ℕ
exec_texts l name none = fault
exec_texts l name (some args) = kexec l.trampoline name args >> pure 0

unfoldable pub sys_exec : Locals → Op Kernel ℕ
unfolding fetch_args texts exec_texts
sys_exec l = do
  name ← argname 0 l.name
  argaddr 1 l.buf 512 512
  pages ← fetch_args 32 l.buf
  w ← gets (λ k. k.kmem.word)
  exec_texts l name (texts pages w)

-- The `switch` of `syscall`.
unfoldable pub dispatch_call : Locals → (call_num : ℕ) → Op Kernel ℕ
dispatch_call l n =
    if n == 1
    then sys_fork l
    else if n == 2
    then sys_exit l
    else if n == 3
    then sys_wait l
    else if n == 4
    then sys_cons_putc
    else if n == 5
    then sys_pipe
    else if n == 6
    then sys_write l.buf
    else if n == 7
    then sys_read
    else if n == 8
    then sys_close
    else if n == 10
    then sys_kill
    else if n == 11
    then sys_panic
    else if n == 12
    then sys_cons_puts l
    else if n == 13
    then sys_exec l
    else if n == 14
    then sys_open l.name
    else if n == 15
    then sys_mknod l.name
    else if n == 16
    then sys_unlink l.name
    else stop Panic.syscall

-- `cp->tf->x0 = ret`, through the trapframe that process `i` has by then.
unfoldable pub return_value : (i ret : ℕ) → Op Kernel (Unit {0})
return_value i ret = do
  p ← proc_at i
  modify (λ k. record k {
    frames =
        write k.frames p.tf
          (record (k.frames p.tf) { x = write ((k.frames p.tf).x) 0 (sign_extend ret) });
  })

-- `syscall`: the number is x8 as an int.
unfoldable pub syscall : Locals → Op Kernel (Unit {0})
unfolding myproc dispatch_call
syscall l = do
  i ← myproc
  p ← proc_at i
  n ← gets (λ k. (k.frames p.tf).x 8 % 2 ^ 32)
  ret ← dispatch_call l n
  return_value i ret
