-- ===== src/Syscall/Args.antt =====
-- Arguments of a system call (kernel/syscall.c): registers of the trapframe, and the user's memory
-- through its page table. `argraw` gives an int, so an address is cut to 32 bits and sign-extended.
use gcgos.Base.{
  ℕ, zero, suc, ◌+◌, ◌-◌, ◌%◌, ◌^◌, Option, none, some, List, [], ◌∷◌, if◌then◌else◌, ◌==◌, leb,
  ltb, load8, store8, Op, pure, modify, gets, fault, ◌>>=◌, ◌>>◌,
}
use gcgos.Kmem.{pg_round_down}
use gcgos.Vm.{walkaddr}
use gcgos.Kernel.{Kernel, on_kmem, proc_at, myproc}

-- `argraw`, as a bit pattern of 32 bits.
unfoldable pub argraw : ℕ → Op Kernel ℕ
unfolding myproc
argraw n = do
  i ← myproc
  p ← proc_at i
  if leb n 7 then gets (λ k. (k.frames p.tf).x n % 2 ^ 32) else pure (2 ^ 32 - 1)

-- The int as a uint64.
abbrev pub sign_extend : ℕ → ℕ
sign_extend w = if ltb w (2 ^ 31) then w else w + 2 ^ 64 - 2 ^ 32

-- The kernel's address of the user's byte at `uva`, as every call computes it.
unfoldable pub user_address : (uva : ℕ) → Op Kernel ℕ
unfolding myproc
user_address uva = do
  i ← myproc
  p ← proc_at i
  pa ← on_kmem (walkaddr p.pagetable (pg_round_down uva))
  pure (pa + uva - pg_round_down uva)

-- `while (max-- > 0) *d++ = *s++`
unfoldable pub copy_bytes : (left src dst : ℕ) → (ℕ → ℕ) → ℕ → ℕ
copy_bytes zero src dst w = w
copy_bytes (suc left) src dst w = copy_bytes left (src + 1) (dst + 1) (store8 w dst (load8 w src))

-- `argaddr` into the `size` bytes at `dst`; more is an overflow of the array.
unfoldable pub argaddr : (n dst size max : ℕ) → Op Kernel (Unit {0})
unfolding user_address copy_bytes argraw
argaddr n dst size max = do
  r ← argraw n
  src ← user_address (sign_extend r)
  if ltb size max
      then fault
      else modify
          (λ k. record k { kmem = record k.kmem { word = copy_bytes max src dst k.kmem.word } })

-- `while (*s && size-- > 0) *d++ = *s++`: no NUL is written behind the copy.
unfoldable pub copy_text : (left src dst : ℕ) → (ℕ → ℕ) → ℕ → ℕ
copy_text zero src dst w = w
copy_text (suc left) src dst w =
    let rest = copy_text left (src + 1) (dst + 1) (store8 w dst (load8 w src)) in
    if load8 w src == 0 then w else rest

-- `fetchaddr`
unfoldable pub fetchaddr : (uva dst size : ℕ) → Op Kernel (Unit {0})
unfolding user_address copy_text
fetchaddr uva dst size = do
  src ← user_address uva
  modify (λ k. record k { kmem = record k.kmem { word = copy_text size src dst k.kmem.word } })

-- The text at an address, `none` when no NUL ends it within the bytes given.
unfoldable pub text_at : (left a : ℕ) → (ℕ → ℕ) → Option (List ℕ)
text_at zero a w = none
text_at (suc left) a w =
    let rest = text_at left (a + 1) w in
    if load8 w a == 0 then some [] else elim rest [ none ↦ none | some s ↦ some (load8 w a ∷ s) ]

-- A name of DIRSIZ bytes from the user, in the array at `dst`. Without a NUL in it the array is
-- read behind its end.
unfoldable pub argname : (n dst : ℕ) → Op Kernel (List ℕ)
unfolding argaddr text_at
argname n dst = do
  argaddr n dst 14 14
  s ← gets (λ k. text_at 14 dst k.kmem.word)
  elim s [ none ↦ fault | some name ↦ pure name ]
