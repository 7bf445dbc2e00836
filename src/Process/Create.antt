-- ===== src/Process/Create.antt =====
-- `proc_pagetable`, `allocproc`, `userinit`, `proc_mapstacks` and `copyproc` of kernel/proc.c.
use gcgos.Base.{
  ℕ, zero, suc, ◌+◌, ◌*◌, ◌/◌, false, not, Option, none, some, List, [], ◌∷◌, if◌then◌else◌, ◌==◌,
  write, Op, pure, modify, gets, fault, ◌>>=◌, ◌>>◌,
}
use gcgos.Kmem.{Kmem, kalloc, pg_size, pg_round_up}
use gcgos.Vm.{
  walk, mappages, kvmmap, uvmcreat, pte_normal, pte_ap_rw_el1, pte_to_pa, pte_flags, is_valid,
}
use gcgos.Kernel.{ProcState, Proc, Context, Kernel, is_unused, on_kmem, proc_at, put_proc, nproc}
use gcgos.Sched.{allocpid, trampoline_va, trapframe_va, kstack_of}
use gcgos.Fd.Alloc.{fd_incref}

-- The loop of `proc_mapstacks`, from process `i` with `left` to go.
mapstacks_from : (left i table : ℕ) → Op Kmem (Unit {0})
mapstacks_from zero i table = pure tt
mapstacks_from (suc left) i table = do
  pa ← kalloc
  kvmmap table (kstack_of i) pa pg_size (pte_normal + pte_ap_rw_el1)
  mapstacks_from left (i + 1) table

unfoldable pub proc_mapstacks : ℕ → Op Kmem (Unit {0})
unfolding mapstacks_from
proc_mapstacks table = mapstacks_from nproc 0 table

-- `proc_pagetable`: the table and `p->tf`. The results of `mappages` are not looked at.
unfoldable pub proc_pagetable : (trampoline : ℕ) → Op Kmem (ℕ × ℕ)
proc_pagetable trampoline = do
  table ← uvmcreat
  mappages table trampoline_va trampoline (2 * pg_size) (pte_normal + pte_ap_rw_el1) >>= λ _.
      pure tt
  tf ← kalloc
  mappages table trapframe_va tf pg_size (pte_normal + pte_ap_rw_el1) >>= λ _. pure tt
  pure (table, tf)

-- The loop of `allocproc`.
first_unused : ℕ → List Proc → Option ℕ
first_unused i [] = none
first_unused i (p ∷ ps) =
    let rest = first_unused (i + 1) ps in if is_unused p.state then some i else rest

-- What `allocproc` does to the slot found; the slot stays UNUSED.
alloc_slot : (trampoline : ℕ) → Option ℕ → Op Kernel (Option ℕ)
alloc_slot trampoline none = pure none
alloc_slot trampoline (some i) = do
  pid ← allocpid
  (table, tf) ← on_kmem (proc_pagetable trampoline)
  p ← proc_at i
  modify (put_proc i (record p { pid = pid; pagetable = table; tf = tf }))
  pure (some i)

-- `allocproc`; `none` is the result 0.
unfoldable pub allocproc : (trampoline : ℕ) → Op Kernel (Option ℕ)
unfolding first_unused alloc_slot
allocproc trampoline = do ps ← gets (λ k. k.procs); alloc_slot trampoline (first_unused 0 ps)

-- The context in which a new process begins.
abbrev pub start_context : (forkret kstack : ℕ) → Context → Context
start_context forkret kstack c = record c { sp = kstack + pg_size; x30 = forkret }

unfoldable pub user_slot : (forkret : ℕ) → Option ℕ → Op Kernel (Unit {0})
user_slot forkret none = fault
user_slot forkret (some i) = do
  p ← proc_at i
  modify (λ k.
      record (put_proc i
        (record p { ctx = start_context forkret p.kstack p.ctx; state = ProcState.runnable }) k) {
          initproc = some i;
        })

unfoldable pub userinit : (trampoline forkret : ℕ) → Op Kernel (Unit {0})
unfolding user_slot
userinit trampoline forkret = do i ← allocproc trampoline; user_slot forkret i

-- The copy of a page, a word at a time.
unfoldable pub copy_page : (left src dst : ℕ) → (ℕ → ℕ) → ℕ → ℕ
copy_page zero src dst w = w
copy_page (suc left) src dst w = copy_page left (src + 8) (dst + 8) (write w dst (w src))

-- The page at `va` of `copyproc`: what is mapped in `from` is copied into a new page of `to`.
unfoldable pub copy_mapping : (from to va : ℕ) → Op Kmem (Unit {0})
copy_mapping from to va = do
  at ← walk from va false
  pte ← gets (λ k. k.word at)
  if at == 0 then pure tt else if not (is_valid pte) then pure tt else (do
    npa ← kalloc
    if npa == 0
        then fault
        else modify (λ k. record k { word = copy_page 512 (pte_to_pa pte) npa k.word })
    mappages to va npa pg_size (pte_flags pte) >>= λ _. pure tt)

-- The loop of `copyproc` over the pages, from `va` with `left` to go.
unfoldable pub copy_mappings : (left from to va : ℕ) → Op Kmem (Unit {0})
copy_mappings zero from to va = pure tt
copy_mappings (suc left) from to va =
    copy_mapping from to va >> copy_mappings left from to (va + pg_size)

-- The references of the copied descriptors.
unfoldable pub incref_all : List (Option ℕ) → Op Kernel (Unit {0})
incref_all [] = pure tt
incref_all (none ∷ ds) = incref_all ds
incref_all (some f ∷ ds) = fd_incref f >> incref_all ds

-- `copyproc` behind `allocproc`, which gives slot `j` for the copy of process `i`.
unfoldable pub copy_slot : (forkret i : ℕ) → Option ℕ → Op Kernel ℕ
copy_slot forkret i none = fault
copy_slot forkret i (some j) = do
  p ← proc_at i
  np ← proc_at j
  modify (put_proc j (record np { ppid = p.pid; sz = p.sz }))
  on_kmem (copy_mappings (pg_round_up p.sz / pg_size + 1) p.pagetable np.pagetable 0)
  modify (λ k. record k { frames = write k.frames np.tf (k.frames p.tf) })
  incref_all p.fds
  modify (λ k. record k {
    frames = write k.frames np.tf (record (k.frames np.tf) { x = write ((k.frames np.tf).x) 0 0 });
  })
  np ← proc_at j
  modify (put_proc j (record np { fds = p.fds; ctx = start_context forkret np.kstack p.ctx }))
  pure j

-- `copyproc` of process `i`: the index of the new process.
unfoldable pub copyproc : (trampoline forkret i : ℕ) → Op Kernel ℕ
unfolding copy_slot
copyproc trampoline forkret i = do j ← allocproc trampoline; copy_slot forkret i j
