-- ===== src/Process/Fork.antt =====
-- `fork` (kernel/syscall.c) and `copyproc` (kernel/proc.c): the new process as a whole.
use gcgos.Base.{
  ℕ, zero, suc, ◌+◌, ◌/◌, ◌%◌, ◌^◌, ◌<◌, ◌≡◌, ◌≢◌, refl, ◌∙◌, ap, sym, ◌==◌, inl, inr, none, some,
  Option, arith, ok, write, write_at, write_ne, List, [], ◌∷◌, Bool-cases, length, get_elem?, set,
  length-set, set-set, get_elem?-set_self, get_elem?-set_ne, lt_of_get_elem?, if◌then◌else◌,
}
use gcgos.Kmem.{Kmem, pg_size, pg_round_up}
use gcgos.Kernel.{Kernel, Proc, ProcState, File, Trapframe, increment, put_proc, put_file}
use gcgos.Fd.Alloc.{fd_incref}
use gcgos.Process.Create.{allocproc, copy_mappings, incref_all, copy_slot, copyproc, start_context}
use gcgos.Syscall.Table.{Locals, sys_fork}

-- How often the descriptors name the file.
abbrev pub times : ℕ → List (Option ℕ) → ℕ
times f [] = 0
times f (none ∷ ds) = times f ds
times f (some g ∷ ds) = (if f == g then 1 else 0) + times f ds

-- Every descriptor names an entry of the table.
abbrev pub Open : List (Option ℕ) → List File → Type 0
Open [] files = Unit {0}
Open (none ∷ ds) files = Open ds files
Open (some f ∷ ds) files = (f < length files) × Open ds files

Open-length :
    (ds : List (Option ℕ)) (files files' : List File)
    → length files' ≡ length files
    → Open ds files
    → Open ds files'
Open-length [] files files' e o = tt
Open-length (none ∷ ds) files files' e o = Open-length ds files files' e o
Open-length (some f ∷ ds) files files' e o = (omega (arith, o.0), Open-length ds files files' e o.1)

-- The file with references added.
abbrev pub Shared : (n : ℕ) → (old new : File) → Type 0
Shared n old new =
    (new ≡ record old { ref = new.ref }) × (new.ref % 2 ^ 32 ≡ (old.ref + n) % 2 ^ 32)

get_elem?-below :
    {A : Type 0} (xs : List A) (i : ℕ) → i < length xs → (x : A) × (get_elem? xs i ≡ some x)
get_elem?-below [] i lt = absurd (omega arith)
get_elem?-below (x ∷ xs) zero lt = (x, refl)
get_elem?-below (x ∷ xs) (suc i) lt = get_elem?-below xs i (omega arith)

-- From the one table to the other each file has gained a reference for each of the descriptors.
abbrev pub Counted : List (Option ℕ) → (files files' : List File) → Type 0
Counted ds files files' =
    (f : ℕ) (old : File)
    → get_elem? files f ≡ some old
    → (new : File) × (get_elem? files' f ≡ some new) × Shared (times f ds) old new

abbrev referred : File → File
referred f = record f { ref = increment 32 f.ref }

Shared-referred : (n : ℕ) (old new : File) → Shared n (referred old) new → Shared (1 + n) old new
Shared-referred n old new s = (s.0, omega (arith, s.1))

Shared-zero : (n : ℕ) (old new : File) → Shared n old new → Shared (0 + n) old new
Shared-zero n old new s = (s.0, omega (arith, s.1))

Counted-cons :
    (g : ℕ) (ds : List (Option ℕ)) (files files' : List File) (old_g : File)
    → get_elem? files g ≡ some old_g
    → Counted ds (set files g (referred old_g)) files'
    → Counted (some g ∷ ds) files files'
Counted-cons g ds files files' old_g at_g counts f old at = elim (Bool-cases (f == g)) [
  | inl e ↦
      let here : f ≡ g = ground arith in
      let same : old ≡ old_g = ground (arith, at, at_g, here) in
      let (new, at_new, shared) = counts f (referred old_g) (
        ap (get_elem? (set files g (referred old_g))) here
        ∙ get_elem?-set_self files g _ (lt_of_get_elem? files g at_g)) in
      (new, at_new, rw (e, same) (Shared-referred (times f ds) old_g new shared))
  | inr ne ↦
      let other : g ≢ f = λ e. absurd (ground arith) in
      let (new, at_new, shared) = counts f old (get_elem?-set_ne files g f _ other ∙ at) in
      (new, at_new, rw ne (Shared-zero (times f ds) old new shared))
]

incref_all-cons :
    (g : ℕ) (ds : List (Option ℕ)) (k k2 : Kernel) (old : File)
    → get_elem? k.files g ≡ some old
    → incref_all ds (put_file g (referred old) k) ≡ ok tt k2
    → incref_all (some g ∷ ds) k ≡ ok tt k2
unfolding incref_all fd_incref
incref_all-cons g ds k k2 old at rest = ground (arith, at, rest)

-- `fd_incref` of each descriptor changes the reference counts only.
incref_all_lem :
    (ds : List (Option ℕ)) (k : Kernel)
    → Open ds k.files
    → (files : List File) × (incref_all ds k ≡ ok tt (record k { files = files }))
      × Counted ds k.files files
unfolding incref_all
incref_all_lem [] k all =
    (k.files, refl, λ f old at. (old, at, (refl, ap (λ n. n % 2 ^ 32) (omega arith))))
incref_all_lem (none ∷ ds) k all = incref_all_lem ds k all
incref_all_lem (some g ∷ ds) k all =
    let (old, at) = get_elem?-below k.files g all.0 in
    let k1 : Kernel = put_file g (referred old) k in
    let (files, run, counts) =
      incref_all_lem ds k1 (Open-length ds k.files k1.files (length-set k.files g _) all.1) in
    (
      files,
      incref_all-cons g ds k (record k { files = files }) old at run,
      Counted-cons g ds k.files files old at counts,
    )

module _ (l : Locals) (k k1 : Kernel) (i j : ℕ) (p np : Proc) (m : Kmem)
    (new_slot : allocproc l.trampoline k ≡ ok (some j) k1) (at_i : get_elem? k1.procs i ≡ some p)
    (at_j : get_elem? k1.procs j ≡ some np) (all : Open p.fds k1.files)
    (pages : copy_mappings (pg_round_up p.sz / pg_size + 1) p.pagetable np.pagetable 0 k1.kmem
      ≡ ok tt m) where
  -- The new process, as `copyproc` leaves it.
  abbrev pub child : Proc
  child = record np {
    ppid = p.pid;
    sz = p.sz;
    fds = p.fds;
    ctx = start_context l.forkret np.kstack p.ctx;
  }

  -- The registers that it starts with.
  abbrev pub child_frame : Trapframe
  child_frame = record (k1.frames p.tf) { x = write ((k1.frames p.tf).x) 0 0 }

  -- The process and the trapframes on the way.
  abbrev adopted : Proc
  adopted = record np { ppid = p.pid; sz = p.sz }

  abbrev first_frames : ℕ → Trapframe
  first_frames = write k1.frames np.tf (k1.frames p.tf)

  abbrev last_frames : ℕ → Trapframe
  last_frames =
      write first_frames np.tf
        (record (first_frames np.tf) { x = write ((first_frames np.tf).x) 0 0 })

  abbrev filled : Kernel
  filled = record k1 { procs = set k1.procs j adopted; kmem = m; frames = first_frames }

  abbrev pub forked : List File → Kernel
  forked files = record k1 {
    procs = set k1.procs j child;
    kmem = m;
    frames = last_frames;
    files = files;
  }

  copy_slot_run :
      (files : List File)
      → incref_all p.fds filled ≡ ok tt (record filled { files = files })
      → copy_slot l.forkret i (some j) k1 ≡ ok j (forked files)
  unfolding copy_slot
  copy_slot_run files run =
      let self = get_elem?-set_self k1.procs j adopted (lt_of_get_elem? k1.procs j at_j) in
      ground (arith, at_i, at_j, pages, run, self, set-set k1.procs j adopted child)

  abbrev pub runnable_child : Proc
  runnable_child = record child { state = ProcState.runnable }

  sys_fork_run :
      (files : List File)
      → k.current ≡ some i
      → copy_slot l.forkret i (some j) k1 ≡ ok j (forked files)
      → sys_fork l k ≡ ok np.pid (put_proc j runnable_child (forked files))
  unfolding sys_fork copyproc
  sys_fork_run files on_cpu run =
      let self = get_elem?-set_self k1.procs j child (lt_of_get_elem? k1.procs j at_j) in
      ground (arith, on_cpu, new_slot, run, self)

  -- `fork` by process `i`, where `allocproc` has given slot `j`, the
  -- descriptors name files and the pages can be copied: it returns the new process's pid. The new
  -- process is RUNNABLE, has the caller's pid as its parent and the caller's size and descriptors, and
  -- begins in `forkret` on its own kernel stack; its trapframe is the caller's but for x0, which is 0. Each file
  -- has gained a reference for each descriptor that names it, and is otherwise as it was. The
  -- caller's entry, every other entry and all other trapframes are as `allocproc` left them, and the
  -- memory is as the copy left it.
  pub sys_fork-child :
      k.current ≡ some i
      → (k' : Kernel) × (sys_fork l k ≡ ok np.pid k')
        × (get_elem? k'.procs j ≡ some runnable_child)
        × ((x : ℕ) → x ≢ j → get_elem? k'.procs x ≡ get_elem? k1.procs x)
        × (k'.frames np.tf ≡ child_frame)
        × ((a : ℕ) → a ≢ np.tf → k'.frames a ≡ k1.frames a)
        × Counted p.fds k1.files k'.files
        × (k'.kmem ≡ m)
  sys_fork-child on_cpu =
      let (files, run, counts) = incref_all_lem p.fds filled all in
      let put = set-set k1.procs j child runnable_child in
      (
        put_proc j runnable_child (forked files),
        sys_fork_run files on_cpu (copy_slot_run files run),
        ap (λ ps. get_elem? ps j) put
            ∙ get_elem?-set_self k1.procs j runnable_child (lt_of_get_elem? k1.procs j at_j),
        λ x other.
            ap (λ ps. get_elem? ps x) put
            ∙ get_elem?-set_ne k1.procs j x runnable_child (λ e. other (sym e)),
        write_at first_frames np.tf _ ∙ rw (write_at k1.frames np.tf (k1.frames p.tf)) refl,
        λ a ne. write_ne first_frames np.tf a _ ne ∙ write_ne k1.frames np.tf a _ ne,
        counts,
        refl,
      )
