-- ===== src/Process/Tests.antt =====
-- The theorems about kernel/proc.c's process lifecycle on the small kernel.
use gcgos.Base.{
  none, length, Outcome, ◌+◌, ◌*◌, ◌≢◌, write, among, ℕ, ◌<◌, [], ◌∷◌, ok, ◌≡◌, refl, false, some,
  arith, Option, List, get_elem?, replicate,
}
use gcgos.Sched.{allocpid}
use gcgos.Kmem.{kalloc, Kmem, pg_size}
use gcgos.Vm.{uvmcreat, mappages, walk, walkaddr, pte_flags}
use gcgos.Process.Create.{
  start_context, proc_pagetable, copy_mappings, copy_page, allocproc, copy_mapping,
}
use gcgos.Process.PageCopy.{Round, copy_mapping-page}
use gcgos.Kmem.FreeList.{FreeList, nil, cons}
use gcgos.Kmem.Tests.{page-IsPage}
use gcgos.Kernel.{ProcState, Kernel, Proc, proc_slot}
use gcgos.Samples.{sample_context, zeros, sample, sample_page, sample_kmem, process, first_process}
use gcgos.Process.Fork.{Counted, sys_fork-child}
use gcgos.Syscall.Table.{Locals, sys_fork}

-- A process with a page at 0, whose tables are at 4096, 8192 and 12288; and another, whose tables lead
-- to no page.
abbrev pub forking : Kmem
forking = record sample_kmem {
  word =
      write (write (write (write (write zeros 4096 8195) 8192 12291) 12288 16451) 20480 24579) 24576
        28675;
  freelist = sample_page;
}

forking-Round : Round forking 4096 20480 0 8192 12288 24576 28672 16384 sample_page []
forking-Round = record {
  free = cons page-IsPage refl nil;
  source = record {
    top = refl;
    top_at = refl;
    top_set = omega arith;
    mid = refl;
    mid_at = refl;
    mid_set = omega arith;
  };
  target = record {
    top = refl;
    top_at = refl;
    top_set = omega arith;
    mid = refl;
    mid_at = refl;
    mid_set = omega arith;
  };
  is_page = refl;
  page = refl;
  unmapped = refl;
  own_leaf = (refl, omega arith, refl);
  apart = λ p on. (ground (arith, on), ground (arith, on), ground (arith, on));
}

copy_mapping-page_example :
    (k' : Kmem) × (copy_mapping 4096 20480 0 forking ≡ ok tt k')
    × (walkaddr 20480 0 k' ≡ ok sample_page k')
    × (walkaddr 4096 0 k' ≡ ok 16384 k')
    × ((i : ℕ) → i < 512 → k'.word (sample_page + 8 * i) ≡ forking.word (16384 + 8 * i))
    × (pte_flags (k'.word 28672) ≡ 67)
    × ((a : ℕ) → among sample_page pg_size a ≡ false → a ≢ 28672 → k'.word a ≡ forking.word a)
    × FreeList k' []
copy_mapping-page_example =
    copy_mapping-page forking 4096 20480 0 8192 12288 24576 28672 16384 sample_page [] forking-Round
      (omega arith) refl

-- `fork` by a process with that page at 0, which has a file open; seven pages are free.
abbrev page_number : ℕ → ℕ
page_number n = sample_page + 4096 * n

abbrev seven_pages : Kmem
seven_pages = record forking {
  word =
      write
        (write
          (write
            (write
              (write (write forking.word (page_number 0) (page_number 1)) (page_number 1)
                (page_number 2))
              (page_number 2) (page_number 3))
            (page_number 3) (page_number 4))
          (page_number 4) (page_number 5))
        (page_number 5) (page_number 6);
}

abbrev pub parent : Proc
parent = record first_process { pagetable = 4096 }

abbrev pub forkable : Kernel
forkable = record sample { kmem = seven_pages; procs = parent ∷ process 0 0 ProcState.unused ∷ [] }

state_of : {S A : Type 0} → Outcome S A → S → S
state_of (ok a s) old = s
state_of _ old = old

pub allocated : Kernel
unfolding state_of
allocated = state_of (allocproc 8192 forkable) forkable

pub allocated_lem : allocproc 8192 forkable ≡ ok (some 1) allocated
unfolding allocated allocproc allocpid proc_pagetable uvmcreat kalloc mappages walk
allocated_lem = refl

abbrev pub new_process : Proc
new_process = record (process 3 0 ProcState.unused) {
  pagetable = page_number 0;
  tf = page_number 3;
}

pub new_process_at : get_elem? allocated.procs 1 ≡ some new_process
unfolding allocated allocproc allocpid proc_pagetable uvmcreat kalloc mappages walk
new_process_at = refl

pub parent_at : get_elem? allocated.procs 0 ≡ some parent
unfolding allocated allocproc allocpid proc_pagetable uvmcreat kalloc mappages walk
parent_at = refl

pub filled_pages : Kmem
unfolding state_of
filled_pages = state_of (copy_mappings 1 4096 (page_number 0) 0 allocated.kmem) allocated.kmem

pub filled_pages_lem : copy_mappings 1 4096 (page_number 0) 0 allocated.kmem ≡ ok tt filled_pages
unfolding filled_pages copy_mappings copy_mapping allocated allocproc allocpid proc_pagetable
    uvmcreat kalloc mappages walk copy_page
filled_pages_lem = refl

abbrev pub locals : Locals
locals = record { trampoline = 8192; forkret = 16384; name = 0; buf = 0; junk_fd = 0; junk_pid = 0 }

pub descriptors_below : 0 < length allocated.files
unfolding allocated allocproc allocpid proc_pagetable uvmcreat kalloc mappages walk
descriptors_below = omega arith

sys_fork-child_example :
    (k' : Kernel) × (sys_fork locals forkable ≡ ok 3 k')
    × (get_elem? k'.procs 1
        ≡ some (record new_process {
          ppid = 1;
          fds = some 0 ∷ none ∷ [];
          ctx = start_context 16384 0 sample_context;
          state = ProcState.runnable;
        }))
    × ((x : ℕ) → x ≢ 1 → get_elem? k'.procs x ≡ get_elem? allocated.procs x)
    × (k'.frames (page_number 3)
        ≡ record (allocated.frames 0) { x = write ((allocated.frames 0).x) 0 0 })
    × ((a : ℕ) → a ≢ page_number 3 → k'.frames a ≡ allocated.frames a)
    × Counted (some 0 ∷ none ∷ []) allocated.files k'.files
    × (k'.kmem ≡ filled_pages)
sys_fork-child_example =
    sys_fork-child locals forkable allocated 0 1 parent new_process filled_pages allocated_lem
      parent_at new_process_at (descriptors_below, tt) filled_pages_lem refl

abbrev nulls : ℕ → List (Option ℕ)
nulls n = replicate n none

-- A parent that waits, and its child, which runs and has nothing open.
abbrev waiting_parent : Proc
waiting_parent = record (process 1 0 ProcState.sleeping) { chan = proc_slot 0 }

abbrev leaving_child : Proc
leaving_child = record (process 2 1 ProcState.running) {
  tf = sample_page;
  pagetable = 134733824;
  fds = nulls 16;
}

abbrev family : Kernel
family = record sample { procs = waiting_parent ∷ leaving_child ∷ []; current = some 1 }
