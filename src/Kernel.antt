-- ===== src/Kernel.antt =====
-- The data that the kernel's files share (include/proc.h, fd.h, fs.h, bio.h, dev.h and the static
-- variables of kernel/*.c), as one record. One CPU runs; pointers into a table are its indices.
-- Pages from `kalloc` that hold a trapframe or a pipe are kept by address, apart from the words of
-- `Kmem`.
use gcgos.Base.{
  ℕ, ◌+◌, ◌-◌, ◌%◌, ◌^◌, ◌&&◌, Bool, true, false, Option, none, some, List, ◌==◌, ltb, Bytes, Op,
  ok, undefined, zoom, get_elem?, set,
}
use gcgos.Kmem.{Kmem}

-- The anonymous enum of `struct proc`.
pub data ProcState : Type 0 where
  unused runnable sleeping zombie running : ProcState

-- What `p->chan` points at: an inode, a process, a pipe's counters (by page) or `cons.r`.
pub data Chan : Type 0 where
  nothing : Chan
  inode_slot : ℕ → Chan
  proc_slot : ℕ → Chan
  pipe_readp : ℕ → Chan
  pipe_writep : ℕ → Chan
  cons_r : Chan

-- `struct context`: `saved` holds x18 to x29.
pub record Context : Type 0 where
  pub sp : ℕ
  pub saved : ℕ → ℕ
  pub x30 : ℕ

-- `struct trapframe`: `x` holds x0 to x31.
pub record Trapframe : Type 0 where
  pub x : ℕ → ℕ
  pub kernel_ttbr : ℕ
  pub kernel_sp : ℕ
  pub elr_el1 : ℕ
  pub sp_el0 : ℕ

-- `struct proc`; `fds` are indices into the file table, `tf` the page of the trapframe.
pub record Proc : Type 0 where
  pub pid : ℕ
  pub ppid : ℕ
  pub state : ProcState
  pub chan : Chan
  pub killed : Bool
  pub pagetable : ℕ
  pub sz : ℕ
  pub ctx : Context
  pub fds : List (Option ℕ)
  pub kstack : ℕ
  pub tf : ℕ

pub data FdType : Type 0 where
  close_fd none_fd pipe_fd file_fd : FdType

-- `struct fd`; `ref` is an int, kept modulo 2^32.
pub record File : Type 0 where
  pub kind : FdType
  pub ref : ℕ
  pub readable : Bool
  pub writeable : Bool
  pub pipe : ℕ
  pub ip : ℕ
  pub off : ℕ

-- `struct pipe` of kernel/pipe.c
pub record Pipe : Type 0 where
  pub readopen : Bool
  pub writeopen : Bool
  pub readp : ℕ
  pub writep : ℕ
  pub bytes : Bytes

-- `struct inode`; the shorts are kept modulo 2^16 and `count` modulo 2^32.
pub record Inode : Type 0 where
  pub dev : ℕ
  pub major : ℕ
  pub minor : ℕ
  pub inum : ℕ
  pub count : ℕ
  pub busy : Bool
  pub kind : ℕ
  pub nlink : ℕ
  pub size : ℕ
  pub addrs : ℕ → ℕ

-- `struct buf`: the flag B_BUSY and the sector's bytes.
pub record Buf : Type 0 where
  pub busy : Bool
  pub bytes : Bytes

-- `cons` of kernel/console.c; `r`, `w` and `e` are uints.
pub record Console : Type 0 where
  pub buf : Bytes
  pub r : ℕ
  pub w : ℕ
  pub e : ℕ

-- An entry of `devsw`: empty, or the two functions that `consoleinit` enters.
pub data Devsw : Type 0 where
  no_device console_device : Devsw

pub record Kernel : Type 0 where
  pub kmem : Kmem
  pub procs : List Proc
  pub nextpid : ℕ
  pub initproc : Option ℕ
  pub current : Option ℕ  -- `mycpu()->proc`
  pub frames : ℕ → Trapframe
  pub files : List File
  pub pipes : ℕ → Pipe
  pub card : ℕ → Bytes  -- the sectors of the SD card
  pub bufs : List Buf
  pub inodes : List Inode
  pub inode_table_lock : Bool
  pub rootdev : ℕ
  pub cons : Console
  pub devsw : List Devsw
  pub uart : List ℕ  -- characters sent

-- include/param.h, include/fs.h, include/bio.h
abbrev pub nproc : ℕ
nproc = 64

abbrev pub nfd : ℕ
nfd = 100

abbrev pub nofile : ℕ
nofile = 16

abbrev pub ninode : ℕ
ninode = 100

abbrev pub nbuf : ℕ
nbuf = 10

abbrev pub ndev : ℕ
ndev = 10

-- A C `int` or `short` that is kept modulo 2^w is positive.
abbrev pub positive : ℕ → ℕ → Bool
positive w n = ltb 0 n && ltb n (2 ^ (w - 1))

abbrev pub decrement : ℕ → ℕ → ℕ
decrement w n = (n + 2 ^ w - 1) % 2 ^ w

abbrev pub increment : ℕ → ℕ → ℕ
increment w n = (n + 1) % 2 ^ w

-- Pointer equality of channels.
abbrev pub chan_eq : Chan → Chan → Bool
chan_eq nothing nothing = true
chan_eq (inode_slot a) (inode_slot b) = a == b
chan_eq (proc_slot a) (proc_slot b) = a == b
chan_eq (pipe_readp a) (pipe_readp b) = a == b
chan_eq (pipe_writep a) (pipe_writep b) = a == b
chan_eq cons_r cons_r = true
chan_eq _ _ = false

abbrev pub is_unused : ProcState → Bool
is_unused unused = true
is_unused _ = false

abbrev pub is_runnable : ProcState → Bool
is_runnable runnable = true
is_runnable _ = false

abbrev pub is_sleeping : ProcState → Bool
is_sleeping sleeping = true
is_sleeping _ = false

abbrev pub is_zombie : ProcState → Bool
is_zombie zombie = true
is_zombie _ = false

abbrev pub is_close : FdType → Bool
is_close close_fd = true
is_close _ = false

abbrev pub is_pipe : FdType → Bool
is_pipe pipe_fd = true
is_pipe _ = false

abbrev pub is_file : FdType → Bool
is_file file_fd = true
is_file _ = false

-- `kalloc`, `kfree` and the page tables as operations on the whole kernel.
abbrev pub on_kmem : {A : Type 0} → Op Kmem A → Op Kernel A
on_kmem = zoom (λ k. k.kmem) (λ k m. record k { kmem = m })

-- An entry of a table; outside it the access is undefined.
abbrev pub entry : {S A : Type 0} → (S → List A) → ℕ → Op S A
entry table i s = elim (get_elem? (table s) i) [ none ↦ undefined | some a ↦ ok a s ]

abbrev pub proc_at : ℕ → Op Kernel Proc
proc_at = entry (λ k. k.procs)

abbrev pub put_proc : ℕ → Proc → Kernel → Kernel
put_proc i p k = record k { procs = set k.procs i p }

abbrev pub file_at : ℕ → Op Kernel File
file_at = entry (λ k. k.files)

abbrev pub put_file : ℕ → File → Kernel → Kernel
put_file i f k = record k { files = set k.files i f }

abbrev pub inode_at : ℕ → Op Kernel Inode
inode_at = entry (λ k. k.inodes)

abbrev pub put_inode : ℕ → Inode → Kernel → Kernel
put_inode i ip k = record k { inodes = set k.inodes i ip }

-- `myproc`, whose result every caller goes through.
unfoldable pub myproc : Op Kernel ℕ
myproc k = elim k.current [ none ↦ undefined | some i ↦ ok i k ]
