-- ===== src/Samples.antt =====
-- A small kernel, on which the theorems about kernel/*.c are applied.
use gcgos.Base.{ℕ, ◌+◌, true, false, none, some, [], ◌∷◌, Bytes, write}
use gcgos.Kmem.{Kmem}
use gcgos.Kernel.{
  ProcState, Chan, Context, Trapframe, Proc, FdType, File, Pipe, Inode, Buf, Devsw, Kernel,
}

abbrev pub zeros : Bytes
zeros = λ _. 0

abbrev pub sample_kmem : Kmem
sample_kmem = record { word = zeros; freelist = 0; kend = 134733824 }

-- A page above the kernel.
abbrev pub sample_page : ℕ
sample_page = 134737920

abbrev pub sample_context : Context
sample_context = record { sp = 0; saved = zeros; x30 = 0 }

abbrev pub sample_frame : Trapframe
sample_frame = record { x = zeros; kernel_ttbr = 0; kernel_sp = 0; elr_el1 = 0; sp_el0 = 0 }

abbrev pub process : (pid ppid : ℕ) → ProcState → Proc
process pid ppid st = record {
  pid = pid;
  ppid = ppid;
  state = st;
  chan = Chan.nothing;
  killed = false;
  pagetable = 0;
  sz = 0;
  ctx = sample_context;
  fds = some 0 ∷ none ∷ [];
  kstack = 0;
  tf = 0;
}

abbrev pub first_process : Proc
first_process = process 1 0 ProcState.running

abbrev pub second_process : Proc
second_process = process 2 1 ProcState.runnable

abbrev pub shared_file : File
shared_file = record {
  kind = FdType.file_fd;
  ref = 1;
  readable = true;
  writeable = true;
  pipe = 0;
  ip = 0;
  off = 0;
}

abbrev pub sample_pipe : Pipe
sample_pipe = record { readopen = true; writeopen = true; readp = 0; writep = 2; bytes = zeros }

abbrev pub sample_inode : Inode
sample_inode = record {
  dev = 1;
  major = 0;
  minor = 0;
  inum = 4;
  count = 1;
  busy = false;
  kind = 2;
  nlink = 1;
  size = 512;
  addrs = λ n. n + 50;
}

abbrev pub busy_inode : Inode
busy_inode = record sample_inode { busy = true }

abbrev pub busy_buf : Buf
busy_buf = record { busy = true; bytes = zeros }

abbrev pub idle_buf : Buf
idle_buf = record { busy = false; bytes = zeros }

-- The super block: 16 blocks in all, 3 inodes.
abbrev pub super_block : Bytes
super_block = write (write zeros 0 16) 8 3

-- Sector 4 holds the bitmap; blocks 0 to 2 are in use.
abbrev pub sample_card : ℕ → Bytes
sample_card = write (write (λ _. zeros) 1 super_block) 4 (write zeros 0 7)

abbrev pub sample : Kernel
sample = record {
  kmem = sample_kmem;
  procs = first_process ∷ second_process ∷ [];
  nextpid = 3;
  initproc = some 0;
  current = some 0;
  frames = λ _. sample_frame;
  files = shared_file ∷ [];
  pipes = λ _. sample_pipe;
  card = sample_card;
  bufs = busy_buf ∷ idle_buf ∷ [];
  inodes = sample_inode ∷ busy_inode ∷ [];
  inode_table_lock = false;
  rootdev = 1;
  cons = record { buf = zeros; r = 0; w = 0; e = 0 };
  devsw = Devsw.no_device ∷ [];
  uart = [];
}
