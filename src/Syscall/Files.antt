-- ===== src/Syscall/Files.antt =====
-- The system calls on files and descriptors (kernel/syscall.c). `buf` is the address of the local
-- array that a call copies to.
use gcgos.Base.{
  ℕ, ◌+◌, ◌/◌, ◌%◌, ◌^◌, Bool, true, false, Option, none, some, List, if◌then◌else◌, ◌==◌,
  get_elem?, set, store8, Op, pure, modify, stop, fault, Panic, ◌>>=◌, ◌>>◌,
}
use gcgos.Kernel.{
  Kernel, file_fd, positive, decrement, proc_at, put_proc, file_at, put_file, inode_at, put_inode,
  myproc,
}
use gcgos.Fs.Layout.{t_dir, t_file, t_dev}
use gcgos.Fs.Inodes.{iget, iput, iunlock, iupdate}
use gcgos.Fs.Rw.{minus_one}
use gcgos.Fs.Dirs.{namei, mknod}
use gcgos.Fd.Alloc.{fd_alloc, fd_ualloc}
use gcgos.Fd.Io.{fd_read, fd_write, fd_close}
use gcgos.Pipe.{pipe_alloc}
use gcgos.Console.{rounds}
use gcgos.Syscall.Args.{argraw, sign_extend, user_address, argaddr, argname}

-- `p->fds[fd]`. Outside the array, where the code takes what lies behind it in the struct for a pointer,
-- and for a null entry, which is then followed, the behaviour is undefined.
abbrev pub opened : Option (Option ℕ) → Op Kernel ℕ
opened none = fault
opened (some none) = fault
opened (some (some f)) = pure f

unfoldable pub descriptor : (n : ℕ) → Op Kernel ℕ
unfolding myproc
descriptor n = do fd ← argraw n; i ← myproc; p ← proc_at i; opened (get_elem? p.fds fd)

-- `p->fds[fd] = f`, where `fd` is a result of `fd_ualloc`: index -1 is outside the array.
store_fd : Option ℕ → Option ℕ → Op Kernel (Unit {0})
unfolding myproc
store_fd none f = fault
store_fd (some fd) f = do
  i ← myproc
  p ← proc_at i
  modify (put_proc i (record p { fds = set p.fds fd f }))

unfoldable pub sys_write : (buf : ℕ) → Op Kernel ℕ
sys_write buf = do n ← argraw 2; argaddr 1 buf 512 (rounds n); f ← descriptor 0; fd_write f buf n

unfoldable pub sys_read : Op Kernel ℕ
sys_read = do
  n ← argraw 2
  r ← argraw 1
  dst ← user_address (sign_extend r)
  f ← descriptor 0
  fd_read f dst n

unfoldable pub sys_close : Op Kernel ℕ
unfolding store_fd
sys_close = do f ← descriptor 0; fd_close f; fd ← argraw 0; store_fd (some fd) none; pure 0

-- The two ends in the process's table. A failure of `pipe_alloc` is not looked at: then a null
-- pointer goes into the table.
store_pipe : Option (ℕ × ℕ) → Op Kernel (Unit {0})
unfolding store_fd
store_pipe none = do fd_ualloc >>= λ a. store_fd a none; fd_ualloc >>= λ b. store_fd b none
store_pipe (some (r, w)) = do
  fd_ualloc >>= λ a. store_fd a (some r)
  fd_ualloc >>= λ b. store_fd b (some w)

-- An int, 0 or 1, into the user's memory.
put_int : (a v : ℕ) → (ℕ → ℕ) → ℕ → ℕ
put_int a v w = store8 (store8 (store8 (store8 w a v) (a + 1) 0) (a + 2) 0) (a + 3) 0

-- `sys_pipe`, which tells the user 0 and 1 whatever the descriptors are.
unfoldable pub sys_pipe : Op Kernel ℕ
unfolding store_pipe put_int
sys_pipe = do
  ends ← pipe_alloc
  store_pipe ends
  r ← argraw 0
  fdp ← user_address (sign_extend r)
  modify (λ k. record k {
    kmem = record k.kmem { word = put_int (fdp + 4) 1 (put_int fdp 0 k.kmem.word) };
  })
  pure 0

-- The inode that `open` works on: found, made (`O_CREATE` is bit 9), or `none` for the result -1.
open_inode : (mode : ℕ) → (name : List ℕ) → Option ℕ → Op Kernel (Option ℕ)
open_inode mode name (some i) = pure (some i)
open_inode mode name none =
    if mode / 512 % 2 == 1
    then (do
      dp ← iget 1 1
      dir ← inode_at dp
      if dir.kind == t_dir
          then (do i ← mknod dp name t_file 0 0; iput dp; pure (some i))
          else pure none)
    else pure none

-- The mode's bits O_RDWR and O_WRONLY as `readable` and `writeable`.
abbrev pub open_modes : (mode : ℕ) → Bool × Bool
open_modes mode =
    if mode / 2 % 2 == 1
    then (true, true)
    else if mode % 2 == 1
    then (false, true)
    else (true, false)

-- The file entry for the inode; without one the null pointer is written through.
open_file : (mode i : ℕ) → Option ℕ → Op Kernel (Unit {0})
open_file mode i none = fault
open_file mode i (some a) = do
  f ← file_at a
  modify (
      put_file a (record f {
        kind = file_fd;
        ip = i;
        off = 0;
        readable = (open_modes mode).0;
        writeable = (open_modes mode).1;
      }))

open_result : Option ℕ → ℕ
open_result none = minus_one
open_result (some fd) = fd

open_descriptor : (mode : ℕ) → Option ℕ → Op Kernel ℕ
unfolding open_file store_fd open_result
open_descriptor mode none = pure minus_one
open_descriptor mode (some i) = do
  a ← fd_alloc
  ufd ← fd_ualloc
  iunlock i
  open_file mode i a
  store_fd ufd a
  pure (open_result ufd)

unfoldable pub sys_open : (buf : ℕ) → Op Kernel ℕ
unfolding open_inode open_descriptor
sys_open buf = do
  name ← argname 0 buf
  mode ← argraw 1
  found ← namei name
  i ← open_inode mode name found
  open_descriptor mode i

unfoldable pub sys_mknod : (buf : ℕ) → Op Kernel ℕ
sys_mknod buf = do
  name ← argname 0 buf
  major ← argraw 2
  minor ← argraw 3
  dp ← iget 1 1
  nip ← mknod dp name t_dev (major % 2 ^ 16) (minor % 2 ^ 16)
  iput dp
  iput nip
  pure 0

-- `sys_unlink` with what `namei` gives, which is not looked at before it is followed.
unlink_inode : Option ℕ → Op Kernel ℕ
unlink_inode none = fault
unlink_inode (some i) = do
  ip ← inode_at i
  modify (put_inode i (record ip { nlink = decrement 16 ip.nlink }))
  if positive 16 (decrement 16 ip.nlink)
      then (do iupdate i; iput i; pure 0)
      else stop Panic.sys_unlink

unfoldable pub sys_unlink : (buf : ℕ) → Op Kernel ℕ
unfolding unlink_inode
sys_unlink buf = do name ← argname 0 buf; found ← namei name; unlink_inode found
