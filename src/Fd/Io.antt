-- ===== src/Fd/Io.antt =====
-- `fd_read`, `fd_write` and `fd_close` of kernel/fd.c, and `file_close` of kernel/file.c.
use gcgos.Base.{
  ℕ, ◌+◌, ◌%◌, ◌^◌, not, if◌then◌else◌, ◌==◌, Op, pure, modify, stop, Panic, ◌>>=◌, ◌>>◌,
}
use gcgos.Kernel.{File, close_fd, Kernel, is_pipe, is_file, positive, decrement, file_at, put_file}
use gcgos.Pipe.{pipe_read, pipe_write, pipe_close}
use gcgos.Fs.Inodes.{iput}
use gcgos.Fs.Rw.{readi, writei, minus_one}

-- `if (r > 0) fd->off += r`
advance : (i r : ℕ) → Op Kernel (Unit {0})
advance i r = do
  f ← file_at i
  if positive 32 r then modify (put_file i (record f { off = (f.off + r) % 2 ^ 32 })) else pure tt

unfoldable pub fd_write : (i addr n : ℕ) → Op Kernel ℕ
unfolding advance
fd_write i addr n = do
  f ← file_at i
  if not f.writeable
      then pure minus_one
      else if is_pipe f.kind
      then pipe_write f.pipe addr n
      else if is_file f.kind
      then (do r ← writei f.ip addr f.off n; advance i r; pure r)
      else stop Panic.fd_write

unfoldable pub fd_read : (i buf n : ℕ) → Op Kernel ℕ
unfolding advance
fd_read i buf n = do
  f ← file_at i
  if not f.readable
      then pure minus_one
      else if is_pipe f.kind
      then pipe_read f.pipe buf n
      else if is_file f.kind
      then (do cc ← readi f.ip buf f.off n; advance i cc; pure cc)
      else pure minus_one

-- `file_close`
unfoldable pub file_close : ℕ → Op Kernel (Unit {0})
file_close ip = iput ip

-- What the last `fd_close` of a file gives back.
release_file : File → Op Kernel (Unit {0})
unfolding file_close
release_file f =
    if is_pipe f.kind
    then pipe_close f.pipe f.writeable
    else if is_file f.kind
    then file_close f.ip
    else pure tt

-- `fd_close`: the entry becomes FD_CLOSE whether or not references are left.
unfoldable pub fd_close : ℕ → Op Kernel (Unit {0})
unfolding release_file
fd_close i = do
  f ← file_at i
  modify (put_file i (record f { ref = decrement 32 f.ref }))
  if decrement 32 f.ref == 0 then release_file f else pure tt
  f ← file_at i
  modify (put_file i (record f { kind = close_fd }))
