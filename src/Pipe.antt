-- ===== src/Pipe.antt =====
-- kernel/pipe.c. A pipe is known by its page. `data` has 512 bytes; an access behind it is
-- undefined here (in the kernel it meets the rest of the page).
pub mod Laws
pub mod Order
pub mod Tests
use gcgos.Base.{
  ℕ, zero, suc, ◌+◌, ◌-◌, ◌/◌, ◌%◌, ◌^◌, ◌&&◌, ◌||◌, not, Bool, true, false, Option, none, some,
  if◌then◌else◌, ◌==◌, ltb, leb, write, load8, store8, Op, pure, modify, gets, fault, ◌>>=◌, ◌>>◌,
  Bytes,
}
use gcgos.Kmem.{kalloc, kfree}
use gcgos.Kernel.{
  File, pipe_fd, none_fd, Pipe, pipe_readp, pipe_writep, Kernel, on_kmem, file_at, put_file,
}
use gcgos.Sched.{wakeup}
use gcgos.Console.{rounds}
use gcgos.Fd.Alloc.{fd_alloc}

abbrev pub pipesize : ℕ
pipesize = 512

-- The page's counters and data are not cleared.
abbrev open_pipe : Pipe → Pipe
open_pipe p = record p { readopen = true; writeopen = true }

-- The two ends of the pipe in page `p`.
unfoldable pub pipe_ends : (a b p : ℕ) → Op Kernel (Unit {0})
pipe_ends a b p = do
  modify (λ k. record k { pipes = write k.pipes p (open_pipe (k.pipes p)) })
  f ← file_at a
  modify (put_file a (record f { kind = pipe_fd; readable = true; writeable = false; pipe = p }))
  g ← file_at b
  modify (put_file b (record g { kind = pipe_fd; readable = false; writeable = true; pipe = p }))

-- What `pipe_alloc` does with the second result of `fd_alloc`.
pipe_second : (a : ℕ) → Option ℕ → Op Kernel (Option (ℕ × ℕ))
unfolding pipe_ends
pipe_second a none = pure none
pipe_second a (some b) = do
  p ← on_kmem kalloc
  if p == 0 then fault else pipe_ends a b p
  pure (some (a, b))

pipe_first : Option ℕ → Op Kernel (Option (ℕ × ℕ))
unfolding pipe_second
pipe_first none = pure none
pipe_first (some a) = do b ← fd_alloc; pipe_second a b

-- `pipe_alloc`: the two descriptors, or `none` for the result -1. A first descriptor that was found
-- stays taken when there is no second.
unfoldable pub pipe_alloc : Op Kernel (Option (ℕ × ℕ))
unfolding pipe_first
pipe_alloc = do a ← fd_alloc; pipe_first a

-- Byte `i` of the parameter `addr` itself: `pipe_write` takes its address, `(char*)&addr`. Behind
-- its eight bytes the stack is read.
abbrev param_byte : (addr i : ℕ) → ℕ
param_byte addr i = addr / 256 ^ i % 256

unfoldable pub write_loop : (left i p addr : ℕ) → Op Kernel (Unit {0})
write_loop zero i p addr = pure tt
write_loop (suc left) i p addr = do
  q ← gets (λ k. k.pipes p)
  if leb 8 i || leb pipesize q.writep then fault else (do
    modify (λ k. record k {
      pipes =
          write k.pipes p (record q {
            bytes = write q.bytes q.writep (param_byte addr i);
            writep = q.writep + 1;
          });
    })
    write_loop left (i + 1) p addr)

-- `pipe_write`, which returns 0.
unfoldable pub pipe_write : (p addr n : ℕ) → Op Kernel ℕ
unfolding write_loop
pipe_write p addr n = do write_loop (rounds n) 0 p addr; pure 0

read_loop : (left p dst : ℕ) → Op Kernel (Unit {0})
read_loop zero p dst = pure tt
read_loop (suc left) p dst = do
  q ← gets (λ k. k.pipes p)
  if leb pipesize q.readp then fault else (do
    modify (λ k. record k {
      pipes = write k.pipes p (record q { readp = q.readp + 1 });
      kmem = record k.kmem { word = store8 k.kmem.word dst (q.bytes q.readp) };
    })
    read_loop left p (dst + 1))

-- `pipe_read`, which returns -1 whatever it reads.
unfoldable pub pipe_read : (p buf n : ℕ) → Op Kernel ℕ
unfolding read_loop
pipe_read p buf n = do read_loop (rounds n) p buf; pure (2 ^ 32 - 1)

-- `pipe_close` of the write end or of the read end; the page goes back with the second of them.
unfoldable pub pipe_close : (p : ℕ) → Bool → Op Kernel (Unit {0})
pipe_close p writeable = do
  if writeable
      then (do
        modify
            (λ k. record k { pipes = write k.pipes p (record (k.pipes p) { writeopen = false }) })
        wakeup (pipe_readp p))
      else (do
        modify (λ k. record k { pipes = write k.pipes p (record (k.pipes p) { readopen = false }) })
        wakeup (pipe_writep p))
  q ← gets (λ k. k.pipes p)
  if not q.readopen && not q.writeopen then on_kmem (kfree p) else pure tt
