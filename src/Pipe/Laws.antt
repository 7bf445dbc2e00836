-- ===== src/Pipe/Laws.antt =====
-- What goes through a pipe of kernel/pipe.c.
use gcgos.Base.{
  ℕ, zero, suc, ◌+◌, ◌/◌, ◌%◌, ◌^◌, ◌≤◌, ◌<◌, ◌≡◌, refl, Bool, true, false, not, map, arith, ok,
  undefined, if◌then◌else◌, write, ap, ◌∙◌,
}
use gcgos.Kernel.{pipe_readp, pipe_writep, Kernel}
use gcgos.Kmem.{kfree}
use gcgos.Kmem.FreeList.{IsPage}
use gcgos.Console.{rounds}
use gcgos.Sched.{wake, wakeup}
use gcgos.Pipe.{param_byte, write_loop, pipe_write, pipe_close}

-- What `n` rounds of the loop of `pipe_write` leave, from byte `i` of the parameter on.
pub record Written (n i p addr : ℕ) (k : Kernel) : Type 0 where
  pub after : Kernel
  pub run : write_loop n i p addr k ≡ ok tt after
  pub moved : (after.pipes p).writep ≡ (k.pipes p).writep + n
  pub put :
      (j : ℕ) → j < n → (after.pipes p).bytes ((k.pipes p).writep + j) ≡ param_byte addr (i + j)
  pub kept : (a : ℕ) → a < (k.pipes p).writep → (after.pipes p).bytes a ≡ (k.pipes p).bytes a
  pub reader : (after.pipes p).readp ≡ (k.pipes p).readp
  pub memory : after.kmem ≡ k.kmem

-- The kernel after one round.
abbrev one_more : (i p addr : ℕ) → Kernel → Kernel
one_more i p addr k =
    let q = k.pipes p in
    record k {
      pipes =
          write k.pipes p (record q {
            bytes = write q.bytes q.writep (param_byte addr i);
            writep = q.writep + 1;
          });
    }

Written-suc :
    (n i p addr : ℕ) (k : Kernel)
    → i + suc n ≤ 8
    → (k.pipes p).writep + suc n ≤ 512
    → Written n (i + 1) p addr (one_more i p addr k)
    → Written (suc n) i p addr k
unfolding write_loop
Written-suc n i p addr k short room w = record {
  after = w.after;
  run = ground (arith, w.run);
  moved = ground (arith, w.moved);
  put = puts;
  kept = λ a lt. ground (arith, w.kept a);
  reader = ground (arith, w.reader);
  memory = w.memory;
}
  where
    puts :
        (j : ℕ)
        → j < suc n
        → (w.after.pipes p).bytes ((k.pipes p).writep + j) ≡ param_byte addr (i + j)
    puts zero lt = ground (arith, w.kept (k.pipes p).writep)
    puts (suc j) lt =
        let e : ((one_more i p addr k).pipes p).writep ≡ (k.pipes p).writep + 1 = ground arith in
        ap (w.after.pipes p).bytes (omega (arith, e))
        ∙ w.put j (omega arith)
        ∙ ap (param_byte addr) (omega arith)

write_loop-Written :
    (n i p addr : ℕ) (k : Kernel) → i + n ≤ 8 → (k.pipes p).writep + n ≤ 512 → Written n i p addr k
unfolding write_loop
write_loop-Written zero i p addr k short room = record {
  after = k;
  run = refl;
  moved = omega arith;
  put = λ j lt. absurd (omega arith);
  kept = λ a lt. refl;
  reader = refl;
  memory = refl;
}
write_loop-Written (suc n) i p addr k short room =
    Written-suc n i p addr k short room
      (write_loop-Written n (i + 1) p addr (one_more i p addr k) (omega arith) (ground arith))

-- `pipe_write` of `n` bytes, at most 8, to a pipe with room for them: what goes into the pipe is
-- the first `n` bytes of the address `addr` itself, whatever memory holds at that address. The
-- bytes before them stay, neither the reader's counter nor memory changes, and the result is 0.
pub pipe_write_address :
    (n p addr : ℕ) (k : Kernel)
    → n ≤ 8
    → (k.pipes p).writep + n ≤ 512
    → (k' : Kernel) × (pipe_write p addr n k ≡ ok 0 k')
      × ((k'.pipes p).writep ≡ (k.pipes p).writep + n)
      × ((j : ℕ) → j < n → (k'.pipes p).bytes ((k.pipes p).writep + j) ≡ addr / 256 ^ j % 256)
      × ((a : ℕ) → a < (k.pipes p).writep → (k'.pipes p).bytes a ≡ (k.pipes p).bytes a)
      × ((k'.pipes p).readp ≡ (k.pipes p).readp)
      × (k'.kmem ≡ k.kmem)
unfolding pipe_write
pipe_write_address n p addr k short room =
    let w = write_loop-Written n 0 p addr k (omega arith) room in
    let r : rounds n ≡ n = ground arith in
    (
      w.after,
      rw (r, w.run),
      w.moved,
      λ j lt. w.put j lt ∙ ap (param_byte addr) (omega arith),
      w.kept,
      w.reader,
      w.memory,
    )

-- A write of at least one byte to a pipe whose counter is at the end of its array, or behind it,
-- goes outside the array.
pipe_write_overrun :
    (n p addr : ℕ) (k : Kernel)
    → 0 < n
    → n < 2 ^ 31
    → 512 ≤ (k.pipes p).writep
    → pipe_write p addr n k ≡ undefined
unfolding pipe_write write_loop
pipe_write_overrun zero p addr k pos fits full = absurd (omega arith)
pipe_write_overrun (suc n) p addr k pos fits full =
    let r : rounds (suc n) ≡ suc n = ground arith in rw r (ground arith)

-- The kernel after one end of pipe `p` is closed, and after its page is given back too.
abbrev end_closed : Bool → (p : ℕ) → Kernel → Kernel
end_closed writeable p k = record k {
  pipes = write k.pipes p (
      if writeable
      then record (k.pipes p) { writeopen = false }
      else record (k.pipes p) { readopen = false });
  procs = map (wake (if writeable then pipe_readp p else pipe_writep p)) k.procs;
}

abbrev given_back : Bool → (p : ℕ) → Kernel → Kernel
given_back writeable p k = record (end_closed writeable p k) {
  kmem = record k.kmem { word = write k.kmem.word p k.kmem.freelist; freelist = p };
}

-- Closing the two open ends of a pipe in a page of the range, in either order: the first leaves
-- memory and the free list alone, and the second puts the page in front of the free list.
pipe_close_both :
    (k : Kernel) (p : ℕ) (writeable : Bool)
    → (k.pipes p).readopen ≡ true
    → (k.pipes p).writeopen ≡ true
    → IsPage k.kmem.kend p
    → (k1 k2 : Kernel) × (pipe_close p writeable k ≡ ok tt k1)
      × (k1.kmem ≡ k.kmem)
      × (pipe_close p (not writeable) k1 ≡ ok tt k2)
      × (k2.kmem ≡ record k.kmem { word = write k.kmem.word p k.kmem.freelist; freelist = p })
unfolding pipe_close wakeup kfree
pipe_close_both k p true r w page =
    let k1 = end_closed true p k in
    (k1, given_back false p k1, ground arith, refl, ground (arith, page), refl)
pipe_close_both k p false r w page =
    let k1 = end_closed false p k in
    (k1, given_back true p k1, ground arith, refl, ground (arith, page), refl)
