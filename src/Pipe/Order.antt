-- ===== src/Pipe/Order.antt =====
-- What goes through a pipe of kernel/pipe.c comes out in order.
use gcgos.Base.{
  ℕ, zero, suc, ◌+◌, ◌-◌, ◌/◌, ◌%◌, ◌^◌, ◌≤◌, ◌<◌, ◌≡◌, ◌∙◌, refl, arith, ok, write, if◌then◌else◌,
  among, load8, store8, load8-store8, among_step, Bool-cases, inl, inr,
}
use gcgos.Kernel.{Kernel}
use gcgos.Console.{rounds}
use gcgos.Pipe.{read_loop, pipe_read, pipe_write}
use gcgos.Pipe.Laws.{pipe_write_address}

-- What `n` rounds of the loop of `pipe_read` leave.
record Taken (n p dst : ℕ) (k : Kernel) : Type 0 where
  after : Kernel
  run : read_loop n p dst k ≡ ok tt after
  moved : (after.pipes p).readp ≡ (k.pipes p).readp + n
  rest : (after.pipes p).writep ≡ (k.pipes p).writep
  memory :
      (x : ℕ)
      → load8 after.kmem.word x ≡ (
          if among dst n x
          then (k.pipes p).bytes ((k.pipes p).readp + (x - dst)) % 256
          else load8 k.kmem.word x)

-- The kernel after one round.
abbrev one_less : (p dst : ℕ) → Kernel → Kernel
one_less p dst k =
    let q = k.pipes p in
    record k {
      pipes = write k.pipes p (record q { readp = q.readp + 1 });
      kmem = record k.kmem { word = store8 k.kmem.word dst (q.bytes q.readp) };
    }

Taken-suc :
    (n p dst : ℕ) (k : Kernel)
    → (k.pipes p).readp + suc n ≤ 512
    → Taken n p (dst + 1) (one_less p dst k)
    → Taken (suc n) p dst k
unfolding read_loop
Taken-suc n p dst k room t = record {
  after = t.after;
  run = ground (arith, t.run);
  moved = ground (arith, t.moved);
  rest = ground (arith, t.rest);
  memory = λ x. t.memory x ∙ here x;
}
  where
    q : (one_less p dst k).pipes p ≡ record (k.pipes p) { readp = (k.pipes p).readp + 1 }
    q = ground arith

    here :
        (x : ℕ)
        → (if among (dst + 1) n x
            then ((one_less p dst k).pipes p).bytes
                (((one_less p dst k).pipes p).readp + (x - (dst + 1)))
              % 256
            else load8 (store8 k.kmem.word dst ((k.pipes p).bytes (k.pipes p).readp)) x)
          ≡ (if among dst (suc n) x
              then (k.pipes p).bytes ((k.pipes p).readp + (x - dst)) % 256
              else load8 k.kmem.word x)
    here x = rw q (
        among_step n dst (k.pipes p).readp x _ (load8 k.kmem.word x)
          (λ y. (k.pipes p).bytes y % 256) (λ e. load8-store8 k.kmem.word dst x _ ∙ ground arith)
          (λ ne. load8-store8 k.kmem.word dst x _ ∙ ground arith))

read_loop-Taken : (n p dst : ℕ) (k : Kernel) → (k.pipes p).readp + n ≤ 512 → Taken n p dst k
unfolding read_loop
read_loop-Taken zero p dst k room = record {
  after = k;
  run = refl;
  moved = omega arith;
  rest = refl;
  memory = λ x. ground arith;
}
read_loop-Taken (suc n) p dst k room =
    Taken-suc n p dst k room (read_loop-Taken n p (dst + 1) (one_less p dst k) (ground arith))

-- `pipe_write` of `n` bytes, at most 8, to an empty pipe with room for them, and then `pipe_read` of
-- `m` of them to `buf`: both come to an end; memory has the first `m` bytes of the address `addr` itself
-- at `buf`, in order, and is as before elsewhere; and `n - m` bytes are left to read.
pub pipe_read-pipe_write :
    (m n p addr buf : ℕ) (k : Kernel)
    → m ≤ n
    → n ≤ 8
    → (k.pipes p).writep + n ≤ 512
    → (k.pipes p).readp ≡ (k.pipes p).writep
    → (k1 k2 : Kernel) × (pipe_write p addr n k ≡ ok 0 k1)
      × (pipe_read p buf m k1 ≡ ok (2 ^ 32 - 1) k2)
      × ((x : ℕ)
          → load8 k2.kmem.word x
            ≡ (if among buf m x then addr / 256 ^ (x - buf) % 256 else load8 k.kmem.word x))
      × ((k2.pipes p).readp + (n - m) ≡ (k2.pipes p).writep)
unfolding pipe_read
pipe_read-pipe_write m n p addr buf k le short room empty =
    let (k1, wrote, w, put, kept, r, same) = pipe_write_address n p addr k short room in
    let t = read_loop-Taken m p buf k1 (omega (arith, r)) in
    let e : rounds m ≡ m = ground arith in
    (
      k1,
      t.after,
      wrote,
      rw (e, t.run),
      λ x. t.memory x ∙ bytes k1 r put same x,
      omega (arith, t.moved, t.rest, r, w),
    )
  where
    bytes :
        (k1 : Kernel)
        → (k1.pipes p).readp ≡ (k.pipes p).readp
        → ((j : ℕ) → j < n → (k1.pipes p).bytes ((k.pipes p).writep + j) ≡ addr / 256 ^ j % 256)
        → k1.kmem ≡ k.kmem
        → (x : ℕ)
        → (if among buf m x
            then (k1.pipes p).bytes ((k1.pipes p).readp + (x - buf)) % 256
            else load8 k1.kmem.word x)
          ≡ (if among buf m x then addr / 256 ^ (x - buf) % 256 else load8 k.kmem.word x)
    bytes k1 r put same x = elim (Bool-cases (among buf m x)) [
      | inl e ↦
          let at : (k1.pipes p).readp + (x - buf) ≡ (k.pipes p).writep + (x - buf) =
            omega (arith, r, empty) in
          let b = put (x - buf) (ground arith) in rw (e, at, b) (omega arith)
      | inr e ↦ rw (e, same) refl
    ]
