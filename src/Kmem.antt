-- ===== src/Kmem.antt =====
-- kernel/kalloc.c: the free list of physical pages, threaded through the pages themselves.
-- `printf` calls are left out. `end` is the linker's symbol, a field that no function changes.
pub mod FreeList
pub mod Range
pub mod Count
pub mod Owners
pub mod Stack
pub mod Tests
use gcgos.Base.{
  ℕ, zero, suc, ◌+◌, ◌*◌, ◌/◌, ◌%◌, ◌^◌, ◌||◌, not, ltb, leb, ◌==◌, if◌then◌else◌, write, Op, ok,
  panicked, undefined, pure, ◌>>=◌, ◌>>◌, Panic,
}

-- include/memlayout.h
abbrev pub kern_base : ℕ
kern_base = 0x80000

abbrev pub phys_top : ℕ
phys_top = kern_base + 128 * 1024 * 1024

abbrev pub pg_size : ℕ
pg_size = 4096

-- `((sz) + PGSIZE - 1) & ~(PGSIZE - 1)` on uint64
abbrev pub pg_round_up : ℕ → ℕ
pg_round_up sz = (sz + 4095) % 2 ^ 64 / 4096 * 4096

abbrev pub pg_round_down : ℕ → ℕ
pg_round_down sz = sz / 4096 * 4096

-- `word` is physical memory, by the address of each 64-bit word; `struct run` is one such word.
pub record Kmem : Type 0 where
  pub word : ℕ → ℕ
  pub freelist : ℕ
  pub kend : ℕ

-- `kfree`
unfoldable pub kfree : ℕ → Op Kmem (Unit {0})
kfree pa k =
    if not (pa % pg_size == 0) || ltb pa k.kend || leb phys_top pa
    then panicked Panic.kfree
    else ok tt (record k { word = write k.word pa k.freelist; freelist = pa })

-- `kalloc`: 0 is NULL, and the page keeps what it held.
unfoldable pub kalloc : Op Kmem ℕ
kalloc k =
    if k.freelist == 0 then ok 0 k else ok k.freelist (record k { freelist = k.word k.freelist })

-- The loop of `freerange`, which returns the pages counted and the final `p`.
free_pages : (fuel i p stop : ℕ) → Op Kmem (ℕ × ℕ)
unfolding kfree
free_pages zero i p stop = pure (i, p)
free_pages (suc fuel) i p stop =
    if leb (p + pg_size) stop
    then (kfree p >> free_pages fuel (i + 1) (p + pg_size) stop)
    else pure (i, p)

-- Each round moves `p` up by a page, so `pa_end / PGSIZE + 1` rounds are enough.
unfoldable pub freerange : (pa_start pa_end : ℕ) → Op Kmem (ℕ × ℕ)
unfolding free_pages
freerange pa_start pa_end = free_pages (pa_end / pg_size + 1) 0 (pg_round_up pa_start) pa_end

unfoldable pub kinit : Op Kmem (ℕ × ℕ)
unfolding freerange
kinit k = freerange k.kend phys_top k

-- The loop of `countkmem`; `fuel` bounds the length of the list.
count_from : (fuel i r : ℕ) → Kmem → ℕ
count_from zero i r k = i
count_from (suc fuel) i r k =
    let rest = count_from fuel (i + 1) (k.word r) k in if k.word r == 0 then i else rest

-- `countkmem` reads `r->next` before it tests `r`.
unfoldable pub countkmem : (fuel : ℕ) → Op Kmem ℕ
unfolding count_from
countkmem fuel k = if k.freelist == 0 then undefined else ok (count_from fuel 0 k.freelist k) k
