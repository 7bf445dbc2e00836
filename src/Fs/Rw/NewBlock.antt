-- ===== src/Fs/Rw/NewBlock.antt =====
-- `writei` to a block that the file does not have yet (kernel/fs.c): it is the `writei` to the block
-- that `balloc` has given.
use gcgos.Base.{
  among, ℕ, zero, suc, ◌+◌, ◌/◌, ◌<◌, ◌≡◌, ◌≢◌, ◌⊎◌, inl, inr, ◌∙◌, ap, sym, refl, true, false,
  ◌==◌, arith, some, ok, panicked, Panic, write, write_at, load8, Outcome, Op, and_then, get_elem?,
  get_elem?-set_self, lt_of_get_elem?,
}
use gcgos.Kernel.{Buf, Inode, Kernel, put_inode}
use gcgos.Fs.Layout.{ndirect, bsize, t_file, iblock, sb_size, sb_ninodes}
use gcgos.Fs.Bio.Laws.{IsFirst, IsFirst-set}
use gcgos.Fs.Blocks.{balloc}
use gcgos.Fs.Blocks.Alloc.{used, marked, balloc_cases}
use gcgos.Fs.Rw.{readi, writei_block, writei_loop, writei}
use gcgos.Fs.Rw.Contents.{Within, block_of, grown}
use gcgos.Fs.Rw.RoundTrip.{readi-writei}

-- The inode with the block that `balloc` has given.
abbrev pub with_block : Inode → (off c : ℕ) → Inode
with_block ip off c = record ip { addrs = write ip.addrs (off / bsize) c }

-- Two runs that begin alike end alike.
same_start :
    {S A B : Type 0} {m m' : Outcome S A} (f : A → Op S B) → m ≡ m' → and_then m f ≡ and_then m' f
same_start f e = ap (λ o. and_then o f) e

module _ (k : Kernel) (i off : ℕ) (ip : Inode) (at : get_elem? k.inodes i ≡ some ip)
    (direct : off / bsize < ndirect) (hole : block_of ip off ≡ 0) where
  writei_block_new :
      (c : ℕ) (k0 : Kernel)
      → balloc k ≡ ok c k0
      → get_elem? k0.inodes i ≡ some ip
      → writei_block i (off / bsize) k ≡ ok tt (put_inode i (with_block ip off c) k0)
  unfolding writei_block
  writei_block_new c k0 e at0 = ground (arith, at, hole, e, at0)

  writei_block_full :
      balloc k ≡ panicked Panic.balloc → writei_block i (off / bsize) k ≡ panicked Panic.balloc
  unfolding writei_block
  writei_block_full e = ground (arith, at, hole, e)

  -- With the block there, the head of a round does nothing.
  writei_block_again :
      (c : ℕ) (k0 : Kernel)
      → get_elem? k0.inodes i ≡ some ip
      → c ≢ 0
      → writei_block i (off / bsize) (put_inode i (with_block ip off c) k0)
        ≡ ok tt (put_inode i (with_block ip off c) k0)
  unfolding writei_block
  writei_block_again c k0 at0 ne =
      let here =
        get_elem?-set_self k0.inodes i (with_block ip off c) (lt_of_get_elem? k0.inodes i at0) in
      ground (arith, here, ne)

  writei_loop_new :
      (src n c : ℕ) (k0 : Kernel)
      → balloc k ≡ ok c k0
      → get_elem? k0.inodes i ≡ some ip
      → c ≢ 0
      → writei_loop (suc n) i src off (suc n) k
        ≡ writei_loop (suc n) i src off (suc n) (put_inode i (with_block ip off c) k0)
  unfolding writei_loop
  writei_loop_new src n c k0 e at0 ne =
      let more : (suc n == 0) ≡ false = ground arith in
      rw more (same_start _ (writei_block_new c k0 e at0 ∙ sym (writei_block_again c k0 at0 ne)))

  writei_new :
      (src n c : ℕ) (k0 : Kernel)
      → balloc k ≡ ok c k0
      → get_elem? k0.inodes i ≡ some ip
      → c ≢ 0
      → ip.kind ≡ t_file
      → 0 < n
      → writei i src off n k ≡ writei i src off n (put_inode i (with_block ip off c) k0)
  unfolding writei
  writei_new src zero c k0 e at0 ne file some_bytes = absurd (omega arith)
  writei_new src (suc n) c k0 e at0 ne file some_bytes =
      let here =
        get_elem?-set_self k0.inodes i (with_block ip off c) (lt_of_get_elem? k0.inodes i at0) in
      ground (arith, at, here, writei_loop_new src n c k0 e at0 ne, file)

  writei_full :
      (src n : ℕ)
      → balloc k ≡ panicked Panic.balloc
      → ip.kind ≡ t_file
      → 0 < n
      → writei i src off n k ≡ panicked Panic.balloc
  unfolding writei writei_loop
  writei_full src zero e file some_bytes = absurd (omega arith)
  writei_full src (suc n) e file some_bytes = ground (arith, at, writei_block_full e, file)

-- What `writei` and `readi` do with the new block `c`, which `balloc` has marked in `k0`.
pub record Kept (i src dst off n c : ℕ) (ip : Inode) (k k0 : Kernel) : Type 0 where
  pub written : Kernel
  pub again : Kernel
  pub writes : writei i src off n k ≡ ok n written
  pub reads : readi i dst off n written ≡ ok n again
  pub bytes : (x : ℕ) → x < n → load8 again.kmem.word (dst + x) ≡ load8 k.kmem.word (src + x)
  pub memory : (a : ℕ) → among dst n a ≡ false → load8 again.kmem.word a ≡ load8 k.kmem.word a
  pub card : (s : ℕ) → s ≢ c → s ≢ iblock ip.inum → again.card s ≡ k0.card s
  pub inode : get_elem? again.inodes i ≡ some (grown (with_block ip off c) (off + n))

module _ (k : Kernel) (i j src dst off n : ℕ) (ip : Inode) (b0 : Buf)
    (at : get_elem? k.inodes i ≡ some ip) (file : ip.kind ≡ t_file) (w : Within ip off n)
    (hole : block_of ip off ≡ 0) (h : IsFirst k.bufs j b0) where
  kept :
      (c : ℕ)
      → balloc k ≡ ok c (marked k j c (sb_ninodes (k.card 1)))
      → c ≢ 0
      → c ≢ iblock ip.inum
      → Kept i src dst off n c ip k (marked k j c (sb_ninodes (k.card 1)))
  kept c e ne apart =
      let k0 = marked k j c (sb_ninodes (k.card 1)) in
      let k0' = put_inode i (with_block ip off c) k0 in
      let c_at : block_of (with_block ip off c) off ≡ c = write_at ip.addrs (off / bsize) c in
      let (k1, k2, writes, reads, bytes, memory, in_block, card, inode) =
        readi-writei k0' i j src dst off n (with_block ip off c) _
          (get_elem?-set_self k0.inodes i (with_block ip off c) (lt_of_get_elem? k0.inodes i at))
          file (record { direct = w.direct; one_block = w.one_block; some_bytes = w.some_bytes })
          (λ z. ne (sym c_at ∙ z)) (λ z. apart (sym (z ∙ c_at)))
          (IsFirst-set k.bufs j b0 _ h refl) in
      record {
        written = k1;
        again = k2;
        writes =
            writei_new k i off ip at w.direct hole src n c k0 e at ne file w.some_bytes ∙ writes;
        reads = reads;
        bytes = bytes;
        memory = memory;
        card = λ s other own. card s (λ z. other (z ∙ c_at)) own;
        inode = inode;
      }

  -- A write to a block of a file that is not there yet: for a slot with a file's inode, `n` bytes (at
  -- least one) within one direct block that the inode does not have, a free buffer, and a bitmap that
  -- shows block 0 and the inode's own block in use. When the bitmap has no free block, `writei` panics.
  -- Else the lowest free block is the file's from then on, and marked: `writei` and then `readi` both
  -- return `n`, and the bytes read to `dst` are those that were at `src`; every other byte of memory,
  -- and the card but for that block and the inode's, are as `balloc` has left them.
  pub readi-writei_new :
      used k.card (sb_ninodes (k.card 1)) 0 ≡ true
      → used k.card (sb_ninodes (k.card 1)) (iblock ip.inum) ≡ true
      → ((writei i src off n k ≡ panicked Panic.balloc)
          × ((c : ℕ) → c < sb_size (k.card 1) → used k.card (sb_ninodes (k.card 1)) c ≡ true))
        ⊎ ((c : ℕ) × (used k.card (sb_ninodes (k.card 1)) c ≡ false)
            × ((a : ℕ) → a < c → used k.card (sb_ninodes (k.card 1)) a ≡ true)
            × Kept i src dst off n c ip k (marked k j c (sb_ninodes (k.card 1))))
  readi-writei_new boot own = elim (balloc_cases k j b0 h) [
    | inl (e, all) ↦ inl (writei_full k i off ip at w.direct hole src n e file w.some_bytes, all)
    | inr (c, lt, free, lowest, e) ↦
        inr (c, free, lowest, kept c e (in_use c free 0 boot) (in_use c free (iblock ip.inum) own))
  ]
    where
      in_use :
          (c : ℕ)
          → used k.card (sb_ninodes (k.card 1)) c ≡ false
          → (a : ℕ) → used k.card (sb_ninodes (k.card 1)) a ≡ true
          → c ≢ a
      in_use c free a here e =
          let both = sym here ∙ ap (used k.card (sb_ninodes (k.card 1))) (sym e) ∙ free in
          absurd (ground (arith, both))
