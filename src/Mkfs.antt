-- ===== src/Mkfs.antt =====
-- mkfs/mkfs.c, the tool that makes the file system's image: a directory and the files given to it.
-- The image is the sectors written so far; `lseek` and `write` are taken to succeed, and a `read`
-- succeeds up to the image's end. Sector numbers are far below 2^23, and `printf` is left out.
pub mod Make
pub mod Bitmap
pub mod Inode
pub mod Append
pub mod Tests
use gcgos.Base.{
  ℕ, zero, suc, ◌+◌, ◌-◌, ◌*◌, ◌/◌, ◌%◌, ◌^◌, ◌&&◌, Bool, true, false, Option, none, some, List, [],
  ◌∷◌, if◌then◌else◌, ◌==◌, ltb, leb, length, Bytes, write, put16, get32, put32, Op, Panic, pure,
  modify, gets, stop, fault, ◌>>=◌, ◌>>◌,
}
use gcgos.Fs.Layout.{
  bsize, ndirect, nindirect, dirsiz, t_dir, t_file, dinode_size, ipb, dirent_size,
}
use gcgos.Fs.Blocks.{set_bit}
use gcgos.Fs.Rw.{min}

-- The variables `nblocks`, `ninodes` and `size`.
abbrev pub nblocks : ℕ
nblocks = 2011

abbrev pub ninodes : ℕ
ninodes = 100

abbrev pub size : ℕ
size = 2048

-- The image, `sectors` long, and the counters.
pub record Image : Type 0 where
  pub card : ℕ → Bytes
  pub sectors : ℕ
  pub freeblock : ℕ
  pub usedblocks : ℕ
  pub freeinode : ℕ

unfoldable pub wsect : ℕ → Bytes → Op Image (Unit {0})
wsect sec buf = modify λ s. record s {
  card = write s.card sec buf;
  sectors = if ltb sec s.sectors then s.sectors else sec + 1;
}

unfoldable pub rsect : ℕ → Op Image Bytes
rsect sec s = if ltb sec s.sectors then pure (s.card sec) s else stop Panic.mkfs_rsect s

abbrev pub i2b : ℕ → ℕ
i2b inum = inum / ipb + 2

-- `n` bytes of `src` over those of `dst` from `at` on: a struct's assignment, and `bcopy`.
abbrev pub overlay : (at n : ℕ) → (src dst : Bytes) → Bytes
overlay at n src dst a = if leb at a && ltb a (at + n) then src (a - at) else dst a

-- A `struct dinode` is its 140 bytes.
unfoldable pub winode : ℕ → Bytes → Op Image (Unit {0})
unfolding wsect rsect
winode inum din = do
  buf ← rsect (i2b inum)
  wsect (i2b inum) (overlay (inum % ipb * dinode_size) dinode_size din buf)

unfoldable pub rinode : ℕ → Op Image Bytes
unfolding rsect
rinode inum = do buf ← rsect (i2b inum); pure (λ a. buf (inum % ipb * dinode_size + a))

-- The fields of a `struct dinode`.
abbrev pub din_size : Bytes → ℕ
din_size din = get32 din 8

abbrev pub din_addr : Bytes → ℕ → ℕ
din_addr din i = get32 din (12 + 4 * i)

abbrev pub set_din_addr : ℕ → ℕ → Bytes → Bytes
set_din_addr i b din = put32 din (12 + 4 * i) b

-- `bzero`, and the fields that `ialloc` sets.
unfoldable pub new_dinode : ℕ → Bytes
new_dinode kind = put32 (put16 (put16 (λ _. 0) 0 kind) 6 1) 8 0

unfoldable pub ialloc : ℕ → Op Image ℕ
unfolding winode new_dinode
ialloc kind = do
  inum ← gets (λ s. s.freeinode)
  modify (λ s. record s { freeinode = inum + 1 })
  winode inum (new_dinode kind)
  pure inum

-- The loop of `balloc`, with `left` blocks to go from `i` on.
unfoldable pub bits_from : (left i : ℕ) → Bytes → Bytes
bits_from zero i m = m
bits_from (suc left) i m = bits_from left (i + 1) (set_bit m i)

-- `balloc`; the buffer has 512 bytes.
unfoldable pub balloc : ℕ → Op Image (Unit {0})
unfolding bits_from wsect
balloc used = if ltb 4096 used then fault else wsect (ninodes / ipb + 3) (bits_from used 0 (λ _. 0))

-- `freeblock++` and `usedblocks++`
unfoldable pub take_block : Op Image ℕ
take_block = do
  b ← gets (λ s. s.freeblock)
  modify (λ s. record s { freeblock = b + 1; usedblocks = s.usedblocks + 1 })
  pure b

-- `din.addrs[i]`, which is set if it is 0: the new `din` and the block.
unfoldable pub addr_block : ℕ → Bytes → Op Image (Bytes × ℕ)
unfolding take_block
addr_block i din =
    if din_addr din i == 0
    then (do b ← take_block; pure (set_din_addr i b din, b))
    else pure (din, din_addr din i)

-- `inp[j]` in the indirect block `ind`, which is set if it is 0 and written back.
unfoldable pub indirect_block : (ind j : ℕ) → Op Image ℕ
unfolding take_block rsect wsect
indirect_block ind j = do
  buf ← rsect ind
  if get32 buf (4 * j) == 0
      then (do b ← take_block; wsect ind (put32 buf (4 * j) b); pure b)
      else (do wsect ind buf; pure (get32 buf (4 * j)))

-- The first part of a round of `iappend`: the new `din` and `wbn`.
unfoldable pub block_for : ℕ → Bytes → Op Image (Bytes × ℕ)
unfolding addr_block indirect_block
block_for fbn din =
    if ltb fbn ndirect
    then addr_block fbn din
    else if leb nindirect (fbn - ndirect)
    then stop Panic.mkfs_assert
    else (do
      (din, ind) ← addr_block ndirect din
      wbn ← indirect_block ind (fbn - ndirect)
      pure (din, wbn))

-- The loop of `iappend` with `n` bytes to go, from byte `p` of `xp` to offset `off`: the final `din`
-- and `off`. Every round writes at least a byte.
unfoldable pub append_loop :
    (fuel : ℕ) → (xp : Bytes) → (n p off : ℕ) → Bytes → Op Image (Bytes × ℕ)
unfolding block_for rsect wsect
append_loop zero xp n p off din = pure (din, off)
append_loop (suc fuel) xp n p off din = if n == 0 then pure (din, off) else (do
  (din, wbn) ← block_for (off / bsize) din
  let n1 = min n ((off / bsize + 1) * bsize - off)
  buf ← rsect wbn
  wsect wbn (overlay (off % bsize) n1 (λ a. xp (p + a)) buf)
  append_loop fuel xp (n - n1) (p + n1) (off + n1) din)

unfoldable pub iappend : (inum : ℕ) → (xp : Bytes) → (n : ℕ) → Op Image (Unit {0})
unfolding rinode winode append_loop
iappend inum xp n = do
  din ← rinode inum
  (din, off) ← append_loop n xp n 0 (din_size din) din
  winode inum (put32 din 8 off)
