-- ===== src/Fs/Rw.antt =====
-- `readi` and `writei` of kernel/fs.c. Offsets and sizes are uints far
-- below 2^32, so their sums are not wrapped. A result -1 is 2^32 - 1; addresses are those of `Kmem`.
pub mod Copy
pub mod Contents
pub mod RoundTrip
pub mod NewBlock
use gcgos.Base.{
  ℕ, zero, suc, ◌+◌, ◌-◌, ◌*◌, ◌/◌, ◌%◌, ◌^◌, ◌&&◌, Bool, true, false, none, some, if◌then◌else◌,
  ◌==◌, leb, ltb, write, get32, put32, load8, store8, Bytes, Op, pure, modify, gets, stop, fault,
  Panic, ◌>>=◌, ◌>>◌, get_elem?,
}
use gcgos.Kernel.{Kernel, no_device, console_device, ndev, inode_at, put_inode}
use gcgos.Console.{console_read, console_write}
use gcgos.Fs.Bio.{buf_at, put_buf, bread, bwrite, brelse}
use gcgos.Fs.Layout.{bsize, ndirect, nindirect, t_dev, t_file}
use gcgos.Fs.Blocks.{balloc}
use gcgos.Fs.Inodes.{bmap, iupdate}

abbrev pub minus_one : ℕ
minus_one = 2 ^ 32 - 1

abbrev pub min : ℕ → ℕ → ℕ
min a b = if ltb a b then a else b

-- The entry of `devsw` for `ip->major`, a short: `none` where the code returns -1.
abbrev pub device : Kernel → ℕ → Bool
device k major = ltb major (2 ^ 15) && ltb major ndev && elim (get_elem? k.devsw major) [
  | none ↦ false
  | some no_device ↦ false
  | some console_device ↦ true
]

-- `*dst++ = *s++`, `n` times, from a buffer's bytes at `o` to memory at `dst`
unfoldable pub copy_out : (n o dst : ℕ) → Bytes → (ℕ → ℕ) → ℕ → ℕ
copy_out zero o dst m w = w
copy_out (suc n) o dst m w = copy_out n (o + 1) (dst + 1) m (store8 w dst (m o))

-- `*d++ = *s++`, `n` times, from memory at `src` to a buffer's bytes at `o`
unfoldable pub copy_in : (n src o : ℕ) → (ℕ → ℕ) → Bytes → Bytes
copy_in zero src o w m = m
copy_in (suc n) src o w m = copy_in n (src + 1) (o + 1) w (write m o (load8 w src))

-- The loop of `readi`, with `n` bytes to go. After the copy `dst` moves by `n1` once more.
readi_loop : (fuel i dst off n : ℕ) → Op Kernel ℕ
unfolding copy_out
readi_loop zero i dst off n = pure n
readi_loop (suc fuel) i dst off n = do
  ip ← inode_at i
  if ltb 0 n && ltb off ip.size
      then (do
        b ← bmap i (off / 512)
        bp ← bread b
        m ← buf_at bp
        let n1 = min (min n (ip.size - off)) (512 - off % 512)
        modify (λ k. record k {
          kmem = record k.kmem { word = copy_out n1 (off % 512) dst m.bytes k.kmem.word };
        })
        brelse bp
        readi_loop fuel i (dst + n1 + n1) (off + n1) (n - n1))
      else pure n

-- `readi`: every round reads at least a byte, so `n` rounds are enough.
unfoldable pub readi : (i xdist off n : ℕ) → Op Kernel ℕ
unfolding readi_loop
readi i xdist off n = do
  ip ← inode_at i
  ok_dev ← gets (λ k. device k ip.major)
  if ip.kind == t_dev
      then (if ok_dev then console_read ip.minor xdist n else pure minus_one)
      else (do left ← readi_loop n i xdist off n; pure (n - left))

-- `ip->addrs[j] = balloc(ip->dev)`
set_addr : (i j : ℕ) → Op Kernel (Unit {0})
set_addr i j = do
  b ← balloc
  ip ← inode_at i
  modify (put_inode i (record ip { addrs = write ip.addrs j b }))

-- `if (inp[j] == 0) inp[j] = balloc(ip->dev)` in the buffer `bp`; `inp` has 128 entries.
set_indirect : (bp j : ℕ) → Op Kernel (Unit {0})
set_indirect bp j = do
  m ← buf_at bp
  if leb nindirect j
      then fault
      else if get32 m.bytes (4 * j) == 0
      then (do
        b ← balloc
        m ← buf_at bp
        modify (put_buf bp (record m { bytes = put32 m.bytes (4 * j) b })))
      else pure tt

-- The head of a round of `writei`: the block of `lbn` is allocated if it is not there yet.
writei_block : (i lbn : ℕ) → Op Kernel (Unit {0})
unfolding set_addr set_indirect
writei_block i lbn = do
  ip ← inode_at i
  if ltb lbn ndirect
      then (if ip.addrs lbn == 0 then set_addr i lbn else pure tt)
      else if ltb nindirect (lbn - ndirect)
      then stop Panic.writei_maxfile
      else (do
        if ip.addrs ndirect == 0 then set_addr i ndirect else pure tt
        ip ← inode_at i
        bp ← bread (ip.addrs ndirect)
        set_indirect bp (lbn - ndirect)
        bwrite bp (ip.addrs ndirect)
        brelse bp)

-- The loop of `writei`; `left` is `n - r`, and the result is the final `off`.
writei_loop : (fuel i src off left : ℕ) → Op Kernel ℕ
unfolding writei_block copy_in
writei_loop zero i src off left = pure off
writei_loop (suc fuel) i src off left = if left == 0 then pure off else (do
  writei_block i (off / bsize)
  let m = min (bsize - off % bsize) left
  b ← bmap i (off / bsize)
  bp ← bread b
  d ← buf_at bp
  w ← gets (λ k. k.kmem.word)
  modify (put_buf bp (record d { bytes = copy_in m src (off % bsize) w d.bytes }))
  b ← bmap i (off / bsize)
  bwrite bp b
  brelse bp
  writei_loop fuel i (src + m) (off + m) (left - m))

-- `writei`: every round writes at least a byte, so `n` rounds are enough.
unfoldable pub writei : (i addr off n : ℕ) → Op Kernel ℕ
unfolding writei_loop
writei i addr off n = do
  ip ← inode_at i
  ok_dev ← gets (λ k. device k ip.major)
  if ip.kind == t_dev
      then (if ok_dev then console_write ip.minor addr n else pure minus_one)
      else if ip.kind == t_file
      then (do
        off' ← writei_loop n i addr off n
        ip ← inode_at i
        if ltb 0 n && ltb ip.size off'
            then modify (put_inode i (record ip { size = off' }))
            else pure tt
        iupdate i
        pure n)
      else stop Panic.writei_type
