-- ===== src/Fs/Inodes.antt =====
-- The inode table of kernel/fs.c. `inode_table_lock` is kept, since `sleep` is called under it.
-- The count of an inode is an int modulo 2^32, `nlink` a short modulo 2^16.
use gcgos.Base.{
  ℕ, zero, suc, ◌+◌, ◌-◌, ◌*◌, ◌&&◌, true, false, Option, none, some, List, [], ◌∷◌, if◌then◌else◌,
  ◌==◌, leb, ltb, Op, ok, spinning, pure, modify, gets, stop, fault, Panic, ◌>>=◌, ◌>>◌, get32,
  put16, put32, Bytes,
}
use gcgos.Kernel.{Inode, inode_slot, Kernel, positive, increment, decrement, inode_at, put_inode}
use gcgos.Sched.{sleep, wakeup}
use gcgos.Fs.Bio.{buf_at, put_buf, bread, bwrite, brelse}
use gcgos.Fs.Layout.{
  ndirect, iblock, sb_ninodes, dinode_at, dip_type, dip_major, dip_minor, dip_nlink, dip_size,
  dip_addr, put_dip_type,
}

-- `acquire(&inode_table_lock)` and `release`
unfoldable pub lock_table : Op Kernel (Unit {0})
lock_table k = if k.inode_table_lock then spinning else ok tt (record k { inode_table_lock = true })

unfoldable pub unlock_table : Op Kernel (Unit {0})
unlock_table = modify λ k. record k { inode_table_lock = false }

-- What the loop of `iget` meets first, with the free slot seen so far.
pub data Slot : Type 0 where
  held : ℕ → Slot  -- the inode is there, and busy
  idle : ℕ → Slot  -- the inode is there
  free : ℕ → Slot  -- it is not, and this slot is
  full : Slot

-- The loop of `iget`, from the slot at index `i` on.
iget_scan : (dev inum i : ℕ) → Option ℕ → List Inode → Slot
iget_scan dev inum i nip [] = elim nip [ none ↦ full | some j ↦ free j ]
iget_scan dev inum i nip (ip ∷ ips) =
    let fresh : Option ℕ = elim nip [
      | none ↦ if ip.count == 0 then some i else none
      | some j ↦ some j
    ] in
    let rest = iget_scan dev inum (i + 1) fresh ips in
    if positive 32 ip.count && ip.dev == dev && ip.inum == inum
    then if ip.busy then held i else idle i
    else rest

-- The last part of `iget`: the slot `j` is filled from the card.
unfoldable pub load_inode : (dev inum j : ℕ) → Op Kernel ℕ
load_inode dev inum j = do
  bp ← bread (iblock inum)
  m ← buf_at bp
  ip ← inode_at j
  modify (
      put_inode j (record ip {
        kind = dip_type m.bytes (dinode_at inum);
        major = dip_major m.bytes (dinode_at inum);
        minor = dip_minor m.bytes (dinode_at inum);
        nlink = dip_nlink m.bytes (dinode_at inum);
        size = dip_size m.bytes (dinode_at inum);
        addrs = λ i. if leb i ndirect then dip_addr m.bytes (dinode_at inum) i else ip.addrs i;
      }))
  brelse bp
  pure j

-- What `iget` does with the slot found, under the lock.
iget_slot : (dev inum : ℕ) → Slot → Op Kernel ℕ
unfolding load_inode
iget_slot dev inum (held i) = sleep (inode_slot i)
iget_slot dev inum (idle i) = do
  ip ← inode_at i
  modify (put_inode i (record ip { count = increment 32 ip.count; busy = true }))
  unlock_table
  pure i
iget_slot dev inum (free j) = do
  ip ← inode_at j
  modify (put_inode j (record ip { dev = dev; inum = inum; count = 1; busy = true }))
  unlock_table
  load_inode dev inum j
iget_slot dev inum full = stop Panic.iget

-- `iget`. A process that slept in it goes on in the loop, with the lock still held.
unfoldable pub iget : (dev inum : ℕ) → Op Kernel ℕ
unfolding iget_scan iget_slot
iget dev inum = do
  lock_table
  ips ← gets (λ k. k.inodes)
  iget_slot dev inum (iget_scan dev inum 0 none ips)

-- The loop of `ialloc`, from inode `inum` with `left = ninodes - inum` rounds to go. The result is
-- `inum`, `bp` and the offset of `dip`, which are those of the last round if none was free.
ialloc_scan : (left inum : ℕ) → Option (ℕ × ℕ) → Op Kernel (ℕ × Option (ℕ × ℕ))
ialloc_scan zero inum last = pure (inum, last)
ialloc_scan (suc left) inum last = do
  bp ← bread (iblock inum)
  m ← buf_at bp
  if dip_type m.bytes (dinode_at inum) == 0
      then pure (inum, some (bp, dinode_at inum))
      else (brelse bp >> ialloc_scan left (inum + 1) (some (bp, dinode_at inum)))

-- The inode found gets its type, on the card and then in the table.
ialloc_take : (dev kind inum : ℕ) → Option (ℕ × ℕ) → Op Kernel ℕ
ialloc_take dev kind inum none = fault
ialloc_take dev kind inum (some (bp, o)) = do
  m ← buf_at bp
  modify (put_buf bp (record m { bytes = put_dip_type m.bytes o kind }))
  bwrite bp (iblock inum)
  brelse bp
  iget dev inum

-- `ialloc`, which does not look whether it has found a free inode.
unfoldable pub ialloc : (dev kind : ℕ) → Op Kernel ℕ
unfolding ialloc_scan ialloc_take
ialloc dev kind = do
  bp ← bread 1
  sb ← buf_at bp
  brelse bp
  found ← ialloc_scan (sb_ninodes sb.bytes - 1) 1 none
  ialloc_take dev kind found.0 found.1

-- The fields that `iupdate` copies into the inode's place in the sector.
unfoldable pub put_dinode : ℕ → Inode → Bytes → Bytes
put_dinode o ip m =
    put32
      (put16 (put16 (put16 (put16 m o ip.kind) (o + 2) ip.major) (o + 4) ip.minor) (o + 6) ip.nlink)
      (o + 8) ip.size

-- `iupdate`, which does not write the block addresses.
unfoldable pub iupdate : ℕ → Op Kernel (Unit {0})
iupdate i = do
  ip ← inode_at i
  bp ← bread (iblock ip.inum)
  m ← buf_at bp
  modify (put_buf bp (record m { bytes = put_dinode (dinode_at ip.inum) ip m.bytes }))
  bwrite bp (iblock ip.inum)
  brelse bp

unfoldable pub ifree : ℕ → Op Kernel (Unit {0})
unfolding iupdate
ifree i = do ip ← inode_at i; modify (put_inode i (record ip { kind = 0 })); iupdate i

-- `ilock`: a busy inode is waited for with the lock held.
unfoldable pub ilock : ℕ → Op Kernel (Unit {0})
unfolding lock_table unlock_table
ilock i = do
  lock_table
  ip ← inode_at i
  if ip.busy
      then sleep (inode_slot i)
      else do modify (put_inode i (record ip { busy = true })); unlock_table

unfoldable pub iunlock : ℕ → Op Kernel (Unit {0})
unfolding lock_table unlock_table
iunlock i = do
  lock_table
  ip ← inode_at i
  modify (put_inode i (record ip { busy = false }))
  wakeup (inode_slot i)
  unlock_table

unfoldable pub iput : ℕ → Op Kernel (Unit {0})
unfolding lock_table unlock_table
iput i = do
  lock_table
  ip ← inode_at i
  modify (put_inode i (record ip { count = decrement 32 ip.count; busy = false }))
  wakeup (inode_slot i)
  unlock_table

unfoldable pub iincref : ℕ → Op Kernel (Unit {0})
unfolding lock_table unlock_table
iincref i = do
  lock_table
  ip ← inode_at i
  modify (put_inode i (record ip { count = increment 32 ip.count }))
  unlock_table

-- `bmap`. The indirect block is read through the `struct buf` itself, whose first word is `flags`
-- (B_BUSY, which is 1), and the buffer is not released.
unfoldable pub bmap : (i bn : ℕ) → Op Kernel ℕ
bmap i bn = do
  ip ← inode_at i
  if ltb bn ndirect then pure (ip.addrs bn) else do
    bp ← bread (ip.addrs ndirect)
    m ← buf_at bp
    if bn == ndirect
        then pure 1
        else if leb bn (ndirect + 128)
        then pure (get32 m.bytes (4 * (bn - ndirect - 1)))
        else fault
