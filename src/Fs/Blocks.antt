-- ===== src/Fs/Blocks.antt =====
-- `balloc` and `bfree` of kernel/fs.c: the bitmap of used blocks.
pub mod Bits
pub mod Alloc
pub mod Free
pub mod Refine
use gcgos.Base.{
  ℕ, zero, suc, ◌+◌, ◌-◌, ◌/◌, ◌%◌, ◌^◌, Bool, if◌then◌else◌, ◌==◌, leb, write, Bytes, Op, pure,
  modify, stop, Panic, ◌>>=◌, ◌>>◌,
}
use gcgos.Kernel.{Buf, Kernel}
use gcgos.Fs.Bio.{buf_at, put_buf, bread, bwrite, brelse}
use gcgos.Fs.Layout.{bpb, bblock, sb_size, sb_ninodes}

-- `data[bi / 8] & (1 << (bi % 8))` is not 0.
abbrev pub bit_is_set : Bytes → ℕ → Bool
bit_is_set m bi = m (bi / 8) / 2 ^ (bi % 8) % 2 == 1

-- `data[bi / 8] |= 1 << (bi % 8)`
abbrev pub set_bit : Bytes → ℕ → Bytes
set_bit m bi = write m (bi / 8) (if bit_is_set m bi then m (bi / 8) else m (bi / 8) + 2 ^ (bi % 8))

-- `data[bi / 8] &= ~(1 << (bi % 8))`
abbrev pub clear_bit : Bytes → ℕ → Bytes
clear_bit m bi =
    write m (bi / 8) (if bit_is_set m bi then m (bi / 8) - 2 ^ (bi % 8) else m (bi / 8))

-- The head of a round of the loop of `balloc`: at each new bitmap sector the buffer changes.
bitmap_for : (b ninodes bp : ℕ) → Op Kernel ℕ
bitmap_for b ninodes bp = if b % bpb == 0 then (do brelse bp; bread (bblock b ninodes)) else pure bp

-- The loop of `balloc` with `left = size - b` rounds to go; the result is `b` and `bp`.
balloc_scan : (left b ninodes bp : ℕ) → Op Kernel (ℕ × ℕ)
unfolding bitmap_for
balloc_scan zero b ninodes bp = pure (b, bp)
balloc_scan (suc left) b ninodes bp = do
  bp ← bitmap_for b ninodes bp
  m ← buf_at bp
  if bit_is_set m.bytes (b % bpb) then balloc_scan left (b + 1) ninodes bp else pure (b, bp)

-- The end of `balloc`: block `b` is marked in the buffer and on the card.
unfoldable pub mark_block : (b bp ninodes : ℕ) → Op Kernel ℕ
mark_block b bp ninodes = do
  m ← buf_at bp
  modify (put_buf bp (record m { bytes = set_bit m.bytes (b % bpb) }))
  bwrite bp (bblock b ninodes)
  brelse bp
  pure b

unfoldable pub balloc : Op Kernel ℕ
unfolding balloc_scan mark_block
balloc = do
  bp ← bread 1
  sb ← buf_at bp
  found ← balloc_scan (sb_size sb.bytes) 0 (sb_ninodes sb.bytes) bp
  if leb (sb_size sb.bytes) found.0
      then stop Panic.balloc
      else mark_block found.0 found.1 (sb_ninodes sb.bytes)

unfoldable pub bfree : ℕ → Op Kernel (Unit {0})
bfree b = do
  bp ← bread 1
  sb ← buf_at bp
  brelse bp
  bp ← bread (bblock b (sb_ninodes sb.bytes))
  m ← buf_at bp
  modify (put_buf bp (record m { bytes = clear_bit m.bytes (b % bpb) }))
  bwrite bp (bblock b (sb_ninodes sb.bytes))
  brelse bp
