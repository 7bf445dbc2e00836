-- ===== src/Fs/Rw/Contents.antt =====
-- `readi` and `writei` (kernel/fs.c) within one block that the file has.
use gcgos.Base.{
  ℕ, zero, suc, ◌+◌, ◌/◌, ◌%◌, ◌≤◌, ◌<◌, ◌≡◌, ◌≢◌, refl, true, false, if◌then◌else◌, ltb, arith,
  some, ok, write, Bytes, get_elem?, set, set-set, get_elem?-set_self, lt_of_get_elem?,
}
use gcgos.Kernel.{Buf, Inode, Kernel, put_inode}
use gcgos.Fs.Layout.{ndirect, t_dev, t_file, bsize}
use gcgos.Fs.Bio.{brelse, bwrite, put_buf}
use gcgos.Fs.Bio.Laws.{IsFirst, IsFirst-set, filled, bread-IsFirst}
use gcgos.Fs.Indirect.{bmap_direct}
use gcgos.Fs.Update.{updated, iupdate_lem}
use gcgos.Fs.Rw.{copy_out, copy_in, readi_loop, readi, writei_block, writei_loop, writei}

-- The bytes from `off` on, `n` of them, lie in one direct block of the inode.
pub record Within (ip : Inode) (off n : ℕ) : Type 0 where
  pub direct : off / bsize < ndirect
  pub one_block : off % bsize + n ≤ bsize
  pub some_bytes : 0 < n

abbrev pub block_of : Inode → ℕ → ℕ
block_of ip off = ip.addrs (off / bsize)

-- The kernel after `readi` of `n` bytes at `off` to `dst`, by way of buffer `j`.
abbrev pub read_to : Kernel → (j : ℕ) → Inode → (dst off n : ℕ) → Kernel
read_to k j ip dst off n =
    let m = k.card (block_of ip off) in
    record k {
      kmem = record k.kmem { word = copy_out n (off % bsize) dst m k.kmem.word };
      bufs = set k.bufs j (record { busy = false; bytes = m });
    }

readi_loop_done :
    (fuel i dst off : ℕ) (ip : Inode) (k : Kernel)
    → get_elem? k.inodes i ≡ some ip
    → readi_loop fuel i dst off 0 k ≡ ok 0 k
unfolding readi_loop
readi_loop_done zero i dst off ip k at = refl
readi_loop_done (suc fuel) i dst off ip k at = ground arith

readi_loop_one :
    (fuel i dst off n j : ℕ) (ip : Inode) (k : Kernel) (b0 : Buf)
    → get_elem? k.inodes i ≡ some ip
    → Within ip off n
    → off + n ≤ ip.size
    → IsFirst k.bufs j b0
    → readi_loop (suc fuel) i dst off n k ≡ ok 0 (read_to k j ip dst off n)
unfolding readi_loop brelse
readi_loop_one fuel i dst off n j ip k b0 at w fits h =
    let s = block_of ip off in
    ground (
      arith,
      bmap_direct k i ip at (off / bsize) w.direct,
      bread-IsFirst k s j b0 h,
      get_elem?-set_self k.bufs j (filled k s) (lt_of_get_elem? k.bufs j h.found),
      set-set k.bufs j (filled k s) (record { busy = false; bytes = k.card s }),
      readi_loop_done fuel i (dst + n + n) (off + n) ip (read_to k j ip dst off n) at,
    )

pub readi_lem :
    (i dst off n j : ℕ) (ip : Inode) (k : Kernel) (b0 : Buf)
    → get_elem? k.inodes i ≡ some ip
    → ip.kind ≢ t_dev
    → Within ip off n
    → off + n ≤ ip.size
    → IsFirst k.bufs j b0
    → readi i dst off n k ≡ ok n (read_to k j ip dst off n)
unfolding readi
readi_lem i dst off zero j ip k b0 at file w fits h = absurd (omega (arith, w.some_bytes))
readi_lem i dst off (suc n) j ip k b0 at file w fits h =
    ground (arith, readi_loop_one n i dst off (suc n) j ip k b0 at w fits h)

-- The block after `writei` of the `n` bytes at `src`.
abbrev pub new_block : Kernel → Inode → (src off n : ℕ) → Bytes
new_block k ip src off n = copy_in n src (off % bsize) k.kmem.word (k.card (block_of ip off))

abbrev pub written : Kernel → (j : ℕ) → Inode → (src off n : ℕ) → Kernel
written k j ip src off n =
    let m = new_block k ip src off n in
    record k {
      card = write k.card (block_of ip off) m;
      bufs = set k.bufs j (record { busy = false; bytes = m });
    }

writei_block_there :
    (i lbn : ℕ) (ip : Inode) (k : Kernel)
    → get_elem? k.inodes i ≡ some ip
    → lbn < ndirect
    → ip.addrs lbn ≢ 0
    → writei_block i lbn k ≡ ok tt k
unfolding writei_block
writei_block_there i lbn ip k at direct there = ground arith

writei_loop_done : (fuel i src off : ℕ) (k : Kernel) → writei_loop fuel i src off 0 k ≡ ok off k
unfolding writei_loop
writei_loop_done zero i src off k = refl
writei_loop_done (suc fuel) i src off k = refl

writei_loop_one :
    (fuel i src off n j : ℕ) (ip : Inode) (k : Kernel) (b0 : Buf)
    → get_elem? k.inodes i ≡ some ip
    → Within ip off n
    → block_of ip off ≢ 0
    → IsFirst k.bufs j b0
    → writei_loop (suc fuel) i src off n k ≡ ok (off + n) (written k j ip src off n)
unfolding writei_loop brelse bwrite
writei_loop_one fuel i src off n j ip k b0 at w there h =
    let s = block_of ip off in
    let full : Buf = record { busy = true; bytes = new_block k ip src off n } in
    let lt = lt_of_get_elem? k.bufs j h.found in
    ground (
      arith,
      writei_block_there i (off / bsize) ip k at w.direct there,
      bmap_direct k i ip at (off / bsize) w.direct,
      bmap_direct (put_buf j full k) i ip at (off / bsize) w.direct,
      bread-IsFirst k s j b0 h,
      get_elem?-set_self k.bufs j (filled k s) lt,
      get_elem?-set_self k.bufs j full lt,
      writei_loop_done fuel i (src + n) (off + n) (written k j ip src off n),
      set-set k.bufs j (filled k s) full,
      set-set k.bufs j full (record { busy = false; bytes = new_block k ip src off n }),
    )

-- The inode after `writei` up to `end`, and the kernel with it.
abbrev pub grown : Inode → (end : ℕ) → Inode
grown ip end = record ip { size = if ltb ip.size end then end else ip.size }

abbrev pub resized : Kernel → (i : ℕ) → Inode → (end : ℕ) → Kernel
resized k i ip end = if ltb ip.size end then put_inode i (record ip { size = end }) k else k

pub resized_at :
    (k : Kernel) (i : ℕ) (ip : Inode) (end : ℕ)
    → get_elem? k.inodes i ≡ some ip
    → get_elem? (resized k i ip end).inodes i ≡ some (grown ip end)
resized_at k i ip end at =
    let again =
      get_elem?-set_self k.inodes i (record ip { size = end }) (lt_of_get_elem? k.inodes i at) in
    ground (arith, again)

-- `resized` touches the inodes only.
pub resized_rest :
    (k : Kernel) (i : ℕ) (ip : Inode) (end : ℕ)
    → ((resized k i ip end).bufs ≡ k.bufs)
      × ((resized k i ip end).card ≡ k.card)
      × ((resized k i ip end).kmem ≡ k.kmem)
resized_rest k i ip end = (ground arith, ground arith, ground arith)

-- The kernel after `writei`.
abbrev pub saved : Kernel → (i j : ℕ) → Inode → (src off n : ℕ) → Kernel
saved k i j ip src off n =
    updated (resized (written k j ip src off n) i ip (off + n)) j (grown ip (off + n))

pub writei_lem :
    (i src off n j : ℕ) (ip : Inode) (k : Kernel) (b0 : Buf)
    → get_elem? k.inodes i ≡ some ip
    → ip.kind ≡ t_file
    → Within ip off n
    → block_of ip off ≢ 0
    → IsFirst k.bufs j b0
    → writei i src off n k ≡ ok n (saved k i j ip src off n)
unfolding writei
writei_lem i src off zero j ip k b0 at file w there h = absurd (omega (arith, w.some_bytes))
writei_lem i src off (suc n) j ip k b0 at file w there h =
    let k1 = written k j ip src off (suc n) in
    let k2 = resized k1 i ip (off + suc n) in
    let last : Buf = record { busy = false; bytes = new_block k ip src off (suc n) } in
    let free : IsFirst k2.bufs j last =
      rw (resized_rest k1 i ip (off + suc n)).0 (IsFirst-set k.bufs j b0 last h refl) in
    ground (
      arith,
      writei_loop_one n i src off (suc n) j ip k b0 at w there h,
      iupdate_lem k2 i j (grown ip (off + suc n)) last (resized_at k1 i ip (off + suc n) at) free,
    )
