-- ===== src/Fs/Rw/RoundTrip.antt =====
-- `readi` of what `writei` has written (kernel/fs.c).
use gcgos.Base.{
  among, load8-mod, write_at, write_ne, ℕ, ◌+◌, ◌-◌, ◌%◌, ◌<◌, ◌≡◌, ◌≢◌, refl, ◌∙◌, ap, sym, true,
  false, if◌then◌else◌, arith, some, ok, Bytes, load8, get_elem?,
}
use gcgos.Kernel.{Buf, Inode, Kernel}
use gcgos.Fs.Layout.{t_file, bsize, iblock, dinode_at}
use gcgos.Fs.Bio.Laws.{IsFirst, IsFirst-set}
use gcgos.Fs.Inodes.{put_dinode}
use gcgos.Fs.Rw.{readi, writei}
use gcgos.Fs.Rw.Copy.{copy_in_at, copy_out_at}
use gcgos.Fs.Rw.Contents.{
  Within, block_of, read_to, readi_lem, new_block, written, grown, resized, resized_at,
  resized_rest, saved, writei_lem,
}

module _ (k : Kernel) (i j src off n : ℕ) (ip : Inode) (b0 : Buf)
    (at : get_elem? k.inodes i ≡ some ip) (h : IsFirst k.bufs j b0)
    (apart : iblock ip.inum ≢ block_of ip off) where
  -- Of the card, `writei` changes the block, and the one with the inode.
  block_saved : (saved k i j ip src off n).card (block_of ip off) ≡ new_block k ip src off n
  block_saved =
      let k1 = written k j ip src off n in
      let k2 = resized k1 i ip (off + n) in
      write_ne k2.card (iblock ip.inum) (block_of ip off) _ (λ e. apart (sym e))
      ∙ ap (λ c. c (block_of ip off)) (resized_rest k1 i ip (off + n)).1
      ∙ write_at k.card (block_of ip off) (new_block k ip src off n)

  card_saved :
      (s : ℕ)
      → s ≢ block_of ip off
      → s ≢ iblock ip.inum
      → (saved k i j ip src off n).card s ≡ k.card s
  card_saved s ne ne' =
      let k1 = written k j ip src off n in
      let k2 = resized k1 i ip (off + n) in
      write_ne k2.card (iblock ip.inum) s _ ne'
      ∙ ap (λ c. c s) (resized_rest k1 i ip (off + n)).1
      ∙ write_ne k.card (block_of ip off) s (new_block k ip src off n) ne

  free_saved : (b : Buf) × IsFirst (saved k i j ip src off n).bufs j b
  free_saved =
      let k1 = written k j ip src off n in
      let k2 = resized k1 i ip (off + n) in
      let one : Buf = record { busy = false; bytes = new_block k ip src off n } in
      let two : Buf = record {
        busy = false;
        bytes = put_dinode (dinode_at ip.inum) (grown ip (off + n)) (k2.card (iblock ip.inum));
      } in
      let first : IsFirst k2.bufs j one =
        rw (resized_rest k1 i ip (off + n)).0 (IsFirst-set k.bufs j b0 one h refl) in
      (two, IsFirst-set k2.bufs j one two first refl)

-- A byte that went from memory `w` into the block `m` and out again.
copied :
    (w' w : ℕ → ℕ) (m : Bytes) (old dst src o n x : ℕ)
    → x < n
    → m (o + x) ≡ (if among o n (o + x) then load8 w (src + (o + x - o)) else old)
    → (if among dst n (dst + x) then m (o + (dst + x - dst)) % 256 else load8 w' (dst + x))
      ≡ load8 w (src + x)
copied w' w m old dst src o n x below at =
    let out : among dst n (dst + x) ≡ true = ground arith in
    let into : among o n (o + x) ≡ true = ground arith in
    let same : m (o + x) ≡ load8 w (src + x) =
      at ∙ rw into (ap (λ t. load8 w (src + t)) (omega arith)) in
    let here : dst + x - dst ≡ x = omega arith in rw (out, here, same) (load8-mod w (src + x))

-- A file's bytes are kept. For a slot with a file's inode, `n` bytes (at least one) within one direct
-- block that the file has and that is not the inode's own, and a free buffer: `writei` from `src` and
-- then `readi` to `dst` both return `n`, and the `n` bytes at `dst` are those that were at `src`; every
-- other byte of memory is as it was. Of the card nothing has changed but these bytes of the block and
-- the block with the inode, and the file's size is the greater of the old one and the end of what was
-- written.
pub readi-writei :
    (k : Kernel) (i j src dst off n : ℕ) (ip : Inode) (b0 : Buf)
    → get_elem? k.inodes i ≡ some ip
    → ip.kind ≡ t_file
    → Within ip off n
    → block_of ip off ≢ 0
    → iblock ip.inum ≢ block_of ip off
    → IsFirst k.bufs j b0
    → (k1 k2 : Kernel) × (writei i src off n k ≡ ok n k1)
      × (readi i dst off n k1 ≡ ok n k2)
      × ((x : ℕ) → x < n → load8 k2.kmem.word (dst + x) ≡ load8 k.kmem.word (src + x))
      × ((a : ℕ) → among dst n a ≡ false → load8 k2.kmem.word a ≡ load8 k.kmem.word a)
      × ((x : ℕ)
          → among (off % bsize) n x ≡ false
          → k2.card (block_of ip off) x ≡ k.card (block_of ip off) x)
      × ((s : ℕ) → s ≢ block_of ip off → s ≢ iblock ip.inum → k2.card s ≡ k.card s)
      × (get_elem? k2.inodes i ≡ some (grown ip (off + n)))
readi-writei k i j src dst off n ip b0 at file w there apart h =
    let k0 = written k j ip src off n in
    let k1 = saved k i j ip src off n in
    let o = off % bsize in
    let at1 = resized_at k0 i ip (off + n) at in
    let (b1, h1) = free_saved k i j src off n ip b0 at h apart in
    let in_block : (x : ℕ)
        → k1.card (block_of ip off) x ≡ (
            if among o n x then load8 k.kmem.word (src + (x - o)) else k.card (block_of ip off) x) =
      λ x.
        ap (λ m. m x) (block_saved k i j src off n ip b0 at h apart)
        ∙ copy_in_at n src o k.kmem.word (k.card (block_of ip off)) x in
    let same_words : k1.kmem.word ≡ k.kmem.word =
      ap (λ m. m.word) (resized_rest k0 i ip (off + n)).2 in
    (
      k1,
      read_to k1 j (grown ip (off + n)) dst off n,
      writei_lem i src off n j ip k b0 at file w there h,
      readi_lem i dst off n j (grown ip (off + n)) k1 b1 at1 (λ e. absurd (omega arith))
          (record { direct = w.direct; one_block = w.one_block; some_bytes = w.some_bytes })
          (ground arith) h1,
      λ x below.
          copy_out_at n o dst (k1.card (block_of ip off)) k1.kmem.word (dst + x)
          ∙ copied k1.kmem.word k.kmem.word (k1.card (block_of ip off))
              (k.card (block_of ip off) (o + x)) dst src o n x below (in_block (o + x)),
      λ a out.
          copy_out_at n o dst (k1.card (block_of ip off)) k1.kmem.word a
          ∙ rw out (ap (λ w. load8 w a) same_words),
      λ x out. in_block x ∙ rw out refl,
      λ s ne ne'. card_saved k i j src off n ip b0 at h apart s ne ne',
      at1,
    )
