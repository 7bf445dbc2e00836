-- ===== src/Mkfs/Append.antt =====
-- A file that mkfs appends to an empty inode, as the kernel reads it.
use gcgos.Base.{
  if◌then◌else◌, some, get16, get32, get32-put32_self, put32_above, put32_below, load8, among,
  get_elem?, set, get_elem?-set_self, lt_of_get_elem?, write_at, write_ne, ℕ, zero, suc, ◌+◌, ◌-◌,
  ◌*◌, ◌/◌, ◌%◌, ◌≤◌, ◌<◌, ◌≡◌, ◌≢◌, refl, ◌∙◌, ap, sym, true, false, ◌==◌, ltb, arith, ok, write,
  Bytes, put32,
}
use gcgos.Kernel.{Buf, Inode, Kernel}
use gcgos.Fs.Layout.{bsize, dinode_at, iblock, t_dev}
use gcgos.Fs.Bio.Laws.{IsFirst, IsFirst-set}
use gcgos.Fs.Inodes.{load_inode}
use gcgos.Fs.Update.{loaded, load_inode_lem}
use gcgos.Fs.Rw.{min, readi}
use gcgos.Fs.Rw.Copy.{copy_out_at}
use gcgos.Fs.Rw.Contents.{block_of, read_to, readi_lem}
use gcgos.Mkfs.{
  Image, overlay, i2b, wsect, rsect, din_size, din_addr, set_din_addr, take_block, addr_block,
  block_for, append_loop, iappend,
}
use gcgos.Mkfs.Inode.{
  rinode_lem, winode_lem, with_inode, SameInode, loaded-SameInode, overlay_inside,
}

-- The image after the block `f` has been taken and given the `n` bytes.
abbrev pub with_block : (xp : Bytes) → (n : ℕ) → Image → Image
with_block xp n s = record s {
  card = write s.card s.freeblock (overlay 0 n (λ a. xp (0 + a)) (s.card s.freeblock));
  sectors = s.sectors;
  freeblock = s.freeblock + 1;
  usedblocks = s.usedblocks + 1;
}

append_loop_done :
    (fuel : ℕ) (xp : Bytes) (p off : ℕ) (din : Bytes) (s : Image)
    → append_loop fuel xp 0 p off din s ≡ ok (din, off) s
unfolding append_loop
append_loop_done zero xp p off din s = refl
append_loop_done (suc fuel) xp p off din s = refl

block_for_first :
    (din : Bytes) (s : Image)
    → din_addr din 0 ≡ 0
    → block_for 0 din s
      ≡ ok
          (set_din_addr 0 s.freeblock din, s.freeblock)
          (record s { freeblock = s.freeblock + 1; usedblocks = s.usedblocks + 1 })
unfolding block_for addr_block take_block
block_for_first din s empty = rw empty refl

append_loop_one :
    (fuel : ℕ) (xp : Bytes) (n : ℕ) (din : Bytes) (s : Image)
    → 0 < n
    → n ≤ bsize
    → din_addr din 0 ≡ 0
    → s.freeblock < s.sectors
    → append_loop (suc fuel) xp n 0 0 din s
      ≡ ok (set_din_addr 0 s.freeblock din, n) (with_block xp n s)
unfolding append_loop rsect wsect
append_loop_one fuel xp n din s some_bytes fits empty there =
    let going : n == 0 ≡ false = ground arith in
    let all : min n ((0 / bsize + 1) * bsize - 0) ≡ n = ground arith in
    let inside : ltb s.freeblock s.sectors ≡ true = ground arith in
    let none_left : n - n ≡ 0 = omega arith in
    let end : 0 + n ≡ n = omega arith in
    rw (going, block_for_first din s empty, all, inside, none_left, end, inside)
      (append_loop_done fuel xp n n (set_din_addr 0 s.freeblock din) (with_block xp n s))

-- The bytes of the inode before, and after `iappend`.
abbrev pub din_before : (inum : ℕ) → Image → Bytes
din_before inum s a = s.card (i2b inum) (dinode_at inum + a)

abbrev pub din_after : (inum n : ℕ) → Image → Bytes
din_after inum n s = put32 (set_din_addr 0 s.freeblock (din_before inum s)) 8 n

-- An empty inode in an image that reaches beyond it and the next free block, which is not its sector.
pub record Empty (inum : ℕ) (s : Image) : Type 0 where
  pub no_size : din_size (din_before inum s) ≡ 0
  pub no_block : din_addr (din_before inum s) 0 ≡ 0
  pub there : i2b inum < s.sectors
  pub room : s.freeblock < s.sectors
  pub apart : i2b inum ≢ s.freeblock

iappend_lem :
    (inum : ℕ) (xp : Bytes) (n : ℕ) (s : Image)
    → 0 < n
    → n ≤ bsize
    → Empty inum s
    → iappend inum xp n s ≡ ok tt (with_inode inum (din_after inum n s) (with_block xp n s))
unfolding iappend
iappend_lem inum xp zero s some_bytes fits e = absurd (omega arith)
iappend_lem inum xp (suc n) s some_bytes fits e =
    rw
      (
        rinode_lem inum s e.there,
        e.no_size,
        append_loop_one n xp (suc n) (din_before inum s) s some_bytes fits e.no_block e.room,
      )
      (winode_lem inum (din_after inum (suc n) s) (with_block xp (suc n) s) e.there)

-- The size, the block and the type of the inode as written.
after_size : (inum n : ℕ) (s : Image) → n ≤ bsize → din_size (din_after inum n s) ≡ n
after_size inum n s fits =
    get32-put32_self (set_din_addr 0 s.freeblock (din_before inum s)) 8 n (omega arith)

after_block :
    (inum n : ℕ) (s : Image)
    → s.freeblock < 4294967296
    → din_addr (din_after inum n s) 0 ≡ s.freeblock
unfolding get32
after_block inum n s fits =
    let m = set_din_addr 0 s.freeblock (din_before inum s) in
    omega (
      arith,
      get32-put32_self (din_before inum s) 12 s.freeblock fits,
      put32_above m 8 n 12 (omega arith),
      put32_above m 8 n 13 (omega arith),
      put32_above m 8 n 14 (omega arith),
      put32_above m 8 n 15 (omega arith),
    )

after_kind : (inum n : ℕ) (s : Image) → get16 (din_after inum n s) 0 ≡ get16 (din_before inum s) 0
unfolding get16
after_kind inum n s =
    let b = din_before inum s in
    let m = set_din_addr 0 s.freeblock b in
    omega (
      arith,
      put32_below m 8 n 0 (omega arith),
      put32_below m 8 n 1 (omega arith),
      put32_below b 12 s.freeblock 0 (omega arith),
      put32_below b 12 s.freeblock 1 (omega arith),
    )

-- The image after `iappend`.
abbrev pub appended : (inum : ℕ) → (xp : Bytes) → (n : ℕ) → Image → Image
appended inum xp n s = with_inode inum (din_after inum n s) (with_block xp n s)

read_byte :
    (m old xp : Bytes) (other n dst a : ℕ)
    → a < n
    → m ≡ overlay 0 n (λ b. xp (0 + b)) old
    → (if among dst n (dst + a) then m (0 + (dst + a - dst)) % 256 else other) ≡ xp a % 256
read_byte m old xp other n dst a below at =
    let inside : among dst n (dst + a) ≡ true = ground arith in
    let here : 0 + (dst + a - dst) ≡ 0 + a = omega arith in
    let from_zero : 0 + a ≡ a = omega arith in
    rw (inside, here)
      (ap (λ f. f (0 + a) % 256) at
        ∙ ap (λ y. y % 256) (overlay_inside 0 n a (λ b. xp (0 + b)) old below)
        ∙ ap (λ y. xp y % 256) from_zero)

-- What mkfs appends the kernel reads. For an inode that is empty and no device, in an image with a next
-- free block of which the number fits its field (`Empty`), and at most a block of bytes and at least
-- one, `iappend` succeeds; and on a card with that image, with a free buffer, the kernel loads the
-- inode into a slot, and `readi` of as many bytes from 0 on to `dst` returns their number: at `dst` are
-- the bytes given to `iappend`, modulo 256, and all other memory is as it was.
pub readi-iappend :
    (inum : ℕ) (xp : Bytes) (n : ℕ) (s : Image) (k : Kernel) (dev x j dst : ℕ) (old : Inode)
    (b : Buf)
    → 0 < n
    → n ≤ bsize
    → Empty inum s
    → s.freeblock < 4294967296
    → get16 (din_before inum s) 0 ≢ t_dev
    → k.card ≡ (appended inum xp n s).card
    → get_elem? k.inodes x ≡ some old
    → IsFirst k.bufs j b
    → (k1 k2 : Kernel) × (iappend inum xp n s ≡ ok tt (appended inum xp n s))
      × (load_inode dev inum x k ≡ ok x k1)
      × (readi x dst 0 n k1 ≡ ok n k2)
      × ((a : ℕ) → a < n → load8 k2.kmem.word (dst + a) ≡ xp a % 256)
      × ((a : ℕ) → among dst n a ≡ false → load8 k2.kmem.word a ≡ load8 k.kmem.word a)
readi-iappend inum xp n s k dev x j dst old b some_bytes fits e small file same at h =
    let new = loaded k.card inum old in
    let full : Buf = record { busy = false; bytes = k.card (iblock inum) } in
    let k1 : Kernel = record k { inodes = set k.inodes x new; bufs = set k.bufs j full } in
    let m = k1.card (block_of new 0) in
    let is : SameInode (din_after inum n s) new =
      rw same (loaded-SameInode inum (din_after inum n s) (with_block xp n s) old) in
    let block : block_of new 0 ≡ s.freeblock =
      is.addrs 0 (omega arith) ∙ after_block inum n s small in
    let size : new.size ≡ n = is.size ∙ after_size inum n s fits in
    let bytes : m ≡ overlay 0 n (λ a. xp (0 + a)) (s.card s.freeblock) =
      ap (λ c. c (block_of new 0)) same
      ∙ ap (appended inum xp n s).card block
      ∙ write_ne (with_block xp n s).card (i2b inum) s.freeblock _ (λ d. e.apart (sym d))
      ∙ write_at s.card s.freeblock _ in
    (
      k1,
      read_to k1 j new dst 0 n,
      iappend_lem inum xp n s some_bytes fits e,
      load_inode_lem k dev inum x j old b at h,
      readi_lem x dst 0 n j new k1 full
          (get_elem?-set_self k.inodes x new (lt_of_get_elem? k.inodes x at))
          (λ d. file (sym (is.kind ∙ after_kind inum n s) ∙ d))
          (record { direct = omega arith; one_block = omega arith; some_bytes = some_bytes })
          (omega (arith, size)) (IsFirst-set k.bufs j b full h refl),
      λ a lt.
          copy_out_at n 0 dst m k.kmem.word (dst + a)
          ∙ read_byte m (s.card s.freeblock) xp (load8 k.kmem.word (dst + a)) n dst a lt bytes,
      λ a out. copy_out_at n 0 dst m k.kmem.word a ∙ rw out refl,
    )
