-- ===== src/Mkfs/Inode.antt =====
-- The inodes that mkfs writes, as mkfs and the kernel read them.
use gcgos.Base.{
  ℕ, ◌+◌, ◌-◌, ◌*◌, ◌≤◌, ◌<◌, ◌≡◌, ◌≢◌, refl, true, false, ◌&&◌, arith, ap, sym, ◌∙◌, ok, ltb, leb,
  ◌==◌, Bytes, write, some, get16, get32, get_elem?, set, get_elem?-set_self, lt_of_get_elem?,
  Bool-cases, inl, inr,
}
use gcgos.Kernel.{Inode, Buf, Kernel}
use gcgos.Fs.Layout.{
  ndirect, iblock, dinode_at, dinode_size, dip_addr, dip_type, dip_major, dip_minor, dip_nlink,
  dip_size,
}
use gcgos.Fs.Bio.Laws.{IsFirst}
use gcgos.Fs.Inodes.{load_inode}
use gcgos.Fs.Update.{loaded, load_inode_lem}
use gcgos.Mkfs.{Image, overlay, i2b, wsect, rsect, winode, rinode, din_size, din_addr}

pub overlay_inside : (at n a : ℕ) (src dst : Bytes) → a < n → overlay at n src dst (at + a) ≡ src a
overlay_inside at n a src dst h =
    let e : at + a - at ≡ a = omega arith in
    let l : leb at (at + a) ≡ true = ground arith in
    let r : ltb (at + a) (at + n) ≡ true = ground arith in rw (l, r) (ap src e)

overlay_outside :
    (at n a : ℕ) (src dst : Bytes)
    → leb at a && ltb a (at + n) ≡ false
    → overlay at n src dst a ≡ dst a
overlay_outside at n a src dst h = rw h refl

overlay_at :
    (at n t i : ℕ) (src dst : Bytes) → t + i < n → overlay at n src dst (at + t + i) ≡ src (t + i)
overlay_at at n t i src dst h =
    let e : at + t + i ≡ at + (t + i) = omega arith in
    ap (overlay at n src dst) e ∙ overlay_inside at n (t + i) src dst h

-- The fields are sums of bytes.
get16_eq :
    (m m' : Bytes) (o o' : ℕ) → m o ≡ m' o' → m (o + 1) ≡ m' (o' + 1) → get16 m o ≡ get16 m' o'
unfolding get16
get16_eq m m' o o' e f = omega (arith, e, f)

get32_eq :
    (m m' : Bytes) (o o' : ℕ)
    → m o ≡ m' o'
    → m (o + 1) ≡ m' (o' + 1)
    → m (o + 2) ≡ m' (o' + 2)
    → m (o + 3) ≡ m' (o' + 3)
    → get32 m o ≡ get32 m' o'
unfolding get32
get32_eq m m' o o' e f g h = omega (arith, e, f, g, h)

get16-overlay :
    (at n t : ℕ) (src dst : Bytes) → t + 1 < n → get16 (overlay at n src dst) (at + t) ≡ get16 src t
get16-overlay at n t src dst h =
    get16_eq (overlay at n src dst) src (at + t) t (overlay_inside at n t src dst (omega arith))
      (overlay_at at n t 1 src dst h)

get32-overlay :
    (at n t : ℕ) (src dst : Bytes) → t + 3 < n → get32 (overlay at n src dst) (at + t) ≡ get32 src t
get32-overlay at n t src dst h =
    get32_eq (overlay at n src dst) src (at + t) t (overlay_inside at n t src dst (omega arith))
      (overlay_at at n t 1 src dst (omega arith)) (overlay_at at n t 2 src dst (omega arith))
      (overlay_at at n t 3 src dst h)

-- The image after `winode`.
abbrev pub with_inode : ℕ → Bytes → Image → Image
with_inode inum din s = record s {
  card = write s.card (i2b inum) (overlay (dinode_at inum) dinode_size din (s.card (i2b inum)));
  sectors = s.sectors;
}

pub winode_lem :
    (inum : ℕ) (din : Bytes) (s : Image)
    → i2b inum < s.sectors
    → winode inum din s ≡ ok tt (with_inode inum din s)
unfolding winode rsect wsect
winode_lem inum din s h = ground arith

-- The kernel's inode has the fields of the bytes of a `struct dinode`.
pub record SameInode (din : Bytes) (ip : Inode) : Type 0 where
  pub kind : ip.kind ≡ get16 din 0
  pub major : ip.major ≡ get16 din 2
  pub minor : ip.minor ≡ get16 din 4
  pub nlink : ip.nlink ≡ get16 din 6
  pub size : ip.size ≡ din_size din
  pub addrs : (n : ℕ) → n ≤ ndirect → ip.addrs n ≡ din_addr din n

pub loaded-SameInode :
    (inum : ℕ) (din : Bytes) (s : Image) (old : Inode)
    → SameInode din (loaded (with_inode inum din s).card inum old)
loaded-SameInode inum din s old =
    let o = dinode_at inum in
    let m = overlay o dinode_size din (s.card (i2b inum)) in
    let e : write s.card (i2b inum) m (iblock inum) ≡ m = ground arith in
    let zero_off : o ≡ o + 0 = omega arith in
    record {
      kind =
          ap (λ m. dip_type m o) e
          ∙ ap (get16 m) zero_off
          ∙ get16-overlay o dinode_size 0 din (s.card (i2b inum)) (omega arith);
      major =
          ap (λ m. dip_major m o) e
          ∙ get16-overlay o dinode_size 2 din (s.card (i2b inum)) (omega arith);
      minor =
          ap (λ m. dip_minor m o) e
          ∙ get16-overlay o dinode_size 4 din (s.card (i2b inum)) (omega arith);
      nlink =
          ap (λ m. dip_nlink m o) e
          ∙ get16-overlay o dinode_size 6 din (s.card (i2b inum)) (omega arith);
      size =
          ap (λ m. dip_size m o) e
          ∙ get32-overlay o dinode_size 8 din (s.card (i2b inum)) (omega arith);
      addrs = λ n le.
          let t : leb n ndirect ≡ true = ground arith in
          let a : o + 12 + 4 * n ≡ o + (12 + 4 * n) = omega arith in
          rw t (
            ap (λ m. dip_addr m o n) e
            ∙ ap (get32 m) a
            ∙ get32-overlay o dinode_size (12 + 4 * n) din (s.card (i2b inum)) (omega arith));
    }

-- On an image that reaches beyond the inode's sector, `winode` succeeds; and on a card with that image
-- the kernel, with a free buffer, loads into a slot the inode written: type, numbers, link count, size
-- and all the block addresses.
pub load_inode-winode :
    (inum : ℕ) (din : Bytes) (s : Image) (k : Kernel) (dev x j : ℕ) (old : Inode) (b : Buf)
    → i2b inum < s.sectors
    → k.card ≡ (with_inode inum din s).card
    → get_elem? k.inodes x ≡ some old
    → IsFirst k.bufs j b
    → (k' : Kernel) × (new : Inode) × (winode inum din s ≡ ok tt (with_inode inum din s))
      × (load_inode dev inum x k ≡ ok x k')
      × (get_elem? k'.inodes x ≡ some new)
      × SameInode din new
load_inode-winode inum din s k dev x j old b reach same at h = (
  record k {
    inodes = set k.inodes x (loaded k.card inum old);
    bufs = set k.bufs j (record { busy = false; bytes = k.card (iblock inum) });
  },
  loaded k.card inum old,
  winode_lem inum din s reach,
  load_inode_lem k dev inum x j old b at h,
  get_elem?-set_self k.inodes x _ (lt_of_get_elem? k.inodes x at),
  rw same (loaded-SameInode inum din s old),
)

-- `rinode` on an image that reaches beyond the inode's sector.
pub rinode_lem :
    (inum : ℕ) (s : Image)
    → i2b inum < s.sectors
    → rinode inum s ≡ ok (λ a. s.card (i2b inum) (dinode_at inum + a)) s
unfolding rinode rsect
rinode_lem inum s h = ground arith

-- The bytes of one inode are outside those of another in the same sector.
dinodes_apart :
    (inum other a : ℕ)
    → inum ≢ other
    → i2b inum ≡ i2b other
    → a < dinode_size
    → leb (dinode_at inum) (dinode_at other + a)
        && ltb (dinode_at other + a) (dinode_at inum + dinode_size)
      ≡ false
dinodes_apart inum other a ne same h = ground arith

-- On an image that reaches beyond the sectors of two different inodes, `winode` of the one succeeds. Then `rinode`
-- gives for it the bytes written, and for the other, which may lie in the same sector, the bytes that it
-- gave before.
pub rinode-winode :
    (inum other : ℕ) (din : Bytes) (s : Image)
    → inum ≢ other
    → i2b inum < s.sectors
    → i2b other < s.sectors
    → (s' : Image) × (own before after : Bytes) × (winode inum din s ≡ ok tt s')
      × (rinode inum s' ≡ ok own s')
      × ((a : ℕ) → a < dinode_size → own a ≡ din a)
      × (rinode other s ≡ ok before s)
      × (rinode other s' ≡ ok after s')
      × ((a : ℕ) → a < dinode_size → after a ≡ before a)
rinode-winode inum other din s ne reach reach' =
    let s' = with_inode inum din s in
    let m = overlay (dinode_at inum) dinode_size din (s.card (i2b inum)) in
    let here : write s.card (i2b inum) m (i2b inum) ≡ m = ground arith in
    (
      s',
      λ a. s'.card (i2b inum) (dinode_at inum + a),
      λ a. s.card (i2b other) (dinode_at other + a),
      λ a. s'.card (i2b other) (dinode_at other + a),
      winode_lem inum din s reach,
      rinode_lem inum s' reach,
      λ a h.
          ap (λ m. m (dinode_at inum + a)) here
          ∙ overlay_inside (dinode_at inum) dinode_size a din (s.card (i2b inum)) h,
      rinode_lem other s reach',
      rinode_lem other s' reach',
      λ a h. elim (Bool-cases (i2b other == i2b inum)) [
        | inr far ↦ ground arith
        | inl near ↦
            let e : i2b inum ≡ i2b other = ground arith in
            ap (λ x. write s.card (i2b inum) m x (dinode_at other + a)) (sym e)
            ∙ ap (λ m. m (dinode_at other + a)) here
            ∙ overlay_outside (dinode_at inum) dinode_size (dinode_at other + a) din
                (s.card (i2b inum)) (dinodes_apart inum other a ne e h)
            ∙ ap (λ x. s.card x (dinode_at other + a)) e
      ],
    )
