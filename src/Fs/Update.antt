-- ===== src/Fs/Update.antt =====
-- `iupdate` and the reload of `iget` (kernel/fs.c): what of an inode reaches the card.
use gcgos.Base.{
  ℕ, ◌+◌, ◌*◌, ◌^◌, ◌≤◌, ◌<◌, ◌≡◌, ◌⊎◌, refl, true, false, some, arith, ok, if◌then◌else◌, leb,
  write, Bytes, get16, get32, put16, put32, get_elem?, set, set-set, get_elem?-set_self,
  lt_of_get_elem?, ap, ◌∙◌, ◌>>◌,
}
use gcgos.Kernel.{Buf, Inode, Kernel}
use gcgos.Fs.Layout.{
  ndirect, iblock, dinode_at, dip_type, dip_major, dip_minor, dip_nlink, dip_size, dip_addr,
}
use gcgos.Fs.Bio.{brelse, bwrite}
use gcgos.Fs.Bio.Laws.{IsFirst, IsFirst-set, filled, bread-IsFirst}
use gcgos.Fs.Inodes.{put_dinode, iupdate, load_inode}

-- The fields fit their types.
pub record InRange (ip : Inode) : Type 0 where
  pub kind : ip.kind < 2 ^ 16
  pub major : ip.major < 2 ^ 16
  pub minor : ip.minor < 2 ^ 16
  pub nlink : ip.nlink < 2 ^ 16
  pub size : ip.size < 2 ^ 32

-- A byte outside the twelve that are written stays.
pub put_dinode_other :
    (o : ℕ) (ip : Inode) (m : Bytes) (a : ℕ) → (a < o) ⊎ (o + 12 ≤ a) → put_dinode o ip m a ≡ m a
unfolding put_dinode put16 put32
put_dinode_other o ip m a h = ground arith

put_dinode_shorts :
    (o : ℕ) (ip : Inode) (m : Bytes)
    → InRange ip
    → (dip_type (put_dinode o ip m) o ≡ ip.kind)
      × (dip_major (put_dinode o ip m) o ≡ ip.major)
      × (dip_minor (put_dinode o ip m) o ≡ ip.minor)
      × (dip_nlink (put_dinode o ip m) o ≡ ip.nlink)
      × (dip_size (put_dinode o ip m) o ≡ ip.size)
unfolding put_dinode put16 put32 get16 get32
put_dinode_shorts o ip m r = (
  ground (arith, r.kind),
  ground (arith, r.major),
  ground (arith, r.minor),
  ground (arith, r.nlink),
  ground (arith, r.size),
)

-- The block addresses lie behind the twelve bytes.
put_dinode_addrs :
    (o : ℕ) (ip : Inode) (m : Bytes) (i : ℕ) → dip_addr (put_dinode o ip m) o i ≡ dip_addr m o i
unfolding get32
put_dinode_addrs o ip m i = ground (
  arith,
  put_dinode_other o ip m (o + 12 + 4 * i),
  put_dinode_other o ip m (o + 12 + 4 * i + 1),
  put_dinode_other o ip m (o + 12 + 4 * i + 2),
  put_dinode_other o ip m (o + 12 + 4 * i + 3),
)

-- The kernel after `iupdate` of inode `ip` by way of buffer `j`.
abbrev pub updated : Kernel → (j : ℕ) → Inode → Kernel
updated k j ip =
    let m = put_dinode (dinode_at ip.inum) ip (k.card (iblock ip.inum)) in
    record k {
      card = write k.card (iblock ip.inum) m;
      bufs = set k.bufs j (record { busy = false; bytes = m });
    }

pub iupdate_lem :
    (k : Kernel) (i j : ℕ) (ip : Inode) (b : Buf)
    → get_elem? k.inodes i ≡ some ip
    → IsFirst k.bufs j b
    → iupdate i k ≡ ok tt (updated k j ip)
unfolding iupdate bwrite brelse
iupdate_lem k i j ip b at h =
    let s = iblock ip.inum in
    let m = put_dinode (dinode_at ip.inum) ip (k.card s) in
    let full : Buf = record { busy = true; bytes = m } in
    let lt = lt_of_get_elem? k.bufs j h.found in
    ground (
      arith,
      bread-IsFirst k s j b h,
      get_elem?-set_self k.bufs j (filled k s) lt,
      get_elem?-set_self k.bufs j full lt,
      set-set k.bufs j (filled k s) full,
      set-set k.bufs j full (record { busy = false; bytes = m }),
    )

-- The inode that `iget` builds in slot `x` from the card.
abbrev pub loaded : (card : ℕ → Bytes) → (inum : ℕ) → Inode → Inode
loaded card inum old =
    let m = card (iblock inum) in
    let o = dinode_at inum in
    record old {
      kind = dip_type m o;
      major = dip_major m o;
      minor = dip_minor m o;
      nlink = dip_nlink m o;
      size = dip_size m o;
      addrs = λ i. if leb i ndirect then dip_addr m o i else old.addrs i;
    }

pub load_inode_lem :
    (k : Kernel) (dev inum x j : ℕ) (old : Inode) (b : Buf)
    → get_elem? k.inodes x ≡ some old
    → IsFirst k.bufs j b
    → load_inode dev inum x k
      ≡ ok x (record k {
        inodes = set k.inodes x (loaded k.card inum old);
        bufs = set k.bufs j (record { busy = false; bytes = k.card (iblock inum) });
      })
unfolding load_inode brelse
load_inode_lem k dev inum x j old b at h =
    let s = iblock inum in
    let lt = lt_of_get_elem? k.bufs j h.found in
    ground (
      arith,
      bread-IsFirst k s j b h,
      get_elem?-set_self k.bufs j (filled k s) lt,
      at,
      set-set k.bufs j (filled k s) (record { busy = false; bytes = k.card s }),
    )

-- The fields of an inode that a reload gives.
pub record Reloaded (card : ℕ → Bytes) (ip new : Inode) : Type 0 where
  pub kind : new.kind ≡ ip.kind
  pub major : new.major ≡ ip.major
  pub minor : new.minor ≡ ip.minor
  pub nlink : new.nlink ≡ ip.nlink
  pub size : new.size ≡ ip.size
  pub addrs :
      (n : ℕ) → n ≤ ndirect → new.addrs n ≡ dip_addr (card (iblock ip.inum)) (dinode_at ip.inum) n

loaded-Reloaded :
    (k : Kernel) (j : ℕ) (ip old : Inode)
    → InRange ip
    → Reloaded k.card ip (loaded (updated k j ip).card ip.inum old)
loaded-Reloaded k j ip old r =
    let o = dinode_at ip.inum in
    let m = k.card (iblock ip.inum) in
    let f = put_dinode_shorts o ip m r in
    let w = write k.card (iblock ip.inum) (put_dinode o ip m) in
    let e : w (iblock ip.inum) ≡ put_dinode o ip m = ground arith in
    record {
      kind = ap (λ m. dip_type m o) e ∙ f.0;
      major = ap (λ m. dip_major m o) e ∙ f.1;
      minor = ap (λ m. dip_minor m o) e ∙ f.2;
      nlink = ap (λ m. dip_nlink m o) e ∙ f.3;
      size = ap (λ m. dip_size m o) e ∙ f.4;
      addrs = λ n le.
          let t : leb n ndirect ≡ true = ground arith in
          rw t (ap (λ m. dip_addr m o n) e ∙ put_dinode_addrs o ip m n);
    }

-- With a free buffer, and the inode's fields in the range of their C types: what `iupdate` writes
-- is what `iget` reads when it fills a slot anew. Type, numbers, link count and size come back; the
-- block addresses are those that the card had before.
pub load_inode-iupdate :
    (k : Kernel) (dev i x j : ℕ) (ip old : Inode) (b : Buf)
    → get_elem? k.inodes i ≡ some ip
    → get_elem? k.inodes x ≡ some old
    → IsFirst k.bufs j b
    → InRange ip
    → (k' : Kernel) × (new : Inode) × ((iupdate i >> load_inode dev ip.inum x) k ≡ ok x k')
      × (get_elem? k'.inodes x ≡ some new)
      × Reloaded k.card ip new
load_inode-iupdate k dev i x j ip old b at slot h r =
    let k1 = updated k j ip in
    let m = put_dinode (dinode_at ip.inum) ip (k.card (iblock ip.inum)) in
    let again = IsFirst-set k.bufs j b (record { busy = false; bytes = m }) h refl in
    (
      record k1 {
        inodes = set k.inodes x (loaded k1.card ip.inum old);
        bufs = set k1.bufs j (record { busy = false; bytes = k1.card (iblock ip.inum) });
      },
      loaded k1.card ip.inum old,
      rw (iupdate_lem k i j ip b at h) (load_inode_lem k1 dev ip.inum x j old _ slot again),
      get_elem?-set_self k.inodes x _ (lt_of_get_elem? k.inodes x slot),
      loaded-Reloaded k j ip old r,
    )
