-- ===== src/Fs/Dirs/Made.antt =====
-- `namei` finds what `mknod` has made (kernel/fs.c), in a directory's first block.
use gcgos.Base.{
  ℕ, zero, suc, ◌≤◌, Option, ◌+◌, ◌/◌, ◌<◌, ◌≡◌, ◌≢◌, ◌∙◌, sym, ap, refl, false, none, some, List,
  [], arith, ok, write, write_at, write_ne, get_elem?, set, set-set, get_elem?-set_self, Bytes,
  get_elem?-set_ne, lt_of_get_elem?,
}
use native.Mathlib.Numerals.{add-one}
use gcgos.Kernel.{Buf, Inode, Kernel, put_inode}
use gcgos.Fs.Layout.{bsize, dirent_size, iblock, dinode_at}
use gcgos.Fs.Bio.{brelse, bwrite, put_buf}
use gcgos.Fs.Bio.Laws.{IsFirst, IsFirst-set, filled, bread-IsFirst}
use gcgos.Fs.Inodes.{bmap, ialloc, put_dinode}
use gcgos.Fs.Update.{updated, iupdate_lem}
use gcgos.Fs.Dirs.{
  find_in_block, find_in_sector, find_in_dir, free_entry, free_in_dir, enter_name, mknod,
}
use gcgos.Fs.Dirs.Entry.{with_entry}
use gcgos.Fs.Dirs.Match.{component, NoNul}
use gcgos.Fs.Dirs.Search.{IsNew, find_in_block-with_entry, find_in_block-other}

bmap_first :
    (k : Kernel) (dp : ℕ) (dir : Inode)
    → get_elem? k.inodes dp ≡ some dir
    → bmap dp 0 k ≡ ok (dir.addrs 0) k
unfolding bmap
bmap_first k dp dir at = ground (arith, at)

module _ (k : Kernel) (dp j : ℕ) (dir : Inode) (b : Buf) (at : get_elem? k.inodes dp ≡ some dir)
    (used : 0 < dir.size) (free : IsFirst k.bufs j b) where
  free_in_dir_first :
      (fuel o : ℕ)
      → free_entry 32 0 (k.card (dir.addrs 0)) ≡ some o
      → free_in_dir (suc fuel) dp 0 k ≡ ok (0, j, o) (put_buf j (filled k (dir.addrs 0)) k)
  unfolding free_in_dir
  free_in_dir_first fuel o e =
      let s = dir.addrs 0 in
      ground (
        arith,
        at,
        bmap_first k dp dir at,
        bread-IsFirst k s j b free,
        get_elem?-set_self k.bufs j (filled k s) (lt_of_get_elem? k.bufs j free.found),
        e,
      )

  find_in_sector_first :
      (cp : List ℕ)
      → find_in_sector dp 0 cp k
        ≡ ok
            (find_in_block 32 0 (k.card (dir.addrs 0)) cp)
            (put_buf j (record (filled k (dir.addrs 0)) { busy = false }) k)
  unfolding find_in_sector brelse
  find_in_sector_first cp =
      let s = dir.addrs 0 in
      ground (
        arith,
        bmap_first k dp dir at,
        bread-IsFirst k s j b free,
        get_elem?-set_self k.bufs j (filled k s) (lt_of_get_elem? k.bufs j free.found),
        set-set k.bufs j (filled k s) (record (filled k s) { busy = false }),
      )

  find_in_dir_first :
      (fuel : ℕ) (cp : List ℕ) (found : ℕ × List ℕ)
      → find_in_block 32 0 (k.card (dir.addrs 0)) cp ≡ some found
      → find_in_dir (suc fuel) dp 0 cp k
        ≡ ok (some found) (put_buf j (record (filled k (dir.addrs 0)) { busy = false }) k)
  unfolding find_in_dir
  find_in_dir_first fuel cp found e = ground (arith, at, find_in_sector_first cp, e)

  find_in_dir_behind :
      (fuel : ℕ) (cp : List ℕ) (k' : Kernel)
      → get_elem? k'.inodes dp ≡ some dir
      → dir.size ≤ bsize
      → find_in_dir fuel dp bsize cp k' ≡ ok none k'
  unfolding find_in_dir
  find_in_dir_behind zero cp k' here small = refl
  find_in_dir_behind (suc fuel) cp k' here small = ground (arith, here, small)

  -- The search of a directory of one block is that of the block.
  find_in_dir_small :
      (fuel : ℕ) (cp : List ℕ) (r : Option (ℕ × List ℕ))
      → find_in_block 32 0 (k.card (dir.addrs 0)) cp ≡ r
      → dir.size ≤ bsize
      → find_in_dir (suc fuel) dp 0 cp k
        ≡ ok r (put_buf j (record (filled k (dir.addrs 0)) { busy = false }) k)
  unfolding find_in_dir
  find_in_dir_small fuel cp none e small =
      let k' = put_buf j (record (filled k (dir.addrs 0)) { busy = false }) k in
      ground (arith, at, find_in_sector_first cp, e, find_in_dir_behind fuel cp k' at small)
  find_in_dir_small fuel cp (some found) e small = find_in_dir_first fuel cp found e

  -- The sector, the buffer and the directory after the entry is made.
  abbrev block_made : (o inum : ℕ) → List ℕ → Kernel
  block_made o inum path =
      let s = dir.addrs 0 in
      let m = with_entry o inum path (k.card s) in
      record k {
        card = write k.card s m;
        bufs = set k.bufs j (record { busy = false; bytes = m });
        inodes = set k.inodes dp (record dir { size = dir.size + dirent_size });
      }

  enter_name_lem :
      (i o : ℕ) (ip : Inode) (path : List ℕ)
      → get_elem? k.inodes i ≡ some ip
      → free_entry 32 0 (k.card (dir.addrs 0)) ≡ some o
      → enter_name dp i path k
        ≡ ok tt
            (updated (block_made o ip.inum path) j (record dir { size = dir.size + dirent_size }))
  unfolding enter_name bwrite brelse
  enter_name_lem i o ip path here e =
      let s = dir.addrs 0 in
      let m = with_entry o ip.inum path (k.card s) in
      let lt = lt_of_get_elem? k.bufs j free.found in
      let k' = block_made o ip.inum path in
      let grown =
        get_elem?-set_self k.inodes dp (record dir { size = dir.size + dirent_size })
          (lt_of_get_elem? k.inodes dp at) in
      ground (
        arith,
        at,
        here,
        add-one (dir.size / bsize),
        free_in_dir_first (dir.size / bsize) o e,
        bmap_first (put_buf j (record (filled k s) { bytes = m }) (put_buf j (filled k s) k)) dp dir
            at,
        get_elem?-set_self k.bufs j (filled k s) lt,
        get_elem?-set_self k.bufs j (record (filled k s) { bytes = m }) lt,
        set-set k.bufs j (filled k s) (record (filled k s) { bytes = m }),
        set-set k.bufs j (record (filled k s) { bytes = m }) (record { busy = false; bytes = m }),
        iupdate_lem k' dp j _ _ grown (IsFirst-set k.bufs j b _ free refl),
      )

-- What a directory of size `size` gives for the name `path` and for the others, when its first block,
-- at sector `s`, was `m` before.
pub record Entered (s inum : ℕ) (path : List ℕ) (m : Bytes) (dp size : ℕ) (k : Kernel)
    : Type 0 where
  pub found : (k' : Kernel) × (find_in_dir (size / bsize + 1) dp 0 path k ≡ ok (some (inum, [])) k')
  pub others :
      (cp : List ℕ)
      → NoNul cp
      → component cp ≢ path
      → find_in_block 32 0 (k.card s) cp ≡ find_in_block 32 0 m cp
  pub others_in_dir :
      size ≤ bsize
      → (cp : List ℕ) → NoNul cp
      → component cp ≢ path
      → (k' : Kernel) × (find_in_dir (size / bsize + 1) dp 0 cp k ≡ ok (find_in_block 32 0 m cp) k')

module _ (k : Kernel) (dp i j o : ℕ) (dir ip : Inode) (b : Buf) (path : List ℕ)
    (at : get_elem? k.inodes dp ≡ some dir) (here : get_elem? k.inodes i ≡ some ip)
    (used : 0 < dir.size) (free : IsFirst k.bufs j b) (apart : dir.addrs 0 ≢ iblock dir.inum)
    (e : free_entry 32 0 (k.card (dir.addrs 0)) ≡ some o)
    (new : IsNew o ip.inum path (k.card (dir.addrs 0)))
    (unknown : find_in_block 32 0 (k.card (dir.addrs 0)) path ≡ none) where
  grown : Inode
  grown = record dir { size = dir.size + dirent_size }

  named : Kernel
  named = updated (block_made k dp j dir b at used free o ip.inum path) j grown

  named_block : named.card (dir.addrs 0) ≡ with_entry o ip.inum path (k.card (dir.addrs 0))
  unfolding named grown
  named_block =
      write_ne (write k.card (dir.addrs 0) (with_entry o ip.inum path (k.card (dir.addrs 0)))) _
        (dir.addrs 0) _ apart
      ∙ write_at k.card (dir.addrs 0) _

  named_at : get_elem? named.inodes dp ≡ some grown
  unfolding named grown
  named_at = get_elem?-set_self k.inodes dp grown (lt_of_get_elem? k.inodes dp at)

  -- The block of the directory's inode.
  dir_block : Bytes
  dir_block =
      let k' = block_made k dp j dir b at used free o ip.inum path in
      put_dinode (dinode_at grown.inum) grown (k'.card (iblock grown.inum))

  named_free : IsFirst named.bufs j (record { busy = false; bytes = dir_block })
  unfolding named grown dir_block
  named_free = IsFirst-set _ j _ _ (IsFirst-set k.bufs j b _ free refl) refl

  named_search :
      find_in_dir ((dir.size + dirent_size) / bsize + 1) dp 0 path named
      ≡ ok
          (some (ip.inum, []))
          (put_buf j (record (filled named (dir.addrs 0)) { busy = false }) named)
  unfolding named grown
  named_search = rw (add-one ((dir.size + dirent_size) / bsize)) (
      find_in_dir_first named dp j grown _ named_at (omega arith) named_free
        ((dir.size + dirent_size) / bsize) path (ip.inum, [])
        (ap (λ m. find_in_block 32 0 m path) named_block
          ∙ find_in_block-with_entry 32 0 o ip.inum path (k.card (dir.addrs 0)) new e unknown))

  named_others :
      (cp : List ℕ)
      → NoNul cp
      → component cp ≢ path
      → find_in_block 32 0 (named.card (dir.addrs 0)) cp
        ≡ find_in_block 32 0 (k.card (dir.addrs 0)) cp
  named_others cp n ne =
      ap (λ m. find_in_block 32 0 m cp) named_block
      ∙ find_in_block-other 32 0 o ip.inum path cp (k.card (dir.addrs 0)) new n ne e

  named_search_others :
      dir.size + dirent_size ≤ bsize
      → (cp : List ℕ) → NoNul cp
      → component cp ≢ path
      → find_in_dir ((dir.size + dirent_size) / bsize + 1) dp 0 cp named
        ≡ ok
            (find_in_block 32 0 (k.card (dir.addrs 0)) cp)
            (put_buf j (record (filled named (dir.addrs 0)) { busy = false }) named)
  unfolding grown
  named_search_others small cp n ne = rw (add-one ((dir.size + dirent_size) / bsize)) (
      find_in_dir_small named dp j grown _ named_at (omega arith) named_free
        ((dir.size + dirent_size) / bsize) cp _ (named_others cp n ne) small)

  enter_name-Entered :
      (k' : Kernel) × (enter_name dp i path k ≡ ok tt k')
      × Entered (dir.addrs 0) ip.inum path (k.card (dir.addrs 0)) dp (dir.size + dirent_size) k'
  unfolding named grown
  enter_name-Entered = (
    named,
    enter_name_lem k dp j dir b at used free i o ip path here e,
    record {
      found =
          (put_buf j (record (filled named (dir.addrs 0)) { busy = false }) named, named_search);
      others = named_others;
      others_in_dir = λ small cp n ne. (_, named_search_others small cp n ne);
    },
  )

-- `mknod`, from a state in which `ialloc` gives inode `i`: the directory is not empty, a buffer is
-- free, the directory's first block is the block of neither inode on the card, it has a free entry
-- with a blank name, and does not have the name yet, which is at most 14 characters without NUL and
-- slash; the inode's number is a positive ushort. Then `mknod` returns `i`, and `namei`'s search of the
-- directory finds the inode's number under the name, with nothing left of the path. Every other name
-- gives in the directory's first block what it gave there before; and if the directory, grown by one
-- entry, is not longer than this block, then `namei`'s search of the directory gives this too.
pub find_in_dir-mknod :
    (k k1 : Kernel) (dp i j o kind major minor : ℕ) (old dir ip : Inode) (b : Buf) (path : List ℕ)
    → get_elem? k.inodes dp ≡ some old
    → ialloc old.dev kind k ≡ ok i k1
    → get_elem? k1.inodes dp ≡ some dir
    → get_elem? k1.inodes i ≡ some ip
    → i ≢ dp
    → 0 < dir.size
    → IsFirst k1.bufs j b
    → dir.addrs 0 ≢ iblock dir.inum
    → dir.addrs 0 ≢ iblock ip.inum
    → free_entry 32 0 (k1.card (dir.addrs 0)) ≡ some o
    → IsNew o ip.inum path (k1.card (dir.addrs 0))
    → find_in_block 32 0 (k1.card (dir.addrs 0)) path ≡ none
    → (k2 : Kernel) × (mknod dp path kind major minor k ≡ ok i k2)
      × Entered (dir.addrs 0) ip.inum path (k1.card (dir.addrs 0)) dp (dir.size + dirent_size) k2
unfolding mknod
find_in_dir-mknod k k1 dp i j o kind major minor old dir ip b path was alloc at here ne used free
      apart far e new unknown =
    let ip' = record ip { major = major; minor = minor; size = 0; nlink = 0 } in
    let kA = put_inode i ip' k1 in
    let kB = updated kA j ip' in
    let block : kB.card (dir.addrs 0) ≡ k1.card (dir.addrs 0) =
      write_ne k1.card _ (dir.addrs 0) _ far in
    let here' = get_elem?-set_self k1.inodes i ip' (lt_of_get_elem? k1.inodes i here) in
    let at' = get_elem?-set_ne k1.inodes i dp ip' ne ∙ at in
    let free' = IsFirst-set k1.bufs j b _ free refl in
    let (k2, run, entered) =
      enter_name-Entered kB dp i j o dir ip' _ path at' here' used free' apart (rw block e)
        (rw block new) (rw block unknown) in
    (
      k2,
      ground (arith, was, alloc, here, iupdate_lem kA i j ip' b here' free, run),
      rw (sym block) entered,
    )
