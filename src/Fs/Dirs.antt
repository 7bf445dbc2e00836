-- ===== src/Fs/Dirs.antt =====
-- `namei` and `mknod` of kernel/fs.c. A path is the list of its bytes before the NUL.
pub mod Match
pub mod Entry
pub mod Search
pub mod Made
pub mod Tests
use gcgos.Base.{
  ℕ, zero, suc, ◌+◌, ◌*◌, ◌/◌, ◌%◌, ◌^◌, Bool, true, false, Option, none, some, List, [], ◌∷◌,
  if◌then◌else◌, ◌==◌, ltb, write, put16, Bytes, Op, pure, modify, gets, stop, Panic, ◌>>=◌, ◌>>◌,
  length,
}
use gcgos.Kernel.{Inode, Kernel, inode_at, put_inode}
use gcgos.Fs.Bio.{buf_at, put_buf, bread, bwrite, brelse}
use gcgos.Fs.Layout.{bsize, dirsiz, dirent_size, de_inum, t_dir}
use gcgos.Fs.Inodes.{iget, iput, ialloc, iupdate, bmap}

-- `while (*cp == '/') cp++`
unfoldable pub skip_slashes : List ℕ → List ℕ
skip_slashes [] = []
skip_slashes (c ∷ cp) = let rest = skip_slashes cp in if c == b'/' then rest else c ∷ cp

-- The comparison of a component with the name at offset `o`, `left` characters of which remain.
-- The result is the path behind the component, where the entry is that of the component.
unfoldable pub match_name : (left o : ℕ) → Bytes → List ℕ → Option (List ℕ)
match_name zero o m [] = some []
match_name zero o m (c ∷ cp) = if c == b'/' then some (c ∷ cp) else none
match_name (suc left) o m [] = if m o == 0 then some [] else none
match_name (suc left) o m (c ∷ cp) =
    let rest = match_name left (o + 1) m cp in
    if c == b'/'
    then (if m o == 0 then some (c ∷ cp) else none)
    else if c == m o
    then rest
    else none

-- The loop of `namei` over the entries of a block, from offset `o` with `left` entries to go: the
-- inode number of the component and the path behind it.
unfoldable pub find_in_block : (left o : ℕ) → Bytes → List ℕ → Option (ℕ × List ℕ)
unfolding match_name
find_in_block zero o m cp = none
find_in_block (suc left) o m cp =
    let rest = find_in_block left (o + dirent_size) m cp in
    if de_inum m o == 0
    then rest
    else elim (match_name dirsiz (o + 2) m cp) [ none ↦ rest | some cp' ↦ some (de_inum m o, cp') ]

-- The entries of the directory's block at `off`.
unfoldable pub find_in_sector : (dp off : ℕ) → List ℕ → Op Kernel (Option (ℕ × List ℕ))
find_in_sector dp off cp = do
  b ← bmap dp (off / bsize)
  bp ← bread b
  m ← buf_at bp
  brelse bp
  pure (find_in_block 32 0 m.bytes cp)

-- The loop of `namei` over the blocks of the directory `dp`.
unfoldable pub find_in_dir : (fuel dp off : ℕ) → List ℕ → Op Kernel (Option (ℕ × List ℕ))
unfolding find_in_sector
find_in_dir zero dp off cp = pure none
find_in_dir (suc fuel) dp off cp = do
  ip ← inode_at dp
  if ltb off ip.size
      then (do
        found ← find_in_sector dp off cp
        elim found [ none ↦ find_in_dir fuel dp (off + bsize) cp | some next ↦ pure (some next) ])
      else pure none

-- The end of a round of `namei`: the directory is put back, and the inode found is taken up.
namei_next : (ℕ → List ℕ → Op Kernel (Option ℕ)) → ℕ → Option (ℕ × List ℕ) → Op Kernel (Option ℕ)
unfolding skip_slashes
namei_next loop dp none = iput dp >> pure none
namei_next loop dp (some (ninum, cp)) = do
  iput dp
  ip ← inode_at dp
  dp ← iget ip.dev ninum
  loop dp (skip_slashes cp)

-- The outer loop of `namei`; `none` is the result 0.
namei_loop : (fuel dp : ℕ) → List ℕ → Op Kernel (Option ℕ)
unfolding find_in_dir namei_next
namei_loop zero dp cp = pure none
namei_loop (suc fuel) dp [] = pure (some dp)
namei_loop (suc fuel) dp (c ∷ cp) = do
  ip ← inode_at dp
  if ip.kind == t_dir
      then (do
        found ← find_in_dir (ip.size / bsize + 1) dp 0 (c ∷ cp)
        namei_next (namei_loop fuel) dp found)
      else (iput dp >> pure none)

-- `namei`: every round uses up a character, so one more than the path has are enough.
unfoldable pub namei : List ℕ → Op Kernel (Option ℕ)
unfolding namei_loop
namei path = do
  dev ← gets (λ k. k.rootdev)
  dp ← iget dev 1
  namei_loop (length path + 1) dp (skip_slashes path)

-- The first free entry of a block.
unfoldable pub free_entry : (left o : ℕ) → Bytes → Option ℕ
free_entry zero o m = none
free_entry (suc left) o m =
    let rest = free_entry left (o + dirent_size) m in if de_inum m o == 0 then some o else rest

-- `for (i = 0; i < DIRSIZ && path[i]; i++) ep->name[i] = path[i]`
unfoldable pub put_name : (left o : ℕ) → List ℕ → Bytes → Bytes
put_name zero o path m = m
put_name (suc left) o [] m = m
put_name (suc left) o (c ∷ path) m = put_name left (o + 1) path (write m o c)

-- The loop of `mknod` over the directory: the block's offset, the buffer and the entry's offset.
unfoldable pub free_in_dir : (fuel dp off : ℕ) → Op Kernel (ℕ × ℕ × ℕ)
free_in_dir zero dp off = stop Panic.mknod
free_in_dir (suc fuel) dp off = do
  ip ← inode_at dp
  if ltb off ip.size
      then (do
        b ← bmap dp (off / bsize)
        bp ← bread b
        m ← buf_at bp
        elim (free_entry 32 0 m.bytes) [
          | none ↦ (brelse bp >> free_in_dir fuel dp (off + bsize))
          | some o ↦ pure (off, bp, o)
        ])
      else stop Panic.mknod

-- The part of `mknod` that enters inode `i` into the directory. Its size grows by an entry whichever
-- entry was free.
unfoldable pub enter_name : (dp i : ℕ) → List ℕ → Op Kernel (Unit {0})
enter_name dp i path = do
  dir ← inode_at dp
  (off, bp, o) ← free_in_dir (dir.size / bsize + 1) dp 0
  ip ← inode_at i
  m ← buf_at bp
  modify (put_buf bp (record m { bytes = put_name dirsiz (o + 2) path (put16 m.bytes o ip.inum) }))
  b ← bmap dp (off / bsize)
  bwrite bp b
  brelse bp
  dir ← inode_at dp
  modify (put_inode dp (record dir { size = dir.size + dirent_size }))
  iupdate dp

-- `mknod`
unfoldable pub mknod : (dp : ℕ) → List ℕ → (kind major minor : ℕ) → Op Kernel ℕ
unfolding enter_name
mknod dp path kind major minor = do
  dir ← inode_at dp
  i ← ialloc dir.dev kind
  ip ← inode_at i
  modify (put_inode i (record ip { major = major; minor = minor; size = 0; nlink = 0 }))
  iupdate i
  enter_name dp i path
  pure i
