-- ===== src/Mkfs/Make.antt =====
-- `main` of mkfs/mkfs.c. A file is its path and what the calls of `read` gave, `none` for a path that
-- `open` did not open.
use gcgos.Base.{
  ℕ, zero, suc, ◌+◌, ◌/◌, Option, none, some, List, [], ◌∷◌, if◌then◌else◌, ◌==◌, ltb, length,
  get_or, Bytes, write, put16, put32, Op, Panic, pure, modify, gets, stop, fault, ◌>>=◌, ◌>>◌,
}
use gcgos.Fs.Layout.{dirsiz, t_dir, t_file, ipb, dirent_size}
use gcgos.Mkfs.{Image, nblocks, ninodes, size, wsect, ialloc, balloc, iappend}

-- `for (i = 0; i < size; i++) wsect(i, zero)`
unfoldable pub zero_sectors : (left i : ℕ) → Op Image (Unit {0})
unfolding wsect
zero_sectors zero i = pure tt
zero_sectors (suc left) i = do wsect i (λ _. 0); zero_sectors left (i + 1)

-- The counters at the start: `ninodes / IPB + 3 + bitblocks` sectors are in use.
unfoldable pub first_block : ℕ
first_block = ninodes / ipb + 3 + (size / 4096 + 1)

-- The sector of the super block: `wsect(1, &sb)` writes 512 bytes from `sb` on, of which the struct
-- has twelve. `behind` is what follows it in memory.
unfoldable pub super_sector : (behind : Bytes) → Bytes
super_sector behind = put32 (put32 (put32 behind 0 size) 4 nblocks) 8 ninodes

-- `strcpy` to the name of a `struct dirent`.
unfoldable pub copy_name : (o : ℕ) → List ℕ → Bytes → Bytes
copy_name o [] m = write m o 0
copy_name o (c ∷ cs) m = copy_name (o + 1) cs (write m o c)

-- A zeroed `struct dirent` with the number and the name.
unfoldable pub dirent : (inum : ℕ) → List ℕ → Bytes
unfolding copy_name
dirent inum name = copy_name 2 name (put16 (λ _. 0) 0 inum)

-- `strrchr(path, '/') + 1`, `none` where there is no slash.
unfoldable pub after_slash : List ℕ → Option (List ℕ)
after_slash [] = none
after_slash (c ∷ cs) = elim (after_slash cs) [
  | some name ↦ some name
  | none ↦ if c == b'/' then some cs else none
]

-- The entry of a name in the root directory. A name of 14 characters or more, with its NUL, leaves
-- the array; and without a slash `strrchr` gives NULL.
unfoldable pub enter : (root inum : ℕ) → Option (List ℕ) → Op Image (Unit {0})
unfolding dirent iappend
enter root inum none = fault
enter root inum (some name) =
    if ltb (length name) dirsiz then iappend root (dirent inum name) dirent_size else fault

-- `while ((cc = read(fd, buf, sizeof(buf))) > 0) iappend(inum, buf, cc)`
unfoldable pub append_chunks : (inum : ℕ) → List (List ℕ) → Op Image (Unit {0})
unfolding iappend
append_chunks inum [] = pure tt
append_chunks inum (c ∷ cs) = do iappend inum (λ a. get_or c a 0) (length c); append_chunks inum cs

unfoldable pub chunks_of : Option (List (List ℕ)) → List (List ℕ)
chunks_of none = []
chunks_of (some cs) = cs

-- The loop over the files.
unfoldable pub add_files : (root : ℕ) → List (List ℕ × Option (List (List ℕ))) → Op Image (Unit {0})
unfolding ialloc after_slash enter append_chunks chunks_of
add_files root [] = pure tt
add_files root ((path, contents) ∷ files) = do
  inum ← ialloc t_file
  enter root inum (after_slash path)
  append_chunks inum (chunks_of contents)
  add_files root files

-- An empty image, with the counters as `main` finds them.
abbrev pub empty_image : Image
empty_image = record { card = λ _ _. 0; sectors = 0; freeblock = 0; usedblocks = 0; freeinode = 1 }

-- `main`
unfoldable pub make :
    (behind : Bytes) → List (List ℕ × Option (List (List ℕ))) → Op Image (Unit {0})
unfolding zero_sectors first_block super_sector add_files dirent ialloc iappend balloc
make behind files = do
  modify (λ s. record s { usedblocks = first_block; freeblock = first_block })
  if nblocks + first_block == size then pure tt else stop Panic.mkfs_assert
  zero_sectors size 0
  wsect 1 (super_sector behind)
  root ← ialloc t_dir
  if root == 1 then pure tt else stop Panic.mkfs_assert
  iappend root (dirent root (b'.' ∷ [])) dirent_size
  iappend root (dirent root (b'.' ∷ b'.' ∷ [])) dirent_size
  add_files root files
  used ← gets (λ s. s.usedblocks)
  balloc used
