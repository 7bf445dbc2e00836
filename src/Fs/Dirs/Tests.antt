-- ===== src/Fs/Dirs/Tests.antt =====
-- `mknod` and `namei` of kernel/fs.c on a small kernel with a directory.
use gcgos.Base.{
  ℕ, ◌+◌, ◌≡◌, refl, true, false, none, some, [], ◌∷◌, arith, ok, Outcome, write, List, get_elem?,
  get16, get32,
}
use gcgos.Kernel.{Inode, Kernel}
use gcgos.Samples.{sample, sample_card, sample_inode, zeros}
use gcgos.Fs.Layout.{dirent_size}
use gcgos.Fs.Inodes.{ialloc, iget, lock_table, unlock_table}
use gcgos.Fs.Bio.{first_free, bread, bwrite, brelse}
use gcgos.Fs.Bio.Laws.{IsFirst}
use gcgos.Fs.Dirs.{find_in_block, free_entry, mknod}
use gcgos.Fs.Dirs.Search.{IsNew}
use gcgos.Fs.Dirs.Made.{Entered, find_in_dir-mknod}

-- The root directory, whose first block is sector 50, and an entry of the table that is free.
abbrev root : Inode
root = record sample_inode { inum = 1; busy = true; kind = 1 }

abbrev unused : Inode
unused = record sample_inode { inum = 0; count = 0; kind = 0 }

-- Inode 1 is taken on the card.
abbrev with_root : Kernel
with_root = record sample {
  inodes = root ∷ unused ∷ [];
  card = write sample_card 2 (write zeros 140 1);
}

abbrev state_of : Outcome Kernel ℕ → Kernel
state_of (ok _ k) = k
state_of _ = sample

abbrev inode_of : List Inode → Inode
inode_of (_ ∷ ip ∷ _) = ip
inode_of _ = unused

abbrev allocated : Kernel
allocated = state_of (ialloc 1 2 with_root)

made_inode : Inode
made_inode = inode_of allocated.inodes

-- "sh"
abbrev shell : List ℕ
shell = 115 ∷ 104 ∷ []

ialloc-allocated : ialloc 1 2 with_root ≡ ok 1 allocated
unfolding ialloc bread brelse get32 get16 bwrite iget lock_table unlock_table
ialloc-allocated = refl

root_there : get_elem? allocated.inodes 0 ≡ some root
unfolding ialloc bread brelse get32 get16 bwrite iget lock_table unlock_table
root_there = refl

made_there : get_elem? allocated.inodes 1 ≡ some made_inode
unfolding ialloc bread brelse get32 get16 bwrite iget lock_table unlock_table made_inode
made_there = refl

made_number : made_inode.inum ≡ 2
unfolding ialloc bread brelse get32 get16 bwrite iget lock_table unlock_table made_inode
made_number = refl

buffer_free : IsFirst allocated.bufs 1 (record { busy = false; bytes = allocated.card 2 })
unfolding ialloc bread brelse get32 get16 bwrite iget lock_table unlock_table first_free
buffer_free = record { first = refl; found = refl; idle = refl }

block_blank : allocated.card 50 ≡ zeros
unfolding ialloc bread brelse get32 get16 bwrite iget lock_table unlock_table
block_blank = refl

entry_free : free_entry 32 0 zeros ≡ some 0
unfolding free_entry get16
entry_free = refl

name_unknown : find_in_block 32 0 zeros shell ≡ none
unfolding find_in_block get16
name_unknown = refl

shell-IsNew : IsNew 0 2 shell zeros
shell-IsNew = record {
  fits = omega arith;
  used = λ e. absurd (omega (arith, e));
  no_nul = (λ e. absurd (omega (arith, e)), (λ e. absurd (omega (arith, e)), tt));
  no_slash = (λ e. absurd (omega (arith, e)), (λ e. absurd (omega (arith, e)), tt));
  short = omega arith;
  blank = λ j lt. refl;
}

find_in_dir-mknod_example :
    (k2 : Kernel) × (mknod 0 shell 2 0 0 with_root ≡ ok 1 k2)
    × Entered 50 made_inode.inum shell (allocated.card 50) 0 (512 + dirent_size) k2
find_in_dir-mknod_example =
    find_in_dir-mknod with_root allocated 0 1 1 0 2 0 0 root root made_inode
      (record { busy = false; bytes = allocated.card 2 }) shell refl ialloc-allocated root_there
      made_there (λ e. absurd (omega (arith, e))) (omega arith) buffer_free
      (λ e. absurd (omega (arith, e))) (λ e. absurd (omega (arith, e, made_number)))
      (rw block_blank entry_free) (rw (block_blank, made_number) shell-IsNew)
      (rw block_blank name_unknown)
