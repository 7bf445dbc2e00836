-- ===== src/Fs/Tests.antt =====
-- The theorems about kernel/bio.c and kernel/fs.c on the small kernel.
use gcgos.Base.{
  among, ℕ, Option, ◌==◌, ◌||◌, ◌+◌, ◌≡◌, ◌≢◌, ◌<◌, ◌⊎◌, refl, true, false, some, List, [], ◌∷◌,
  arith, ok, switched, spinning, load8, panicked, Panic, get_elem?, get32, Bytes, write, ◌>>◌,
}
use gcgos.Kernel.{Inode, Kernel}
use gcgos.Samples.{sample, first_process, sample_inode, busy_inode, idle_buf, sample_card, zeros}
use gcgos.Fs.Layout.{sb_size, sb_ninodes, dirsiz, iblock}
use gcgos.Fs.Bio.{first_free}
use gcgos.Fs.Bio.Laws.{IsFirst}
use gcgos.Fs.Blocks.{balloc, bfree}
use gcgos.Fs.Blocks.Free.{bfree-balloc}
use gcgos.Fs.Blocks.Refine.{BlockOp, BlockSet, run_blocks, Answers, run_blocks-BlockSet}
use gcgos.Fs.Blocks.Alloc.{used, marked, balloc_cases}
use gcgos.Fs.Inodes.{ilock, iupdate, load_inode}
use gcgos.Fs.Update.{InRange, Reloaded, load_inode-iupdate}
use gcgos.Fs.Rw.{readi, writei}
use gcgos.Fs.Rw.Contents.{Within, grown}
use gcgos.Fs.Rw.RoundTrip.{readi-writei}
use gcgos.Fs.Rw.NewBlock.{Kept, readi-writei_new}
use gcgos.Fs.Locking.{TableOp, Later, run_op, ilock_deadlock}
use gcgos.Fs.Dirs.{match_name}
use gcgos.Fs.Dirs.Match.{component, behind, name_at, match_name_iff}

second_buf : IsFirst sample.bufs 1 idle_buf
unfolding first_free
second_buf = record { first = refl; found = refl; idle = refl }

balloc_cases_example :
    ((balloc sample ≡ panicked Panic.balloc)
      × ((c : ℕ)
          → c < sb_size (sample.card 1)
          → used sample.card (sb_ninodes (sample.card 1)) c ≡ true))
    ⊎ ((b : ℕ) × (b < sb_size (sample.card 1))
        × (used sample.card (sb_ninodes (sample.card 1)) b ≡ false)
        × ((c : ℕ) → c < b → used sample.card (sb_ninodes (sample.card 1)) c ≡ true)
        × (balloc sample ≡ ok b (marked sample 1 b (sb_ninodes (sample.card 1)))))
balloc_cases_example = balloc_cases sample 1 idle_buf second_buf

run_blocks-BlockSet_example :
    (r : Option (List ℕ)) × BlockSet
      (sb_size (sample.card 1))
      (BlockOp.allocate ∷ BlockOp.release 2 ∷ BlockOp.allocate ∷ [])
      (used sample.card (sb_ninodes (sample.card 1)))
      r
    × Answers r (run_blocks (BlockOp.allocate ∷ BlockOp.release 2 ∷ BlockOp.allocate ∷ []) sample)
run_blocks-BlockSet_example =
    run_blocks-BlockSet (BlockOp.allocate ∷ BlockOp.release 2 ∷ BlockOp.allocate ∷ []) sample
      (used sample.card (sb_ninodes (sample.card 1))) (sample.card 1) 1 idle_buf second_buf refl
      (λ c. refl)

bfree-balloc_example :
    (balloc sample ≡ panicked Panic.balloc)
    ⊎ ((b : ℕ) × (k1 k2 : Kernel) × (balloc sample ≡ ok b k1)
        × ((c : ℕ) → used k1.card 3 c ≡ (c == b) || used sample.card 3 c)
        × (bfree b k1 ≡ ok tt k2)
        × ((c : ℕ) → used k2.card 3 c ≡ used sample.card 3 c))
unfolding get32
bfree-balloc_example = bfree-balloc sample 1 idle_buf second_buf

sample_inode-InRange : InRange sample_inode
sample_inode-InRange = record {
  kind = omega arith;
  major = omega arith;
  minor = omega arith;
  nlink = omega arith;
  size = omega arith;
}

load_inode-iupdate_example :
    (k' : Kernel) × (new : Inode) × ((iupdate 0 >> load_inode 1 4 1) sample ≡ ok 1 k')
    × (get_elem? k'.inodes 1 ≡ some new)
    × Reloaded sample.card sample_inode new
load_inode-iupdate_example =
    load_inode-iupdate sample 1 0 1 1 sample_inode busy_inode idle_buf refl refl second_buf
      sample_inode-InRange

ilock_deadlock_example :
    (k' : Kernel) × (ilock 1 sample ≡ switched k')
    × ((k2 : Kernel)
        → Later k' k2
        → (get_elem? k2.inodes 1 ≡ some busy_inode) × ((op : TableOp) → run_op op k2 ≡ spinning))
ilock_deadlock_example = ilock_deadlock sample 0 1 first_process busy_inode refl refl refl refl refl

abbrev path : List ℕ
path = b'e' ∷ b't' ∷ b'c' ∷ b'/' ∷ b'r' ∷ b'c' ∷ []

-- A directory entry of the name "etc".
abbrev dirent : Bytes
dirent = write (write (write zeros 2 b'e') 3 b't') 4 b'c'

match_name_iff_example :
    ((rest : List ℕ)
      → match_name dirsiz 2 dirent path ≡ some rest
      → (component path ≡ name_at dirsiz 2 dirent) × (rest ≡ behind path))
    × (component path ≡ name_at dirsiz 2 dirent
        → match_name dirsiz 2 dirent path ≡ some (behind path))
match_name_iff_example =
    match_name_iff 2 dirent path
      (omega arith, (omega arith, (omega arith, (omega arith, (omega arith, (omega arith, tt))))))

three_bytes : Within sample_inode 100 3
three_bytes = record { direct = omega arith; one_block = omega arith; some_bytes = omega arith }

readi-writei_example :
    (k1 k2 : Kernel) × (writei 0 4096 100 3 sample ≡ ok 3 k1)
    × (readi 0 8192 100 3 k1 ≡ ok 3 k2)
    × ((x : ℕ) → x < 3 → load8 k2.kmem.word (8192 + x) ≡ load8 sample.kmem.word (4096 + x))
    × ((a : ℕ) → among 8192 3 a ≡ false → load8 k2.kmem.word a ≡ load8 sample.kmem.word a)
    × ((x : ℕ) → among 100 3 x ≡ false → k2.card 50 x ≡ sample.card 50 x)
    × ((s : ℕ) → s ≢ 50 → s ≢ 3 → k2.card s ≡ sample.card s)
    × (get_elem? k2.inodes 0 ≡ some (grown sample_inode 103))
readi-writei_example =
    readi-writei sample 0 1 4096 8192 100 3 sample_inode idle_buf refl refl three_bytes
      (omega arith) (omega arith) second_buf

-- A file without blocks, on a card of which blocks 0 to 4 are in use.
abbrev hollow_inode : Inode
hollow_inode = record sample_inode { addrs = λ _. 0 }

abbrev hollow : Kernel
hollow = record sample { inodes = hollow_inode ∷ []; card = write sample_card 4 (write zeros 0 31) }

hollow_used :
    (used hollow.card (sb_ninodes (hollow.card 1)) 0 ≡ true)
    × (used hollow.card (sb_ninodes (hollow.card 1)) (iblock hollow_inode.inum) ≡ true)
unfolding get32
hollow_used = (refl, refl)

readi-writei_new_example :
    ((writei 0 4096 100 3 hollow ≡ panicked Panic.balloc)
      × ((c : ℕ)
          → c < sb_size (hollow.card 1)
          → used hollow.card (sb_ninodes (hollow.card 1)) c ≡ true))
    ⊎ ((c : ℕ) × (used hollow.card (sb_ninodes (hollow.card 1)) c ≡ false)
        × ((a : ℕ) → a < c → used hollow.card (sb_ninodes (hollow.card 1)) a ≡ true)
        × Kept 0 4096 8192 100 3 c hollow_inode hollow
            (marked hollow 1 c (sb_ninodes (hollow.card 1))))
readi-writei_new_example =
    readi-writei_new hollow 0 1 4096 8192 100 3 hollow_inode idle_buf refl refl
      (record { direct = omega arith; one_block = omega arith; some_bytes = omega arith }) refl
      second_buf hollow_used.0 hollow_used.1
