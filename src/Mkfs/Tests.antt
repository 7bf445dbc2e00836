-- ===== src/Mkfs/Tests.antt =====
-- The theorems about mkfs/mkfs.c on a small image.
use gcgos.Base.{
  some, get_elem?, ◌≢◌, ◌+◌, ◌%◌, false, get16, put16, load8, among, ℕ, ◌≡◌, ◌<◌, refl, arith, ok,
  Bytes, write, get32, put32,
}
use gcgos.Kernel.{Kernel, Inode}
use gcgos.Samples.{sample, sample_inode, idle_buf, zeros}
use gcgos.Fs.Bio.{first_free}
use gcgos.Fs.Bio.Laws.{IsFirst}
use gcgos.Fs.Inodes.{load_inode}
use gcgos.Fs.Blocks
use gcgos.Fs.Blocks.Alloc.{marked}
use gcgos.Fs.Layout.{t_dev}
use gcgos.Fs.Rw.{readi}
use gcgos.Mkfs.Append.{Empty, din_before, appended, readi-iappend}
use gcgos.Mkfs.{winode, rinode, dinode_size, iappend, Image, wsect, bits_from, balloc, new_dinode}
use gcgos.Mkfs.Bitmap.{balloc-balloc}
use gcgos.Mkfs.Inode.{with_inode, SameInode, load_inode-winode, rinode-winode}

-- An image with a super block and nothing else.
abbrev image : Image
image = record {
  card = write (λ _. zeros) 1 (put32 (put32 zeros 0 2048) 8 100);
  sectors = 2048;
  freeblock = 3;
  usedblocks = 37;
  freeinode = 1;
}

-- The image with its bitmap, and the small kernel on it.
abbrev with_bitmap : Image
with_bitmap = record image { card = write image.card 36 (bits_from 3 0 (λ _. 0)) }

abbrev on_image : Kernel
on_image = record sample { card = with_bitmap.card }

bitmap_run : balloc 3 image ≡ ok tt with_bitmap
unfolding balloc wsect
bitmap_run = refl

second_free : IsFirst sample.bufs 1 idle_buf
unfolding first_free
second_free = record { first = refl; found = refl; idle = refl }

balloc-balloc_example : Blocks.balloc on_image ≡ ok 3 (marked on_image 1 3 100)
unfolding get32 put32
balloc-balloc_example =
    balloc-balloc 3 image with_bitmap on_image 1 idle_buf (omega arith) bitmap_run refl refl refl
      second_free

abbrev with_file : Image
with_file = with_inode 4 (new_dinode 2) image

-- With the file's inode there, two bytes are appended to it.
abbrev before_file : Image
before_file = record with_file { freeblock = 60 }

before_file-Empty : Empty 4 before_file
unfolding get32 put16 put32 new_dinode
before_file-Empty = record {
  no_size = refl;
  no_block = refl;
  there = omega arith;
  room = omega arith;
  apart = omega arith;
}

plain_kind : get16 (din_before 4 before_file) 0 ≢ t_dev
unfolding get16 put16 put32 new_dinode
plain_kind = omega arith

abbrev two_bytes : Bytes
two_bytes = write (write zeros 0 104) 1 105

abbrev after_file : Image
after_file = appended 4 two_bytes 2 before_file

abbrev with_card : Kernel
with_card = record sample { card = after_file.card }

readi-iappend_example :
    (k1 k2 : Kernel) × (iappend 4 two_bytes 2 before_file ≡ ok tt after_file)
    × (load_inode 1 4 0 with_card ≡ ok 0 k1)
    × (readi 0 8192 0 2 k1 ≡ ok 2 k2)
    × ((a : ℕ) → a < 2 → load8 k2.kmem.word (8192 + a) ≡ two_bytes a % 256)
    × ((a : ℕ) → among 8192 2 a ≡ false → load8 k2.kmem.word a ≡ load8 with_card.kmem.word a)
readi-iappend_example =
    readi-iappend 4 two_bytes 2 before_file with_card 1 0 1 8192 sample_inode idle_buf (omega arith)
      (omega arith) before_file-Empty (omega arith) plain_kind refl refl second_free

-- The kernel on the image with the file's inode.
abbrev on_file : Kernel
on_file = record sample { card = with_file.card }

load_inode-winode_example :
    (k' : Kernel) × (new : Inode) × (winode 4 (new_dinode 2) image ≡ ok tt with_file)
    × (load_inode 1 4 0 on_file ≡ ok 0 k')
    × (get_elem? k'.inodes 0 ≡ some new)
    × SameInode (new_dinode 2) new
load_inode-winode_example =
    load_inode-winode 4 (new_dinode 2) image on_file 1 0 1 sample_inode idle_buf (omega arith) refl
      refl second_free

-- Inodes 4 and 5 lie in one sector.
rinode-winode_example :
    (s' : Image) × (own before after : Bytes) × (winode 4 (new_dinode 2) image ≡ ok tt s')
    × (rinode 4 s' ≡ ok own s')
    × ((a : ℕ) → a < dinode_size → own a ≡ new_dinode 2 a)
    × (rinode 5 image ≡ ok before image)
    × (rinode 5 s' ≡ ok after s')
    × ((a : ℕ) → a < dinode_size → after a ≡ before a)
rinode-winode_example =
    rinode-winode 4 5 (new_dinode 2) image (omega arith) (omega arith) (omega arith)
